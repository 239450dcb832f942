-- ===== src/Node/Waiting.antt =====
-- send_update and get_node_client of src/node.rs: how long the loop goes on, and when no node is found.
use concordium_euro2ccd_serv.Base.{
  ◌≡◌, ◌≢◌, refl, sym, ap, subst, ◌∙◌, ◌↔◌, inl, inr, Bool, true, false, not, Bool-cases, Option,
  none, some, Option-cases, List, [], ◌∷◌, All,
}
use concordium_euro2ccd_serv.Helpers.{ExchangeRate}
use concordium_euro2ccd_serv.Prometheus
use concordium_euro2ccd_serv.Prometheus.{Stats}
use concordium_euro2ccd_serv.Node.{
  Sdk, is_unreachable, Answer, accepted, call_error, rpc_error, Tick, trying, gave_up, Sending,
  after_answer, on_tick, send_loop, send_update, get_node_client,
}

module _ (sdk : Sdk) where
  open sdk use {UpdateSequenceNumber, TransactionHash, Signer}

  -- A tick after which the loop goes on: the sequence number came, and the answer is no success and no
  -- sign that the node cannot be reached.
  abbrev pub goes_on : Answer TransactionHash → Bool
  goes_on (accepted h) = false
  goes_on (call_error code) = not (is_unreachable code)
  goes_on rpc_error = true

  -- The loop goes on after every tick: each answers with a sequence number, if it is asked, and with
  -- nothing that ends the loop.
  abbrev pub AllGoOn : Bool → List (Tick sdk) → Type 0
  AllGoOn asks [] = Unit {0}
  AllGoOn true (t ∷ ts) = (t.new_seq ≢ none) × (goes_on t.answer ≡ true) × AllGoOn true ts
  AllGoOn false (t ∷ ts) = (goes_on t.answer ≡ true) × AllGoOn true ts

  module _ (F : Type 0) (signer : Signer) (exchange_rate : ExchangeRate) where
    after_answer-goes_on :
        (a : Answer TransactionHash) (seq : UpdateSequenceNumber) (again : Stats F → Sending sdk F)
        (stats : Stats F)
        → goes_on a ≡ true
        → (st : Stats F) × (after_answer sdk F a seq again stats ≡ again st)
    unfolding after_answer
    after_answer-goes_on (accepted h) seq again stats g = cc
    after_answer-goes_on (call_error code) seq again stats g =
        elim (Bool-cases (is_unreachable code)) [
          | inl e ↦ let no_ : false ≡ true = rw e at g in cc
          | inr e ↦ (Prometheus.increment_update_attempts F stats, rw (e, after_answer))
        ]
    after_answer-goes_on rpc_error seq again stats g =
        (Prometheus.increment_update_attempts F stats, refl)

    after_answer-stops :
        (a : Answer TransactionHash) (seq : UpdateSequenceNumber) (again : Stats F → Sending sdk F)
        (stats : Stats F)
        → goes_on a ≡ false
        → (after_answer sdk F a seq again stats).progress ≢ trying
    unfolding after_answer
    after_answer-stops (accepted h) seq again stats g = λ e. cc
    after_answer-stops (call_error code) seq again stats g =
        elim (Bool-cases (is_unreachable code)) [
          | inl e ↦ rw (e, after_answer) (λ h. cc)
          | inr e ↦ let no_ : true ≡ false = rw e at g in cc
        ]
    after_answer-stops rpc_error seq again stats g = cc

    pub on_tick-goes_on :
        (seq : UpdateSequenceNumber) (t : Tick sdk)
        (again : UpdateSequenceNumber → Stats F → Sending sdk F) (stats : Stats F)
        → goes_on t.answer ≡ true
        → (st : Stats F) × ((on_tick sdk F signer exchange_rate (some seq) t again stats).progress
            ≡ (again seq st).progress)
    unfolding on_tick
    on_tick-goes_on seq t again stats g =
        let (st, e) = after_answer-goes_on t.answer seq (again seq) stats g in
        (st, ap (λ (s : Sending sdk F). s.progress) e)

    loop_goes_on :
        (ts : List (Tick sdk)) (asks : Bool) (seq : UpdateSequenceNumber) (stats : Stats F)
        → AllGoOn asks ts
        → (send_loop sdk F signer exchange_rate asks seq ts stats).progress ≡ trying
    unfolding send_loop
    loop_goes_on [] asks seq stats all = refl
    loop_goes_on (t ∷ ts) false seq stats all =
        let (st, e) =
          on_tick-goes_on seq t (λ q. send_loop sdk F signer exchange_rate true q ts) stats all.0 in
        e ∙ loop_goes_on ts true seq st all.1
    loop_goes_on (t ∷ ts) true seq stats (asked, g, all) = elim (Option-cases t.new_seq) [
      | inl e ↦ absurd (asked e)
      | inr (q, e) ↦
          let (st, p) =
            on_tick-goes_on q t (λ q'. send_loop sdk F signer exchange_rate true q' ts) stats g in
          ap
            (λ o.
              (on_tick sdk F signer exchange_rate o t
                (λ q'. send_loop sdk F signer exchange_rate true q' ts) stats).progress)
            e
          ∙ p
          ∙ loop_goes_on ts true q st all
    ]

    -- A tick with a sequence number after which the loop still tries.
    on_tick-trying :
        (seq : UpdateSequenceNumber) (t : Tick sdk)
        (again : UpdateSequenceNumber → Stats F → Sending sdk F) (stats : Stats F)
        → (on_tick sdk F signer exchange_rate (some seq) t again stats).progress ≡ trying
        → (goes_on t.answer ≡ true) × ((st : Stats F) × ((again seq st).progress ≡ trying))
    unfolding on_tick
    on_tick-trying seq t again stats h = elim (Bool-cases (goes_on t.answer)) [
      | inl g ↦
          let (st, e) = after_answer-goes_on t.answer seq (again seq) stats g in
          (g, (st, sym (ap (λ (s : Sending sdk F). s.progress) e) ∙ h))
      | inr g ↦ absurd (after_answer-stops t.answer seq (again seq) stats g h)
    ]

    on_tick-none :
        (t : Tick sdk) (again : UpdateSequenceNumber → Stats F → Sending sdk F) (stats : Stats F)
        → (on_tick sdk F signer exchange_rate none t again stats).progress ≡ gave_up
    unfolding on_tick
    on_tick-none t again stats = refl

    loop_trying :
        (ts : List (Tick sdk)) (asks : Bool) (seq : UpdateSequenceNumber) (stats : Stats F)
        → (send_loop sdk F signer exchange_rate asks seq ts stats).progress ≡ trying
        → AllGoOn asks ts
    unfolding send_loop
    loop_trying [] asks seq stats h = tt
    loop_trying (t ∷ ts) false seq stats h =
        let (g, (st, e)) =
          on_tick-trying seq t (λ q. send_loop sdk F signer exchange_rate true q ts) stats h in
        (g, loop_trying ts true seq st e)
    loop_trying (t ∷ ts) true seq stats h = elim (Option-cases t.new_seq) [
      | inl e ↦
          let stopped = rw e at h in
          cc (on_tick-none t (λ q'. send_loop sdk F signer exchange_rate true q' ts) stats)
      | inr (q, e) ↦
          let (g, (st, p)) =
            on_tick-trying q t (λ q'. send_loop sdk F signer exchange_rate true q' ts) stats
              (subst
                (λ o.
                  (on_tick sdk F signer exchange_rate o t
                    (λ q'. send_loop sdk F signer exchange_rate true q' ts) stats).progress
                  ≡ trying)
                e h) in
          ((λ none_. let bad : none ≡ some q = sym none_ ∙ e in cc), g, loop_trying ts true q st p)
    ]

    -- send_update still tries after the given ticks exactly if each of them answers neither with
    -- success nor with a code at which the node counts as unreachable, and each but the first also
    -- answers with a new sequence number.
    pub send_update-trying_iff :
        (seq_number : UpdateSequenceNumber) (ticks : List (Tick sdk)) (stats : Stats F)
        → ((send_update sdk F signer exchange_rate seq_number ticks stats).progress ≡ trying)
          ↔ AllGoOn false ticks
    unfolding send_update
    send_update-trying_iff seq_number ticks stats =
        (loop_trying ticks false seq_number stats, loop_goes_on ticks false seq_number stats)

  -- get_node_client finds no client exactly if no endpoint can be connected to.
  pub get_node_client-none_iff :
      (connect : sdk.Endpoint → Option sdk.Client) (endpoints : List sdk.Endpoint)
      → (get_node_client sdk connect endpoints ≡ none) ↔ All (λ e. connect e ≡ none) endpoints
  unfolding get_node_client
  get_node_client-none_iff connect [] = (λ h. tt, λ h. refl)
  get_node_client-none_iff connect (e ∷ es) = elim (Option-cases (connect e)) [
    | inl n ↦
        let (there, back) = get_node_client-none_iff connect es in
        rw (n, get_node_client) (λ h. (refl, there h), λ h. back h.1)
    | inr (c, s) ↦ rw (s, get_node_client) (λ h. cc, λ h. cc)
  ]
