-- ===== src/Node/Delivery.antt =====
-- send_update of src/node.rs: which answers make it end with an accepted item, and which give the node up.
use concordium_euro2ccd_serv.Base.{
  ◌≡◌, ◌≢◌, refl, sym, ap, subst, ◌∙◌, ◌⊎◌, inl, inr, Bool, true, false, none, some, Option-cases,
  List, [], ◌∷◌,
}
use concordium_euro2ccd_serv.Helpers.{ExchangeRate}
use concordium_euro2ccd_serv.Prometheus.{Stats}
use concordium_euro2ccd_serv.Node.{
  Sdk, is_unreachable, Answer, accepted, call_error, rpc_error, Tick, gave_up, sent, Sending,
  after_answer, on_tick, send_loop, send_update,
}
use concordium_euro2ccd_serv.Node.Waiting.{goes_on, on_tick-goes_on}

module _ (sdk : Sdk) where
  open sdk use {UpdateSequenceNumber, TransactionHash, Signer}

  abbrev pub is_accepted : Answer TransactionHash → Bool
  is_accepted (accepted h) = true
  is_accepted (call_error code) = false
  is_accepted rpc_error = false

  abbrev pub is_lost : Answer TransactionHash → Bool
  is_lost (accepted h) = false
  is_lost (call_error code) = is_unreachable code
  is_lost rpc_error = false

  -- The node accepts an item, after ticks with which the loop goes on; whenever it is asked for a
  -- sequence number until then, it has one.
  abbrev pub Accepts : Bool → List (Tick sdk) → Type 0
  Accepts asks [] = ⊥
  Accepts true (t ∷ ts) =
      (t.new_seq ≢ none)
      × ((is_accepted t.answer ≡ true) ⊎ ((goes_on sdk t.answer ≡ true) × Accepts true ts))
  Accepts false (t ∷ ts) =
      (is_accepted t.answer ≡ true) ⊎ ((goes_on sdk t.answer ≡ true) × Accepts true ts)

  -- The node is lost, after ticks with which the loop goes on: it does not answer with a sequence
  -- number, or its answer has a code at which it counts as unreachable.
  abbrev pub IsLost : Bool → List (Tick sdk) → Type 0
  IsLost asks [] = ⊥
  IsLost true (t ∷ ts) =
      (t.new_seq ≡ none)
      ⊎ ((t.new_seq ≢ none)
          × ((is_lost t.answer ≡ true) ⊎ ((goes_on sdk t.answer ≡ true) × IsLost true ts)))
  IsLost false (t ∷ ts) =
      (is_lost t.answer ≡ true) ⊎ ((goes_on sdk t.answer ≡ true) × IsLost true ts)

  module _ (F : Type 0) (signer : Signer) (exchange_rate : ExchangeRate) where
    -- The loop ended with an accepted item.
    abbrev pub Sent : Sending sdk F → Type 0
    Sent x = (h : TransactionHash) × (seq : UpdateSequenceNumber) × (x.progress ≡ sent h seq)

    on_tick-accepted :
        (seq : UpdateSequenceNumber) (t : Tick sdk)
        (again : UpdateSequenceNumber → Stats F → Sending sdk F) (stats : Stats F)
        → is_accepted t.answer ≡ true
        → Sent (on_tick sdk F signer exchange_rate (some seq) t again stats)
    unfolding on_tick
    on_tick-accepted seq t again stats h = answered t.answer h
      where
        answered :
            (a : Answer TransactionHash)
            → is_accepted a ≡ true
            → Sent (after_answer sdk F a seq (again seq) stats)
        answered (accepted x) h = (x, seq, refl)
        answered (call_error code) h = cc
        answered rpc_error h = cc

    on_tick-lost :
        (seq : UpdateSequenceNumber) (t : Tick sdk)
        (again : UpdateSequenceNumber → Stats F → Sending sdk F) (stats : Stats F)
        → is_lost t.answer ≡ true
        → (on_tick sdk F signer exchange_rate (some seq) t again stats).progress ≡ gave_up
    unfolding on_tick after_answer
    on_tick-lost seq t again stats h = answered t.answer h
      where
        answered :
            (a : Answer TransactionHash)
            → is_lost a ≡ true
            → (after_answer sdk F a seq (again seq) stats).progress ≡ gave_up
        answered (accepted x) h = cc
        answered (call_error code) h = rw (h, after_answer) refl
        answered rpc_error h = cc

    -- A tick that decides, or lets the rest of the loop decide.
    on_tick-Sent :
        (P : Type 0) (seq : UpdateSequenceNumber) (t : Tick sdk)
        (again : UpdateSequenceNumber → Stats F → Sending sdk F) (stats : Stats F)
        → (is_accepted t.answer ≡ true) ⊎ ((goes_on sdk t.answer ≡ true) × P)
        → (P → (st : Stats F) → Sent (again seq st))
        → Sent (on_tick sdk F signer exchange_rate (some seq) t again stats)
    on_tick-Sent P seq t again stats (inl a) rest = on_tick-accepted seq t again stats a
    on_tick-Sent P seq t again stats (inr (g, p)) rest =
        let (st, e) = on_tick-goes_on sdk F signer exchange_rate seq t again stats g in
        let (h, q, s) = rest p st in (h, q, e ∙ s)

    on_tick-gave_up :
        (P : Type 0) (seq : UpdateSequenceNumber) (t : Tick sdk)
        (again : UpdateSequenceNumber → Stats F → Sending sdk F) (stats : Stats F)
        → (is_lost t.answer ≡ true) ⊎ ((goes_on sdk t.answer ≡ true) × P)
        → (P → (st : Stats F) → (again seq st).progress ≡ gave_up)
        → (on_tick sdk F signer exchange_rate (some seq) t again stats).progress ≡ gave_up
    on_tick-gave_up P seq t again stats (inl a) rest = on_tick-lost seq t again stats a
    on_tick-gave_up P seq t again stats (inr (g, p)) rest =
        let (st, e) = on_tick-goes_on sdk F signer exchange_rate seq t again stats g in
        e ∙ rest p st

    -- The rest of the loop after a first tick.
    abbrev rest_of : List (Tick sdk) → UpdateSequenceNumber → Stats F → Sending sdk F
    rest_of ts seq = send_loop sdk F signer exchange_rate true seq ts

    send_loop-Sent :
        (ts : List (Tick sdk)) (asks : Bool) (seq : UpdateSequenceNumber) (stats : Stats F)
        → Accepts asks ts
        → Sent (send_loop sdk F signer exchange_rate asks seq ts stats)
    unfolding send_loop
    send_loop-Sent [] asks seq stats a = absurd a
    send_loop-Sent (t ∷ ts) false seq stats a =
        on_tick-Sent (Accepts true ts) seq t (rest_of ts) stats a
          (λ p st. send_loop-Sent ts true seq st p)
    send_loop-Sent (t ∷ ts) true seq stats (asked, a) = elim (Option-cases t.new_seq) [
      | inl n ↦ absurd (asked n)
      | inr (q, n) ↦
          subst (λ o. Sent (on_tick sdk F signer exchange_rate o t (rest_of ts) stats)) (sym n)
            (on_tick-Sent (Accepts true ts) q t (rest_of ts) stats a
              (λ p st. send_loop-Sent ts true q st p))
    ]

    send_loop-gave_up :
        (ts : List (Tick sdk)) (asks : Bool) (seq : UpdateSequenceNumber) (stats : Stats F)
        → IsLost asks ts
        → (send_loop sdk F signer exchange_rate asks seq ts stats).progress ≡ gave_up
    unfolding send_loop on_tick
    send_loop-gave_up [] asks seq stats a = absurd a
    send_loop-gave_up (t ∷ ts) false seq stats a =
        on_tick-gave_up (IsLost true ts) seq t (rest_of ts) stats a
          (λ p st. send_loop-gave_up ts true seq st p)
    send_loop-gave_up (t ∷ ts) true seq stats (inl n) =
        ap (λ o. (on_tick sdk F signer exchange_rate o t (rest_of ts) stats).progress) n
    send_loop-gave_up (t ∷ ts) true seq stats (inr (asked, a)) = elim (Option-cases t.new_seq) [
      | inl n ↦ absurd (asked n)
      | inr (q, n) ↦
          subst
            (λ o. (on_tick sdk F signer exchange_rate o t (rest_of ts) stats).progress ≡ gave_up)
            (sym n)
            (on_tick-gave_up (IsLost true ts) q t (rest_of ts) stats a
              (λ p st. send_loop-gave_up ts true q st p))
    ]

    pub send_update-Sent :
        (seq_number : UpdateSequenceNumber) (ticks : List (Tick sdk)) (stats : Stats F)
        → Accepts false ticks
        → Sent (send_update sdk F signer exchange_rate seq_number ticks stats)
    unfolding send_update
    send_update-Sent seq_number ticks stats a = send_loop-Sent ticks false seq_number stats a

    pub send_update-gave_up :
        (seq_number : UpdateSequenceNumber) (ticks : List (Tick sdk)) (stats : Stats F)
        → IsLost false ticks
        → (send_update sdk F signer exchange_rate seq_number ticks stats).progress ≡ gave_up
    unfolding send_update
    send_update-gave_up seq_number ticks stats a = send_loop-gave_up ticks false seq_number stats a
