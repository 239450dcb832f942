-- ===== src/Main/Cycle/Delivery.antt =====
-- The main loop of src/main.rs in a cycle whose update gets through.
use concordium_euro2ccd_serv.Base.{
  ℕ, ℤ, ◌≡◌, ◌≢◌, refl, sym, ap, subst, ◌∙◌, ◌⊎◌, inl, inr, Bool, true, false, none, some, List, [],
  ◌∷◌,
}
use concordium_euro2ccd_serv.Rational.{Rational, Float}
use concordium_euro2ccd_serv.Helpers.{ExchangeRate, convert_big_fraction_to_exchange_rate}
use concordium_euro2ccd_serv.Helpers.Convert.{convert_total}
use concordium_euro2ccd_serv.Helpers.Change.{relative_change-some}
use concordium_euro2ccd_serv.Sources.{RateHistory}
use concordium_euro2ccd_serv.Node.{Sdk, Progress, send_update, get_node_client}
use concordium_euro2ccd_serv.Node.Retries.{last_seq}
use concordium_euro2ccd_serv.Node.Delivery.{Accepts, IsLost, send_update-Sent, send_update-gave_up}
use concordium_euro2ccd_serv.Main.Cycle.{
  finalized, Verdict, halt, warn, fine, went_on, Thresholds, derive_rate, Service, Visit, Around,
  Turn, Submitted, submitted, Submission, after_send, submit_loop, after_finality, after_submission,
  submit, submit_converted, on_verdict, on_change, on_rate, main_cycle,
}
use concordium_euro2ccd_serv.Main.Cycle.Confirmed.{submit_loop-Named, confirm_sets}
use concordium_euro2ccd_serv.Main.Cycle.Allowed.{Allowed, judge-Allowed}

module _ (num : Rational) (float : Float num) (gcd : ℤ → ℤ → ℕ) (sdk : Sdk)
    (endpoint : List sdk.Endpoint) where
  open num use {Q, lt}
  open sdk use {UpdateSequenceNumber, Signer}

  -- Each node that is visited is lost, with a next one found, until one accepts the update.
  abbrev pub Delivers : List (Visit num float gcd sdk) → Type 0
  Delivers [] = ⊥
  Delivers (v ∷ vs) =
      Accepts sdk false v.ticks
      ⊎ (IsLost sdk false v.ticks
          × ((c : sdk.Client) × (get_node_client sdk v.connect endpoint ≡ some c))
          × Delivers vs)

  submit_loop-submitted :
      (signer : Signer) (new_rate : ExchangeRate) (vs : List (Visit num float gcd sdk))
      (s : Service num float gcd sdk)
      → Delivers vs
      → (seq : UpdateSequenceNumber) × ((submit_loop num float gcd sdk endpoint signer new_rate vs
            s).outcome
          ≡ submitted seq)
  unfolding submit_loop after_send
  submit_loop-submitted signer new_rate [] s d = absurd d
  submit_loop-submitted signer new_rate (v ∷ vs) s (inl accepts) =
      let x = send_update sdk float.F signer new_rate s.seq_number v.ticks s.stats in
      let (h, seq, e) =
        send_update-Sent sdk float.F signer new_rate s.seq_number v.ticks s.stats accepts in
      (
        seq,
        ap
            (λ (p : Progress sdk).
              (after_send num float gcd sdk endpoint p v
                (submit_loop num float gcd sdk endpoint signer new_rate vs)
                (record s { stats = x.stats })).outcome)
            e,
      )
  submit_loop-submitted signer new_rate (v ∷ vs) s (inr (lost, (c, found), rest)) =
      let x = send_update sdk float.F signer new_rate s.seq_number v.ticks s.stats in
      let again = submit_loop num float gcd sdk endpoint signer new_rate vs in
      let (seq, e) =
        submit_loop-submitted signer new_rate vs (record s { stats = x.stats; node_client = c })
          rest in
      (
        seq,
        ap
              (λ (p : Progress sdk).
                (after_send num float gcd sdk endpoint p v again
                  (record s { stats = x.stats })).outcome)
              (send_update-gave_up sdk float.F signer new_rate s.seq_number v.ticks s.stats lost)
            ∙ rw (found, after_send) e,
      )

  -- The cycle ended with the rate as the previous one, and with the sequence number after that of the
  -- last item that it sent.
  abbrev pub Updates : Q → Turn num float gcd sdk → Type 0
  Updates rate t =
      (t.status ≡ went_on)
      × (t.service.prev_rate ≡ rate)
      × (seq : UpdateSequenceNumber) × (last_seq sdk none t.items ≡ some seq)
      × (t.service.seq_number ≡ sdk.next seq)

  module _ (thresholds : Thresholds num) (db_conn_pool : Bool) (a : Around num float gcd sdk)
      (delivers : Delivers a.visits) (final : a.finality ≡ finalized) where
    abbrev finish :
        Q
        → ExchangeRate
        → Submission num float gcd sdk
        → Submitted num float gcd sdk
        → Turn num float gcd sdk
    finish rate new_rate m o =
        let (s', status) =
          after_submission num float gcd sdk endpoint thresholds db_conn_pool o a rate new_rate
            m.service in
        record { service = s'; items = m.items; status = status }

    submit-Updates :
        (signer : Signer) (rate : Q) (new_rate : ExchangeRate) (s : Service num float gcd sdk)
        → Updates rate (
            submit num float gcd sdk endpoint thresholds db_conn_pool
              (some signer)
              a
              rate
              new_rate
              s)
    unfolding submit after_submission after_finality
    submit-Updates signer rate new_rate s =
        let m = submit_loop num float gcd sdk endpoint signer new_rate a.visits s in
        let (seq, e) = submit_loop-submitted signer new_rate a.visits s delivers in
        let n = submit_loop-Named num float gcd sdk endpoint signer new_rate a.visits none s in
        let c =
          confirm_sets num float gcd sdk endpoint thresholds db_conn_pool a rate new_rate seq
            m.service in
        let ended : Updates rate (finish rate new_rate m (submitted seq)) =
          subst
            (λ f. Updates rate (record {
              service =
                  after_finality num float gcd sdk endpoint thresholds db_conn_pool f a rate
                    new_rate seq m.service;
              items = m.items;
              status = went_on;
            }))
            (sym final) (refl, c.0, seq, n.named seq e, c.1) in
        subst (λ o. Updates rate (finish rate new_rate m o)) (sym e) ended

    submit_converted-Updates :
        (signer : Signer) (rate : Q) (s : Service num float gcd sdk)
        → s.signer ≡ some signer
        → Updates rate (
            submit_converted num float gcd sdk endpoint thresholds db_conn_pool
              (convert_big_fraction_to_exchange_rate gcd num rate)
              a
              rate
              s)
    unfolding submit_converted
    submit_converted-Updates signer rate s signs =
        let (new_rate, c) = convert_total gcd num rate in
        subst
          (λ o.
            Updates rate
              (submit_converted num float gcd sdk endpoint thresholds db_conn_pool o a rate s))
          (sym c)
          (subst
            (λ k.
              Updates rate
                (submit num float gcd sdk endpoint thresholds db_conn_pool k a rate new_rate s))
            (sym signs) (submit-Updates signer rate new_rate s))

    on_verdict-Updates :
        (v : Verdict) (signer : Signer) (rate : Q) (s : Service num float gcd sdk)
        → v ≢ halt
        → s.signer ≡ some signer
        → Updates rate (on_verdict num float gcd sdk endpoint thresholds db_conn_pool v a rate s)
    unfolding on_verdict
    on_verdict-Updates halt signer rate s ok_ signs = absurd (ok_ refl)
    on_verdict-Updates warn signer rate s ok_ signs = submit_converted-Updates signer rate _ signs
    on_verdict-Updates fine signer rate s ok_ signs = submit_converted-Updates signer rate s signs

    -- In a cycle of a service with a signer that derives a rate which the halt thresholds allow from a
    -- positive previous rate: if some node, after others that are lost, accepts the update, and it is
    -- reported finalized, then the cycle ends with that rate as the previous one, and with the
    -- sequence number after that of the last block item that it sent.
    pub main_cycle-Updates :
        (rate_histories : List (RateHistory Q)) (signer : Signer) (rate : Q)
        (s : Service num float gcd sdk)
        → s.signer ≡ some signer
        → derive_rate num s.last_update_timestamp rate_histories ≡ some rate
        → lt num.zero s.prev_rate ≡ true
        → Allowed num thresholds s.prev_rate rate
        → Updates rate
            (main_cycle num float gcd sdk endpoint thresholds db_conn_pool a rate_histories s)
    unfolding main_cycle on_rate on_change
    main_cycle-Updates rate_histories signer rate s signs derived p allowed =
        let s' : Service num float gcd sdk = record s { last_update_timestamp = a.now } in
        let (diff, change) = relative_change-some num s.prev_rate rate p in
        subst (λ o. Updates rate (on_rate num float gcd sdk endpoint thresholds db_conn_pool o a s))
          (sym derived)
          (subst
            (λ o.
              Updates rate
                (on_change num float gcd sdk endpoint thresholds db_conn_pool o a rate s'))
            (sym change)
            (on_verdict-Updates _ signer rate s'
              (judge-Allowed num thresholds s.prev_rate rate diff p change allowed) signs))
