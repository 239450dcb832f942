-- ===== src/Main/Cycle/Confirmed.antt =====
-- The main loop of src/main.rs: when the previous rate and the sequence number change, and to what.
use concordium_euro2ccd_serv.Base.{
  ℕ, ℤ, ◌≡◌, refl, sym, ap, ◌∙◌, Bool, Bool-cases, ◌⊎◌, inl, inr, Option, none, some, Option-cases,
  List, [], ◌∷◌, Result, ok, err,
}
use concordium_euro2ccd_serv.Rational.{Rational, Float}
use concordium_euro2ccd_serv.Helpers.{ExchangeRate}
use concordium_euro2ccd_serv.Database.{Database, Fault}
use concordium_euro2ccd_serv.Sources.{RateHistory}
use concordium_euro2ccd_serv.Node.{
  Sdk, BlockItem, Progress, trying, gave_up, sent, send_update, get_node_client,
}
use concordium_euro2ccd_serv.Node.Retries.{last_seq, last_seq-append, Reports, send_update-Reports}
use concordium_euro2ccd_serv.Main.Cycle.{
  Finality, finalized, query_failed, timed_out, Verdict, halt, warn, fine, Thresholds, derive_rate,
  Service, Visit, Around, Submitted, pending, no_node, submitted, Submission, after_send,
  submit_loop, note_update, confirm, after_finality, after_submission, submit, submit_converted,
  protect, on_verdict, on_change, on_rate, main_cycle,
}

module _ (num : Rational) (float : Float num) (gcd : ℤ → ℤ → ℕ) (sdk : Sdk)
    (endpoint : List sdk.Endpoint) where
  open num use {Q}
  open sdk use {UpdateSequenceNumber, Signer}

  -- The previous rate and the sequence number are the same.
  abbrev pub Kept : Service num float gcd sdk → Service num float gcd sdk → Type 0
  Kept s s' = (s'.prev_rate ≡ s.prev_rate) × (s'.seq_number ≡ s.seq_number)

  -- A submission keeps both, and names the last sequence number that went out.
  pub record Named (earlier : Option UpdateSequenceNumber) (s : Service num float gcd sdk)
      (m : Submission num float gcd sdk) : Type 0 where
    pub kept : Kept s m.service
    pub named :
        (seq : UpdateSequenceNumber)
        → m.outcome ≡ submitted seq
        → last_seq sdk earlier m.items ≡ some seq

  submitted_seq :
      {x y : UpdateSequenceNumber}
      → ◌≡◌ {A = Submitted num float gcd sdk} (submitted x) (submitted y)
      → x ≡ y
  submitted_seq h = cc

  after_send-Named :
      (p : Progress sdk) (attempts : ℕ) (earlier : Option UpdateSequenceNumber)
      (v : Visit num float gcd sdk)
      (again : Service num float gcd sdk → Submission num float gcd sdk)
      (s : Service num float gcd sdk)
      → Reports sdk p earlier attempts
      → ((s' : Service num float gcd sdk) → Kept s s' → Named earlier s (again s'))
      → Named earlier s (after_send num float gcd sdk endpoint p v again s)
  unfolding after_send
  after_send-Named trying attempts earlier v again s r rest = record {
    kept = (refl, refl);
    named = λ seq h. cc;
  }
  after_send-Named (sent h q) attempts earlier v again s r rest = record {
    kept = (refl, refl);
    named = λ seq e. r.0 ∙ ap some (submitted_seq e);
  }
  after_send-Named gave_up attempts earlier v again s r rest =
      elim (Option-cases (get_node_client sdk v.connect endpoint)) [
        | inl e ↦ rw (e, after_send) (record { kept = (refl, refl); named = λ seq h. cc })
        | inr (c, e) ↦ rw (e, after_send) (rest _ (refl, refl))
      ]

  pub submit_loop-Named :
      (signer : Signer) (new_rate : ExchangeRate) (vs : List (Visit num float gcd sdk))
      (earlier : Option UpdateSequenceNumber) (s : Service num float gcd sdk)
      → Named earlier s (submit_loop num float gcd sdk endpoint signer new_rate vs s)
  unfolding submit_loop
  submit_loop-Named signer new_rate [] earlier s = record {
    kept = (refl, refl);
    named = λ seq h. cc;
  }
  submit_loop-Named signer new_rate (v ∷ vs) earlier s =
      let sending = send_update sdk float.F signer new_rate s.seq_number v.ticks s.stats in
      let after =
        after_send-Named sending.progress sending.stats.update_attempts
          (last_seq sdk earlier sending.items) v
          (submit_loop num float gcd sdk endpoint signer new_rate vs)
          (record s { stats = sending.stats })
          (send_update-Reports sdk float.F signer new_rate earlier s.seq_number v.ticks s.stats)
          (λ s' k.
            let n = submit_loop-Named signer new_rate vs (last_seq sdk earlier sending.items) s' in
            record { kept = (n.kept.0 ∙ k.0, n.kept.1 ∙ k.1); named = n.named }) in
      record {
        kept = after.kept;
        named = λ seq h. last_seq-append sdk earlier sending.items _ ∙ after.named seq h;
      }

  module _ (thresholds : Thresholds num) (db_conn_pool : Bool) where
    -- Either both are kept, or the update was finalized: then the rate is the new one, and the
    -- sequence number follows the last one that went out.
    abbrev pub Moved :
        Around num float gcd sdk
        → Q
        → Service num float gcd sdk
        → List (BlockItem sdk)
        → Service num float gcd sdk
        → Type 0
    Moved a rate s items s' =
        Kept s s'
        ⊎ ((a.finality ≡ finalized)
            × (s'.prev_rate ≡ rate)
            × (seq : UpdateSequenceNumber) × (last_seq sdk none items ≡ some seq)
            × (s'.seq_number ≡ sdk.next seq))

    note_update-Kept :
        (r : Result Fault (Database float.F)) (s : Service num float gcd sdk)
        → Kept s (note_update num float gcd sdk endpoint thresholds db_conn_pool r s)
    unfolding note_update
    note_update-Kept (ok db) s = (refl, refl)
    note_update-Kept (err e) s = (refl, refl)

    pub confirm_sets :
        (a : Around num float gcd sdk) (rate : Q) (new_rate : ExchangeRate)
        (seq : UpdateSequenceNumber) (s : Service num float gcd sdk)
        → let s' =
            confirm num float gcd sdk endpoint thresholds db_conn_pool a rate new_rate seq s in
          (s'.prev_rate ≡ rate) × (s'.seq_number ≡ sdk.next seq)
    unfolding confirm
    confirm_sets a rate new_rate seq s = elim (Bool-cases db_conn_pool) [
      | inl e ↦ rw e (note_update-Kept _ _)
      | inr e ↦ rw e (refl, refl)
    ]

    after_submission-Moved :
        (a : Around num float gcd sdk) (rate : Q) (new_rate : ExchangeRate)
        (s : Service num float gcd sdk) (m : Submission num float gcd sdk)
        (o : Submitted num float gcd sdk)
        → m.outcome ≡ o
        → Named none s m
        → Moved a rate s m.items
            (after_submission num float gcd sdk endpoint thresholds db_conn_pool o a rate new_rate
              m.service).0
    unfolding after_submission after_finality
    after_submission-Moved a rate new_rate s m pending e n = inl n.kept
    after_submission-Moved a rate new_rate s m no_node e n = inl n.kept
    after_submission-Moved a rate new_rate s m (submitted seq) e n = settled a.finality refl
      where
        settled :
            (f : Finality)
            → a.finality ≡ f
            → Moved a rate s m.items (
                after_finality num float gcd sdk endpoint thresholds db_conn_pool f a rate new_rate
                  seq m.service)
        settled finalized h =
            let c = confirm_sets a rate new_rate seq m.service in
            inr (h, c.0, seq, n.named seq e, c.1)
        settled query_failed h = inl n.kept
        settled timed_out h = inl n.kept

    submit-Moved :
        (signer : Option Signer) (a : Around num float gcd sdk) (rate : Q) (new_rate : ExchangeRate)
        (s : Service num float gcd sdk)
        → let t =
            submit num float gcd sdk endpoint thresholds db_conn_pool signer a rate new_rate s in
          Moved a rate s t.items t.service
    unfolding submit
    submit-Moved none a rate new_rate s = inl (refl, refl)
    submit-Moved (some signer) a rate new_rate s =
        after_submission-Moved a rate new_rate s
          (submit_loop num float gcd sdk endpoint signer new_rate a.visits s) _ refl
          (submit_loop-Named signer new_rate a.visits none s)

    pub submit_converted-Moved :
        (o : Option ExchangeRate) (a : Around num float gcd sdk) (rate : Q)
        (s : Service num float gcd sdk)
        → let t = submit_converted num float gcd sdk endpoint thresholds db_conn_pool o a rate s in
          Moved a rate s t.items t.service
    unfolding submit_converted
    submit_converted-Moved none a rate s = inl (refl, refl)
    submit_converted-Moved (some new_rate) a rate s = submit-Moved s.signer a rate new_rate s

    on_verdict-Moved :
        (v : Verdict) (a : Around num float gcd sdk) (rate : Q) (s : Service num float gcd sdk)
        → let t = on_verdict num float gcd sdk endpoint thresholds db_conn_pool v a rate s in
          Moved a rate s t.items t.service
    unfolding on_verdict protect
    on_verdict-Moved halt a rate s = inl (refl, refl)
    on_verdict-Moved warn a rate s = submit_converted-Moved _ a rate _
    on_verdict-Moved fine a rate s = submit_converted-Moved _ a rate s

    on_change-Moved :
        (o : Option Q) (a : Around num float gcd sdk) (rate : Q) (s : Service num float gcd sdk)
        → let t = on_change num float gcd sdk endpoint thresholds db_conn_pool o a rate s in
          Moved a rate s t.items t.service
    unfolding on_change
    on_change-Moved none a rate s = inl (refl, refl)
    on_change-Moved (some diff) a rate s = on_verdict-Moved _ a rate s

    on_rate-Moved :
        (o : Option Q) (a : Around num float gcd sdk) (s : Service num float gcd sdk)
        → let t = on_rate num float gcd sdk endpoint thresholds db_conn_pool o a s in
          Kept s t.service ⊎ ((rate : Q) × (o ≡ some rate) × Moved a rate s t.items t.service)
    unfolding on_rate
    on_rate-Moved none a s = inl (refl, refl)
    on_rate-Moved (some rate) a s = inr (rate, refl, on_change-Moved _ a rate _)

    -- After a cycle the previous rate and the sequence number are what they were, or the cycle's
    -- update was reported finalized: then the previous rate is the rate that the cycle derived, and
    -- the sequence number is the one after that of the last block item that the cycle sent.
    pub main_cycle_confirmed :
        (a : Around num float gcd sdk) (rate_histories : List (RateHistory Q))
        (s : Service num float gcd sdk)
        → let t =
            main_cycle num float gcd sdk endpoint thresholds db_conn_pool a rate_histories s in
          ((t.service.prev_rate ≡ s.prev_rate) × (t.service.seq_number ≡ s.seq_number))
          ⊎ ((a.finality ≡ finalized)
              × (derive_rate num s.last_update_timestamp rate_histories ≡ some t.service.prev_rate)
              × (seq : UpdateSequenceNumber) × (last_seq sdk none t.items ≡ some seq)
              × (t.service.seq_number ≡ sdk.next seq))
    unfolding main_cycle
    main_cycle_confirmed a rate_histories s =
        elim (on_rate-Moved (derive_rate num s.last_update_timestamp rate_histories) a s) [
          | inl k ↦ inl k
          | inr (rate, e, inl k) ↦ inl k
          | inr (rate, e, inr (f, r, seq, l, n)) ↦ inr (f, e ∙ ap some (sym r), seq, l, n)
        ]
