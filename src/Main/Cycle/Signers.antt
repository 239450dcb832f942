-- ===== src/Main/Cycle/Signers.antt =====
-- The main loop of src/main.rs: who signs what a cycle sends, and what becomes of the signer.
use concordium_euro2ccd_serv.Base.{
  ℕ, ℤ, ◌≡◌, refl, sym, ap, ◌∙◌, ◌⊎◌, inl, inr, Bool, Bool-cases, Option, none, some, Option-cases,
  List, [], ◌∷◌, Result, ok, err, All, All-append, All-map,
}
use concordium_euro2ccd_serv.Rational.{Rational, Float}
use concordium_euro2ccd_serv.Helpers.{ExchangeRate, relative_change}
use concordium_euro2ccd_serv.Database.{Database, Fault, write_update_rate}
use concordium_euro2ccd_serv.Sources.{RateHistory}
use concordium_euro2ccd_serv.Node.{
  Sdk, BlockItem, Progress, trying, gave_up, sent, send_update, get_node_client,
}
use concordium_euro2ccd_serv.Node.Retries.{Carries, send_update_sound}
use concordium_euro2ccd_serv.Main.Cycle.{
  Finality, finalized, query_failed, timed_out, Verdict, halt, warn, fine, Thresholds, derive_rate,
  judge, Service, Visit, Around, Turn, Submitted, pending, no_node, submitted, Submission,
  after_send, submit_loop, note_update, confirm, after_finality, after_submission, submit,
  submit_converted, protect, on_verdict, on_change, on_rate, main_cycle,
}

module _ (num : Rational) (float : Float num) (gcd : ℤ → ℤ → ℕ) (sdk : Sdk)
    (endpoint : List sdk.Endpoint) where
  open num use {Q}

  -- An item with a given signer, if that is one.
  abbrev pub IsSignedBy : Option sdk.Signer → BlockItem sdk → Type 0
  IsSignedBy o item = o ≡ some item.signer

  -- What a submission for a signer does with it.
  record Uses (o : Option sdk.Signer) (s : Service num float gcd sdk)
      (m : Submission num float gcd sdk) : Type 0 where
    signed : All (IsSignedBy o) m.items
    keeps : m.service.signer ≡ s.signer

  after_send-Uses :
      (o : Option sdk.Signer) (p : Progress sdk) (v : Visit num float gcd sdk)
      (again : Service num float gcd sdk → Submission num float gcd sdk)
      (s : Service num float gcd sdk)
      → ((s' : Service num float gcd sdk) → Uses o s' (again s'))
      → Uses o s (after_send num float gcd sdk endpoint p v again s)
  unfolding after_send
  after_send-Uses o trying v again s rest = record { signed = tt; keeps = refl }
  after_send-Uses o (sent h seq) v again s rest = record { signed = tt; keeps = refl }
  after_send-Uses o gave_up v again s rest =
      elim (Option-cases (get_node_client sdk v.connect endpoint)) [
        | inl e ↦ rw (e, after_send) (record { signed = tt; keeps = refl })
        | inr (c, e) ↦
            let u = rest (record s { node_client = c }) in
            rw (e, after_send) (record { signed = u.signed; keeps = u.keeps })
      ]

  submit_loop-Uses :
      (signer : sdk.Signer) (new_rate : ExchangeRate) (vs : List (Visit num float gcd sdk))
      (s : Service num float gcd sdk)
      → Uses (some signer) s (submit_loop num float gcd sdk endpoint signer new_rate vs s)
  unfolding submit_loop
  submit_loop-Uses signer new_rate [] s = record { signed = tt; keeps = refl }
  submit_loop-Uses signer new_rate (v ∷ vs) s =
      let x = send_update sdk float.F signer new_rate s.seq_number v.ticks s.stats in
      let rest =
        after_send-Uses (some signer) x.progress v
          (submit_loop num float gcd sdk endpoint signer new_rate vs) (record s { stats = x.stats })
          (submit_loop-Uses signer new_rate vs) in
      record {
        signed =
            All-append (IsSignedBy (some signer)) x.items _
              (All-map (Carries sdk signer new_rate) (IsSignedBy (some signer)) x.items
                (λ item c. ap some (sym c.1))
                (send_update_sound sdk float.F signer new_rate s.seq_number v.ticks s.stats).0)
              rest.signed;
        keeps = rest.keeps;
      }

  module _ (thresholds : Thresholds num) (db_conn_pool : Bool) where
    note_update-signer :
        (r : Result Fault (Database float.F)) (s : Service num float gcd sdk)
        → (note_update num float gcd sdk endpoint thresholds db_conn_pool r s).signer ≡ s.signer
    unfolding note_update
    note_update-signer (ok db) s = refl
    note_update-signer (err e) s = refl

    after_finality-signer :
        (f : Finality) (a : Around num float gcd sdk) (rate : Q) (new_rate : ExchangeRate)
        (seq : sdk.UpdateSequenceNumber) (s : Service num float gcd sdk)
        → (after_finality num float gcd sdk endpoint thresholds db_conn_pool f a rate new_rate seq
            s).signer
          ≡ s.signer
    unfolding after_finality confirm
    after_finality-signer finalized a rate new_rate seq s = elim (Bool-cases db_conn_pool) [
      | inl e ↦ rw e (note_update-signer (write_update_rate a.access a.written_at new_rate s.db) _)
      | inr e ↦ rw e refl
    ]
    after_finality-signer query_failed a rate new_rate seq s = refl
    after_finality-signer timed_out a rate new_rate seq s = refl

    after_submission-signer :
        (o : Submitted num float gcd sdk) (a : Around num float gcd sdk) (rate : Q)
        (new_rate : ExchangeRate) (s : Service num float gcd sdk)
        → (after_submission num float gcd sdk endpoint thresholds db_conn_pool o a rate new_rate
            s).0.signer
          ≡ s.signer
    unfolding after_submission
    after_submission-signer pending a rate new_rate s = refl
    after_submission-signer no_node a rate new_rate s = refl
    after_submission-signer (submitted seq) a rate new_rate s =
        after_finality-signer a.finality a rate new_rate seq s

    -- A submission is signed by the signer, which it keeps.
    pub record Signs (o : Option sdk.Signer) (t : Turn num float gcd sdk) : Type 0 where
      pub signed : All (IsSignedBy o) t.items
      pub keeps : t.service.signer ≡ o

    submit-Signs :
        (o : Option sdk.Signer) (a : Around num float gcd sdk) (rate : Q) (new_rate : ExchangeRate)
        (s : Service num float gcd sdk)
        → s.signer ≡ o
        → Signs o (submit num float gcd sdk endpoint thresholds db_conn_pool o a rate new_rate s)
    unfolding submit
    submit-Signs none a rate new_rate s e = record { signed = tt; keeps = e }
    submit-Signs (some signer) a rate new_rate s e =
        let m = submit_loop num float gcd sdk endpoint signer new_rate a.visits s in
        let u = submit_loop-Uses signer new_rate a.visits s in
        record {
          signed = u.signed;
          keeps = after_submission-signer m.outcome a rate new_rate m.service ∙ u.keeps ∙ e;
        }

    pub submit_converted-Signs :
        (r : Option ExchangeRate) (a : Around num float gcd sdk) (rate : Q)
        (s : Service num float gcd sdk)
        → Signs s.signer
            (submit_converted num float gcd sdk endpoint thresholds db_conn_pool r a rate s)
    unfolding submit_converted
    submit_converted-Signs none a rate s = record { signed = tt; keeps = refl }
    submit_converted-Signs (some new_rate) a rate s = submit-Signs s.signer a rate new_rate s refl

    -- What a turn does with the signer that it began with.
    pub record Respects (o : Option sdk.Signer) (t : Turn num float gcd sdk) : Type 0 where
      pub signed : All (IsSignedBy o) t.items
      pub keeps : (t.service.signer ≡ o) ⊎ (t.service.signer ≡ none)

    submit_converted-Respects :
        (r : Option ExchangeRate) (a : Around num float gcd sdk) (rate : Q)
        (s : Service num float gcd sdk)
        → Respects s.signer
            (submit_converted num float gcd sdk endpoint thresholds db_conn_pool r a rate s)
    submit_converted-Respects r a rate s =
        let w = submit_converted-Signs r a rate s in
        record { signed = w.signed; keeps = inl w.keeps }

    on_verdict-Respects :
        (v : Verdict) (a : Around num float gcd sdk) (rate : Q) (s : Service num float gcd sdk)
        → Respects s.signer
            (on_verdict num float gcd sdk endpoint thresholds db_conn_pool v a rate s)
    unfolding on_verdict protect
    on_verdict-Respects halt a rate s = record { signed = tt; keeps = inr refl }
    on_verdict-Respects warn a rate s = submit_converted-Respects _ a rate _
    on_verdict-Respects fine a rate s = submit_converted-Respects _ a rate s

    on_change-Respects :
        (o : Option Q) (a : Around num float gcd sdk) (rate : Q) (s : Service num float gcd sdk)
        → Respects s.signer
            (on_change num float gcd sdk endpoint thresholds db_conn_pool o a rate s)
    unfolding on_change
    on_change-Respects none a rate s = record { signed = tt; keeps = inl refl }
    on_change-Respects (some diff) a rate s =
        on_verdict-Respects (judge num thresholds s.prev_rate rate diff) a rate s

    on_rate-Respects :
        (o : Option Q) (a : Around num float gcd sdk) (s : Service num float gcd sdk)
        → Respects s.signer (on_rate num float gcd sdk endpoint thresholds db_conn_pool o a s)
    unfolding on_rate
    on_rate-Respects none a s = record { signed = tt; keeps = inl refl }
    on_rate-Respects (some rate) a s =
        on_change-Respects (relative_change num s.prev_rate rate) a rate
          (record s { last_update_timestamp = a.now })

    -- Every item of a cycle has the signer that the cycle began with, which is kept or dropped.
    pub main_cycle-Respects :
        (a : Around num float gcd sdk) (hs : List (RateHistory Q)) (s : Service num float gcd sdk)
        → Respects s.signer (main_cycle num float gcd sdk endpoint thresholds db_conn_pool a hs s)
    unfolding main_cycle
    main_cycle-Respects a hs s = on_rate-Respects (derive_rate num s.last_update_timestamp hs) a s
