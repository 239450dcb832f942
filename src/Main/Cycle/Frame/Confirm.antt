-- ===== src/Main/Cycle/Frame/Confirm.antt =====
-- The main loop of src/main.rs beside the tasks: the end of a submission, with its write to the
-- database, before or after what a task does to the shared metrics and database.
use concordium_euro2ccd_serv.Base.{
  ℕ, ℤ, suc, ◌+◌, ◌≡◌, refl, sym, ap, ◌∙◌, inl, inr, Bool, Bool-cases, Option, none, some, List, [],
  ◌∷◌, ◌++◌, Result, if◌then◌else◌, arith,
}
use concordium_euro2ccd_serv.Rational.{Rational, Float}
use concordium_euro2ccd_serv.Helpers.{ExchangeRate}
use concordium_euro2ccd_serv.Prometheus
use concordium_euro2ccd_serv.Prometheus.{Stats}
use concordium_euro2ccd_serv.Database.{Database, Fault, Access, write_update_rate}
use concordium_euro2ccd_serv.Sources.Pull.Effect.{Effect, on_stats, on_db, run_statement-cases}
use concordium_euro2ccd_serv.Node.{Sdk}
use concordium_euro2ccd_serv.Main.Cycle.{
  Finality, finalized, query_failed, timed_out, went_on, Thresholds, Service, Around, Submitted,
  pending, no_node, submitted, note_update, confirm, after_finality, after_submission,
}
use concordium_euro2ccd_serv.Main.Cycle.Frame.{on_service}

module _ (num : Rational) (float : Float num) (gcd : ℤ → ℤ → ℕ) (sdk : Sdk) (e : Effect float.F)
    (endpoint : List sdk.Endpoint) where
  open num use {Q}

  module _ (thresholds : Thresholds num) (db_conn_pool : Bool) where
    note_update-frame :
        (access : Access) (now : ℕ) (new_rate : ExchangeRate) (s : Service num float gcd sdk)
        → note_update num float gcd sdk endpoint thresholds db_conn_pool
            (write_update_rate access now new_rate (on_db e s.db))
            (on_service num float gcd sdk e endpoint s)
          ≡ on_service num float gcd sdk e endpoint (
              note_update num float gcd sdk endpoint thresholds db_conn_pool
                (write_update_rate access now new_rate s.db)
                s)
    unfolding note_update write_update_rate Prometheus.increment_failed_database_updates
    note_update-frame access now new_rate s =
        elim (run_statement-cases {A = Database float.F} access) [
          | inl runs ↦
              ap (λ r. note r (on_service num float gcd sdk e endpoint s)) (runs (on_db e stored))
              ∙ sym (ap (λ r. on_service num float gcd sdk e endpoint (note r s)) (runs stored))
          | inr (fault, fails) ↦
              ap (λ r. note r (on_service num float gcd sdk e endpoint s)) (fails (on_db e stored))
              ∙ ap
                  (λ n. record (on_service num float gcd sdk e endpoint s) {
                    stats = record (on_stats e s.stats) { failed_database_updates = n };
                  })
                  (let q : suc (e.failures + s.stats.failed_database_updates)
                        ≡ e.failures + suc s.stats.failed_database_updates =
                      omega arith in
                    q)
              ∙ sym (ap (λ r. on_service num float gcd sdk e endpoint (note r s)) (fails stored))
        ]
      where
        note :
            Result Fault (Database float.F) → Service num float gcd sdk → Service num float gcd sdk
        note = note_update num float gcd sdk endpoint thresholds db_conn_pool

        stored : Database float.F
        stored = record s.db {
          updates =
              s.db.updates
              ++ record {
                numerator = new_rate.numerator;
                denominator = new_rate.denominator;
                timestamp = now;
              }
                ∷ [];
        }

    -- The end of a confirmed update: the write to the database, if there is one.
    abbrev stored :
        Around num float gcd sdk
        → ExchangeRate
        → Service num float gcd sdk
        → Service num float gcd sdk
    stored a new_rate u =
        if db_conn_pool
        then note_update num float gcd sdk endpoint thresholds db_conn_pool
            (write_update_rate a.access a.written_at new_rate u.db) u
        else u

    stored-frame :
        (a : Around num float gcd sdk) (new_rate : ExchangeRate) (u : Service num float gcd sdk)
        → stored a new_rate (on_service num float gcd sdk e endpoint u)
          ≡ on_service num float gcd sdk e endpoint (stored a new_rate u)
    unfolding note_update
    stored-frame a new_rate u = elim (Bool-cases db_conn_pool) [
      | inl p ↦ rw p (note_update-frame a.access a.written_at new_rate u)
      | inr p ↦ rw p refl
    ]

    update_updated_rate-frame :
        (v : Option float.F) (st : Stats float.F)
        → Prometheus.update_updated_rate float.F v (on_stats e st)
          ≡ on_stats e (Prometheus.update_updated_rate float.F v st)
    unfolding Prometheus.update_updated_rate
    update_updated_rate-frame none st = refl
    update_updated_rate-frame (some v) st = refl

    confirm-frame :
        (a : Around num float gcd sdk) (rate : Q) (new_rate : ExchangeRate)
        (seq : sdk.UpdateSequenceNumber) (s : Service num float gcd sdk)
        → confirm num float gcd sdk endpoint thresholds db_conn_pool a rate new_rate seq
            (on_service num float gcd sdk e endpoint s)
          ≡ on_service num float gcd sdk e endpoint
              (confirm num float gcd sdk endpoint thresholds db_conn_pool a rate new_rate seq s)
    unfolding confirm
    confirm-frame a rate new_rate seq s =
        ap
          (λ st. stored a new_rate (record (on_service num float gcd sdk e endpoint s) {
            seq_number = sdk.next seq;
            stats = st;
            prev_rate = rate;
          }))
          (update_updated_rate-frame (float.to_f64 rate) s.stats)
        ∙ stored-frame a new_rate (record s {
          seq_number = sdk.next seq;
          stats = Prometheus.update_updated_rate float.F (float.to_f64 rate) s.stats;
          prev_rate = rate;
        })

    after_finality-frame :
        (f : Finality) (a : Around num float gcd sdk) (rate : Q) (new_rate : ExchangeRate)
        (seq : sdk.UpdateSequenceNumber) (s : Service num float gcd sdk)
        → after_finality num float gcd sdk endpoint thresholds db_conn_pool f a rate new_rate seq
            (on_service num float gcd sdk e endpoint s)
          ≡ on_service num float gcd sdk e endpoint (
              after_finality num float gcd sdk endpoint thresholds db_conn_pool f a rate new_rate
                seq s)
    unfolding after_finality
    after_finality-frame finalized a rate new_rate seq s = confirm-frame a rate new_rate seq s
    after_finality-frame query_failed a rate new_rate seq s = refl
    after_finality-frame timed_out a rate new_rate seq s = refl

    pub after_submission-frame :
        (o : Submitted num float gcd sdk) (a : Around num float gcd sdk) (rate : Q)
        (new_rate : ExchangeRate) (s : Service num float gcd sdk)
        → let (s', status) =
            after_submission num float gcd sdk endpoint thresholds db_conn_pool o a rate new_rate
              s in
          after_submission num float gcd sdk endpoint thresholds db_conn_pool o a rate new_rate
            (on_service num float gcd sdk e endpoint s)
          ≡ (on_service num float gcd sdk e endpoint s', status)
    unfolding after_submission
    after_submission-frame pending a rate new_rate s = refl
    after_submission-frame no_node a rate new_rate s = refl
    after_submission-frame (submitted seq) a rate new_rate s =
        ap (λ s'. (s', went_on)) (after_finality-frame a.finality a rate new_rate seq s)
