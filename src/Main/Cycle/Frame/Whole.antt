-- ===== src/Main/Cycle/Frame/Whole.antt =====
-- The main loop of src/main.rs beside the tasks: a cycle before or after what a task does to the shared
-- metrics and database.
use concordium_euro2ccd_serv.Base.{ℕ, ℤ, ◌≡◌, refl, ap, ◌∙◌, Bool, Option, none, some, List}
use concordium_euro2ccd_serv.Rational.{Rational, Float}
use concordium_euro2ccd_serv.Helpers.{
  ExchangeRate, relative_change, convert_big_fraction_to_exchange_rate,
}
use concordium_euro2ccd_serv.Prometheus
use concordium_euro2ccd_serv.Prometheus.{Stats}
use concordium_euro2ccd_serv.Sources.{RateHistory}
use concordium_euro2ccd_serv.Sources.Pull.Effect.{Effect}
use concordium_euro2ccd_serv.Node.{Sdk}
use concordium_euro2ccd_serv.Main.Cycle.{
  Verdict, halt, warn, fine, Status, Thresholds, derive_rate, judge, Service, Around, Turn,
  Submission, submit_loop, after_submission, submit, submit_converted, protect, on_verdict,
  on_change, on_rate, main_cycle,
}
use concordium_euro2ccd_serv.Main.Cycle.Frame.{on_service, on_turn, submit_loop-frame}
use concordium_euro2ccd_serv.Main.Cycle.Frame.Confirm.{after_submission-frame}

module _ (num : Rational) (float : Float num) (gcd : ℤ → ℤ → ℕ) (sdk : Sdk) (e : Effect float.F)
    (endpoint : List sdk.Endpoint) where
  open num use {Q}

  module _ (thresholds : Thresholds num) (db_conn_pool : Bool) where
    -- The end of a submission.
    abbrev finish :
        Around num float gcd sdk
        → Q
        → ExchangeRate
        → Submission num float gcd sdk
        → Turn num float gcd sdk
    finish a rate new_rate m =
        let (s', status) =
          after_submission num float gcd sdk endpoint thresholds db_conn_pool m.outcome a rate
            new_rate m.service in
        record { service = s'; items = m.items; status = status }

    submit-frame :
        (signer : Option sdk.Signer) (a : Around num float gcd sdk) (rate : Q)
        (new_rate : ExchangeRate) (s : Service num float gcd sdk)
        → submit num float gcd sdk endpoint thresholds db_conn_pool signer a rate new_rate
            (on_service num float gcd sdk e endpoint s)
          ≡ on_turn num float gcd sdk e endpoint
              (submit num float gcd sdk endpoint thresholds db_conn_pool signer a rate new_rate s)
    unfolding submit
    submit-frame none a rate new_rate s = refl
    submit-frame (some signer) a rate new_rate s =
        let m = submit_loop num float gcd sdk endpoint signer new_rate a.visits s in
        ap (finish a rate new_rate)
          (submit_loop-frame num float gcd sdk e endpoint signer new_rate a.visits s)
        ∙ ap
            (λ (p : Service num float gcd sdk × Status).
              let t : Turn num float gcd sdk = record {
                service = p.0;
                items = m.items;
                status = p.1;
              } in
              t)
            (after_submission-frame num float gcd sdk e endpoint thresholds db_conn_pool m.outcome a
              rate new_rate m.service)

    submit_converted-frame :
        (o : Option ExchangeRate) (a : Around num float gcd sdk) (rate : Q)
        (s : Service num float gcd sdk)
        → submit_converted num float gcd sdk endpoint thresholds db_conn_pool o a rate
            (on_service num float gcd sdk e endpoint s)
          ≡ on_turn num float gcd sdk e endpoint
              (submit_converted num float gcd sdk endpoint thresholds db_conn_pool o a rate s)
    unfolding submit_converted
    submit_converted-frame none a rate s = refl
    submit_converted-frame (some new_rate) a rate s = submit-frame s.signer a rate new_rate s

    on_verdict-frame :
        (v : Verdict) (a : Around num float gcd sdk) (rate : Q) (s : Service num float gcd sdk)
        → on_verdict num float gcd sdk endpoint thresholds db_conn_pool v a rate
            (on_service num float gcd sdk e endpoint s)
          ≡ on_turn num float gcd sdk e endpoint
              (on_verdict num float gcd sdk endpoint thresholds db_conn_pool v a rate s)
    unfolding on_verdict protect Prometheus.set_protected
        Prometheus.increment_warning_threshold_violations
    on_verdict-frame halt a rate s = refl
    on_verdict-frame warn a rate s =
        submit_converted-frame (convert_big_fraction_to_exchange_rate gcd num rate) a rate
          (record s { stats = Prometheus.increment_warning_threshold_violations float.F s.stats })
    on_verdict-frame fine a rate s =
        submit_converted-frame (convert_big_fraction_to_exchange_rate gcd num rate) a rate s

    on_change-frame :
        (o : Option Q) (a : Around num float gcd sdk) (rate : Q) (s : Service num float gcd sdk)
        → on_change num float gcd sdk endpoint thresholds db_conn_pool o a rate
            (on_service num float gcd sdk e endpoint s)
          ≡ on_turn num float gcd sdk e endpoint
              (on_change num float gcd sdk endpoint thresholds db_conn_pool o a rate s)
    unfolding on_change
    on_change-frame none a rate s = refl
    on_change-frame (some diff) a rate s =
        on_verdict-frame (judge num thresholds s.prev_rate rate diff) a rate s

    on_rate-frame :
        (o : Option Q) (a : Around num float gcd sdk) (s : Service num float gcd sdk)
        → on_rate num float gcd sdk endpoint thresholds db_conn_pool o a
            (on_service num float gcd sdk e endpoint s)
          ≡ on_turn num float gcd sdk e endpoint
              (on_rate num float gcd sdk endpoint thresholds db_conn_pool o a s)
    unfolding on_rate
    on_rate-frame none a s = refl
    on_rate-frame (some rate) a s =
        on_change-frame (relative_change num s.prev_rate rate) a rate
          (record s { last_update_timestamp = a.now })

    -- A cycle after an effect on the metrics and the database is the cycle followed by the effect.
    pub main_cycle-frame :
        (a : Around num float gcd sdk) (hs : List (RateHistory Q)) (s : Service num float gcd sdk)
        → main_cycle num float gcd sdk endpoint thresholds db_conn_pool a hs
            (on_service num float gcd sdk e endpoint s)
          ≡ on_turn num float gcd sdk e endpoint
              (main_cycle num float gcd sdk endpoint thresholds db_conn_pool a hs s)
    unfolding main_cycle
    main_cycle-frame a hs s = on_rate-frame (derive_rate num s.last_update_timestamp hs) a s
