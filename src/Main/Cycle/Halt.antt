-- ===== src/Main/Cycle/Halt.antt =====
-- The main loop of src/main.rs on a rate outside the halt thresholds.
use concordium_euro2ccd_serv.Base.{
  ℕ, ℤ, ◌≡◌, ◌≢◌, refl, sym, ap, ◌∙◌, subst, Bool, true, ◌||◌, some, List, ◌∷◌,
}
use concordium_euro2ccd_serv.Rational.{Rational, Float}
use concordium_euro2ccd_serv.Helpers.{relative_change}
use concordium_euro2ccd_serv.Helpers.Change.{relative_change-some}
use concordium_euro2ccd_serv.Prometheus
use concordium_euro2ccd_serv.Sources.{RateHistory}
use concordium_euro2ccd_serv.Node.{Sdk}
use concordium_euro2ccd_serv.Main.Cycle.{
  Verdict, halt, warn, fine, went_on, Thresholds, derive_rate, Service, Around, Turn, turn, protect,
  on_verdict, on_change, on_rate, main_cycle, main_loop,
}
use concordium_euro2ccd_serv.Main.Cycle.Safety.{WithinHalt, judge-WithinHalt}
use concordium_euro2ccd_serv.Main.Cycle.Protected.{Silent, followed_by-Silent, main_loop-Silent}

module _ (num : Rational) (float : Float num) (gcd : ℤ → ℤ → ℕ) (sdk : Sdk)
    (endpoint : List sdk.Endpoint) (thresholds : Thresholds num) (db_conn_pool : Bool) where
  open num use {Q, lt}

  is_halt : {A : Type 0} (v : Verdict) → (v ≢ halt → A) → ¬ A → v ≡ halt
  is_halt halt f no_ = refl
  is_halt warn f no_ = absurd (no_ (f (λ e. cc)))
  is_halt fine f no_ = absurd (no_ (f (λ e. cc)))

  -- In a cycle that derives a rate outside the halt thresholds from a positive previous rate, the
  -- change is computed and judged a halt.
  cycle_halts :
      (a : Around num float gcd sdk) (rate : Q) (s : Service num float gcd sdk)
      → lt num.zero s.prev_rate ≡ true
      → ¬ WithinHalt num thresholds s.prev_rate rate
      → on_rate num float gcd sdk endpoint thresholds db_conn_pool (some rate) a s
        ≡ turn num float gcd sdk went_on (
            protect num float gcd sdk endpoint thresholds db_conn_pool a
              (record s { last_update_timestamp = a.now }))
  unfolding on_rate on_change on_verdict
  cycle_halts a rate s p outside =
      let (diff, change) = relative_change-some num s.prev_rate rate p in
      ap
        (λ o.
          on_change num float gcd sdk endpoint thresholds db_conn_pool o a rate
            (record s { last_update_timestamp = a.now }))
        change
      ∙ judged diff change
    where
      judged :
          (diff : Q)
          → relative_change num s.prev_rate rate ≡ some diff
          → on_change num float gcd sdk endpoint thresholds db_conn_pool
              (some diff)
              a
              rate
              (record s { last_update_timestamp = a.now })
            ≡ turn num float gcd sdk went_on (
                protect num float gcd sdk endpoint thresholds db_conn_pool a
                  (record s { last_update_timestamp = a.now }))
      judged diff change =
          ap
            (λ v.
              on_verdict num float gcd sdk endpoint thresholds db_conn_pool v a rate
                (record s { last_update_timestamp = a.now }))
            (is_halt _ (judge-WithinHalt num thresholds s.prev_rate rate diff p change) outside)

  main_cycle_halts :
      (a : Around num float gcd sdk) (rate_histories : List (RateHistory Q)) (rate : Q)
      (s : Service num float gcd sdk)
      → derive_rate num s.last_update_timestamp rate_histories ≡ some rate
      → lt num.zero s.prev_rate ≡ true
      → ¬ WithinHalt num thresholds s.prev_rate rate
      → main_cycle num float gcd sdk endpoint thresholds db_conn_pool a rate_histories s
        ≡ turn num float gcd sdk went_on (
            protect num float gcd sdk endpoint thresholds db_conn_pool a
              (record s { last_update_timestamp = a.now }))
  unfolding main_cycle
  main_cycle_halts a rate_histories rate s derived p outside =
      ap (λ o. on_rate num float gcd sdk endpoint thresholds db_conn_pool o a s) derived
      ∙ cycle_halts a rate s p outside

  protect-Silent :
      (a : Around num float gcd sdk) (s : Service num float gcd sdk)
      → Silent num float gcd sdk endpoint thresholds db_conn_pool s (
          turn num float gcd sdk went_on (
            protect num float gcd sdk endpoint thresholds db_conn_pool a
              (record s { last_update_timestamp = a.now })))
  unfolding protect Prometheus.set_protected
  protect-Silent a s = record {
    items = refl;
    signer = refl;
    protected = refl;
    prev_rate = refl;
    seq_number = refl;
  }

  pub main_cycle_protects :
      (a : Around num float gcd sdk) (rate_histories : List (RateHistory Q)) (rate : Q)
      (s : Service num float gcd sdk)
      → derive_rate num s.last_update_timestamp rate_histories ≡ some rate
      → lt num.zero s.prev_rate ≡ true
      → ¬ WithinHalt num thresholds s.prev_rate rate
      → let t = main_cycle num float gcd sdk endpoint thresholds db_conn_pool a rate_histories s in
        Silent num float gcd sdk endpoint thresholds db_conn_pool s t
        × (t.service.lock_file ≡ (s.lock_file || a.creates_lock_file))
  unfolding protect
  main_cycle_protects a rate_histories rate s derived p outside =
      let halted = main_cycle_halts a rate_histories rate s derived p outside in
      (
        subst (Silent num float gcd sdk endpoint thresholds db_conn_pool s) (sym halted)
            (protect-Silent a s),
        ap (λ (t : Turn num float gcd sdk). t.service.lock_file) halted,
      )

  -- If a cycle derives a rate outside the halt thresholds of a positive previous rate, then it and
  -- all cycles after it send nothing and leave the service in the protected mode, with the previous
  -- rate and the sequence number it had; and the lock file exists after the cycle if it did before or
  -- could be created.
  pub main_loop_protects :
      (a : Around num float gcd sdk) (rate_histories : List (RateHistory Q)) (rate : Q)
      (cycles : List (Around num float gcd sdk × List (RateHistory Q)))
      (s : Service num float gcd sdk)
      → derive_rate num s.last_update_timestamp rate_histories ≡ some rate
      → lt num.zero s.prev_rate ≡ true
      → ¬ WithinHalt num thresholds s.prev_rate rate
      → Silent num float gcd sdk endpoint thresholds db_conn_pool s (
          main_loop num float gcd sdk endpoint thresholds db_conn_pool
            ((a, rate_histories) ∷ cycles)
            s)
        × ((main_cycle num float gcd sdk endpoint thresholds db_conn_pool a rate_histories
              s).service.lock_file
            ≡ (s.lock_file || a.creates_lock_file))
  unfolding main_loop
  main_loop_protects a rate_histories rate cycles s derived p outside =
      let (first, lock) = main_cycle_protects a rate_histories rate s derived p outside in
      (
        followed_by-Silent num float gcd sdk endpoint thresholds db_conn_pool _ s _ _ first (
            main_loop-Silent num float gcd sdk endpoint thresholds db_conn_pool cycles _
              (first.signer, first.protected)),
        lock,
      )
