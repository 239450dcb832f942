-- ===== src/Main/Cycle/Locked.antt =====
-- The main loop of src/main.rs in the protected mode: its lock file.
use concordium_euro2ccd_serv.Base.{
  ℕ, ℤ, ◌≡◌, refl, ap, ◌∙◌, Bool, true, ◌||◌, Option, none, some, List,
}
use concordium_euro2ccd_serv.Rational.{Rational, Float}
use concordium_euro2ccd_serv.Helpers.{
  ExchangeRate, relative_change, convert_big_fraction_to_exchange_rate,
}
use concordium_euro2ccd_serv.Sources.{RateHistory}
use concordium_euro2ccd_serv.Node.{Sdk}
use concordium_euro2ccd_serv.Main.Cycle.{
  Verdict, halt, warn, fine, Thresholds, derive_rate, judge, Service, Around, submit,
  submit_converted, protect, on_verdict, on_change, on_rate, main_cycle,
}

module _ (num : Rational) (float : Float num) (gcd : ℤ → ℤ → ℕ) (sdk : Sdk)
    (endpoint : List sdk.Endpoint) (thresholds : Thresholds num) (db_conn_pool : Bool) where
  open num use {Q}

  submit_converted-lock_file :
      (o : Option ExchangeRate) (a : Around num float gcd sdk) (rate : Q)
      (s : Service num float gcd sdk)
      → s.signer ≡ none
      → (submit_converted num float gcd sdk endpoint thresholds db_conn_pool o a rate
          s).service.lock_file
        ≡ s.lock_file
  unfolding submit_converted submit
  submit_converted-lock_file none a rate s n = refl
  submit_converted-lock_file (some new_rate) a rate s n =
      ap
        (λ k.
          (submit num float gcd sdk endpoint thresholds db_conn_pool k a rate new_rate
            s).service.lock_file)
        n

  on_verdict-lock_file :
      (v : Verdict) (a : Around num float gcd sdk) (rate : Q) (s : Service num float gcd sdk)
      → s.signer ≡ none
      → s.lock_file ≡ true
      → (on_verdict num float gcd sdk endpoint thresholds db_conn_pool v a rate s).service.lock_file
        ≡ true
  unfolding on_verdict protect
  on_verdict-lock_file halt a rate s n l = ap (λ b. b || a.creates_lock_file) l
  on_verdict-lock_file warn a rate s n l =
      submit_converted-lock_file (convert_big_fraction_to_exchange_rate gcd num rate) a rate _ n ∙ l
  on_verdict-lock_file fine a rate s n l =
      submit_converted-lock_file (convert_big_fraction_to_exchange_rate gcd num rate) a rate s n ∙ l

  on_change-lock_file :
      (o : Option Q) (a : Around num float gcd sdk) (rate : Q) (s : Service num float gcd sdk)
      → s.signer ≡ none
      → s.lock_file ≡ true
      → (on_change num float gcd sdk endpoint thresholds db_conn_pool o a rate s).service.lock_file
        ≡ true
  unfolding on_change
  on_change-lock_file none a rate s n l = l
  on_change-lock_file (some diff) a rate s n l =
      on_verdict-lock_file (judge num thresholds s.prev_rate rate diff) a rate s n l

  on_rate-lock_file :
      (o : Option Q) (a : Around num float gcd sdk) (s : Service num float gcd sdk)
      → s.signer ≡ none
      → s.lock_file ≡ true
      → (on_rate num float gcd sdk endpoint thresholds db_conn_pool o a s).service.lock_file ≡ true
  unfolding on_rate
  on_rate-lock_file none a s n l = l
  on_rate-lock_file (some rate) a s n l =
      on_change-lock_file (relative_change num s.prev_rate rate) a rate
        (record s { last_update_timestamp = a.now }) n l

  -- Without a signer the lock file stays.
  pub main_cycle-lock_file :
      (a : Around num float gcd sdk) (hs : List (RateHistory Q)) (s : Service num float gcd sdk)
      → s.signer ≡ none
      → s.lock_file ≡ true
      → (main_cycle num float gcd sdk endpoint thresholds db_conn_pool a hs s).service.lock_file
        ≡ true
  unfolding main_cycle
  main_cycle-lock_file a hs s n l =
      on_rate-lock_file (derive_rate num s.last_update_timestamp hs) a s n l
