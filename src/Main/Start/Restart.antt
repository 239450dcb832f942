-- ===== src/Main/Start/Restart.antt =====
-- src/main.rs: the mode in which the service starts, and a start after a halt.
use concordium_euro2ccd_serv.Base.{
  ok_value, ℕ, ℤ, ◌≡◌, ◌≢◌, ◌↔◌, refl, sym, ap, ◌∙◌, subst, ◌⊎◌, inl, inr, Bool, true, ◌||◌, none,
  some, List, [], String, Result, ok,
}
use concordium_euro2ccd_serv.Rational.{Rational, Float}
use concordium_euro2ccd_serv.Prometheus.{set_protected}
use concordium_euro2ccd_serv.Sources.{RateHistory}
use concordium_euro2ccd_serv.Node.{Sdk}
use concordium_euro2ccd_serv.Main.Options.{
  App, Refusal, KeySource, dry, aws, files, choose_keys-dry_iff,
}
use concordium_euro2ccd_serv.Main.Cycle.{
  Thresholds, derive_rate, Service, Around, main_cycle, main_loop,
}
use concordium_euro2ccd_serv.Main.Cycle.Safety.{WithinHalt}
use concordium_euro2ccd_serv.Main.Cycle.Protected.{IsProtected, Silent, main_loop-Silent}
use concordium_euro2ccd_serv.Main.Cycle.Halt.{main_loop_protects}
use concordium_euro2ccd_serv.Keys.{KeyError}
use concordium_euro2ccd_serv.Main.Start.{Setup, Found, sign, enter, start}
use concordium_euro2ccd_serv.Main.Start.Entry.{start-Started, sign-Signed}

key_source : {x y : KeySource} → ◌≡◌ {A = Result Refusal KeySource} (ok x) (ok y) → x ≡ y
key_source h = cc

module _ (num : Rational) (float : Float num) (gcd : ℤ → ℤ → ℕ) (sdk : Sdk)
    (test_label : ℕ → String) (endpoint : List sdk.Endpoint) (thresholds : Thresholds num)
    (db_conn_pool : Bool) where
  open num use {Q, lt}

  abbrev HasSigner : Service num float gcd sdk → Type 0
  HasSigner s = (x : sdk.Signer) × (s.signer ≡ some x)

  sign-HasSigner :
      (setup : Setup num float gcd sdk) (lock_file : Bool) (found : Found num float gcd sdk setup)
      (loaded : Result (KeyError setup.Error) (List setup.UpdateKeyPair))
      (s : Service num float gcd sdk)
      → sign num float gcd sdk setup lock_file found loaded ≡ ok s
      → HasSigner s
  sign-HasSigner setup lock_file found loaded s h =
      let w = sign-Signed num float gcd sdk setup lock_file found loaded s h in
      (w.signer, ap (λ (t : Service num float gcd sdk). t.signer) w.service)

  -- Entered dry, or with a signer.
  enter-cases :
      (setup : Setup num float gcd sdk) (lock_file : Bool) (source : KeySource)
      (found : Found num float gcd sdk setup) (s : Service num float gcd sdk)
      → enter num float gcd sdk setup lock_file source found ≡ ok s
      → ((source ≡ dry) × IsProtected num float gcd sdk endpoint thresholds db_conn_pool s)
        ⊎ ((source ≢ dry) × HasSigner s)
  unfolding enter set_protected
  enter-cases setup lock_file dry found s h = inl (
    refl,
    subst (IsProtected num float gcd sdk endpoint thresholds db_conn_pool) (ok_value h)
        (refl, refl),
  )
  enter-cases setup lock_file (aws region names) found s h =
      inr ((λ e. cc), sign-HasSigner setup lock_file found _ s h)
  enter-cases setup lock_file (files paths) found s h =
      inr ((λ e. cc), sign-HasSigner setup lock_file found _ s h)

  -- A service that starts is in the protected mode, without a signer and with the gauge set, exactly
  -- if the options ask for a dry run or the lock file exists.
  pub start-IsProtected_iff :
      (lock_file : Bool) (app : App) (setup : Setup num float gcd sdk)
      (s : Service num float gcd sdk)
      → start num float gcd sdk test_label lock_file app setup ≡ ok s
      → IsProtected num float gcd sdk endpoint thresholds db_conn_pool s
        ↔ ((app.dry_run ≡ true) ⊎ (lock_file ≡ true))
  start-IsProtected_iff lock_file app setup s h =
      let w = start-Started num float gcd sdk test_label lock_file app setup s h in
      let (there, back) = choose_keys-dry_iff lock_file app in
      elim (enter-cases setup lock_file w.source w.found s w.entered) [
        | inl (e, p) ↦ (λ x. there (w.chosen ∙ ap ok e), λ x. p)
        | inr (n, (x, e)) ↦ (
          (λ p. let bad : some x ≡ none = sym e ∙ p.0 in cc),
          λ d. absurd (n (key_source (sym w.chosen ∙ back d))),
        )
      ]

  -- If a cycle derives a rate outside the halt thresholds of a positive previous rate, and the lock
  -- file exists or can be created in that cycle, then a service started after it, with whatever
  -- options, sends nothing in any number of cycles, stays in the protected mode, and keeps its
  -- previous rate and its sequence number.
  pub main_loop_restart :
      (a : Around num float gcd sdk) (rate_histories : List (RateHistory Q)) (rate : Q)
      (s : Service num float gcd sdk) (app : App) (setup : Setup num float gcd sdk)
      (s' : Service num float gcd sdk)
      (cycles : List (Around num float gcd sdk × List (RateHistory Q)))
      → derive_rate num s.last_update_timestamp rate_histories ≡ some rate
      → lt num.zero s.prev_rate ≡ true
      → ¬ WithinHalt num thresholds s.prev_rate rate
      → (s.lock_file || a.creates_lock_file) ≡ true
      → start num float gcd sdk test_label
          (main_cycle num float gcd sdk endpoint thresholds db_conn_pool a rate_histories
            s).service.lock_file
          app
          setup
        ≡ ok s'
      → Silent num float gcd sdk endpoint thresholds db_conn_pool s'
          (main_loop num float gcd sdk endpoint thresholds db_conn_pool cycles s')
  main_loop_restart a rate_histories rate s app setup s' cycles derived p outside locks started =
      let (first, lock) =
        main_loop_protects num float gcd sdk endpoint thresholds db_conn_pool a rate_histories rate
          [] s derived p outside in
      main_loop-Silent num float gcd sdk endpoint thresholds db_conn_pool cycles s'
        ((start-IsProtected_iff _ app setup s' started).1 (inr (lock ∙ locks)))
