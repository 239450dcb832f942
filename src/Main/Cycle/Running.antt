-- ===== src/Main/Cycle/Running.antt =====
-- The main loop of src/main.rs on histories of positive rates: its division by the previous rate.
use concordium_euro2ccd_serv.Base.{
  ℕ, ℤ, Bool, refl, ◌≡◌, ◌≢◌, sym, subst, inl, inr, Option, none, some, List, [], ◌∷◌, All,
}
use concordium_euro2ccd_serv.Rational.{Rational, Float}
use concordium_euro2ccd_serv.Helpers.{ExchangeRate, convert_big_fraction_to_exchange_rate}
use concordium_euro2ccd_serv.Helpers.Change.{relative_change-some}
use concordium_euro2ccd_serv.Sources.{RateHistory}
use concordium_euro2ccd_serv.Sources.Pull.Positive.{IsPositive}
use concordium_euro2ccd_serv.Node.{Sdk}
use concordium_euro2ccd_serv.Main.Cycle.{
  Status, went_on, waiting, panicked, Verdict, halt, warn, fine, Thresholds, Service, Around, Turn,
  Submitted, pending, no_node, submitted, after_submission, submit, submit_converted, on_verdict,
  on_change, on_rate, main_cycle, main_loop, followed_by,
}
use concordium_euro2ccd_serv.Main.Cycle.Positive.{ArePositive, derive_rate-IsPositive}
use concordium_euro2ccd_serv.Main.Cycle.Confirmed.{main_cycle_confirmed}

module _ (num : Rational) (float : Float num) (gcd : ℤ → ℤ → ℕ) (sdk : Sdk)
    (endpoint : List sdk.Endpoint) (thresholds : Thresholds num) (db_conn_pool : Bool) where
  open num use {Q}

  after_submission-status :
      (o : Submitted num float gcd sdk) (a : Around num float gcd sdk) (rate : Q)
      (new_rate : ExchangeRate) (s : Service num float gcd sdk)
      → (after_submission num float gcd sdk endpoint thresholds db_conn_pool o a rate new_rate s).1
        ≢ panicked
  unfolding after_submission
  after_submission-status pending a rate new_rate s = λ e. cc
  after_submission-status no_node a rate new_rate s = λ e. cc
  after_submission-status (submitted seq) a rate new_rate s = λ e. cc

  submit-status :
      (signer : Option sdk.Signer) (a : Around num float gcd sdk) (rate : Q)
      (new_rate : ExchangeRate) (s : Service num float gcd sdk)
      → (submit num float gcd sdk endpoint thresholds db_conn_pool signer a rate new_rate s).status
        ≢ panicked
  unfolding submit
  submit-status none a rate new_rate s = λ e. cc
  submit-status (some signer) a rate new_rate s = after_submission-status _ a rate new_rate _

  submit_converted-status :
      (o : Option ExchangeRate) (a : Around num float gcd sdk) (rate : Q)
      (s : Service num float gcd sdk)
      → (submit_converted num float gcd sdk endpoint thresholds db_conn_pool o a rate s).status
        ≢ panicked
  unfolding submit_converted
  submit_converted-status none a rate s = λ e. cc
  submit_converted-status (some new_rate) a rate s = submit-status s.signer a rate new_rate s

  on_verdict-status :
      (v : Verdict) (a : Around num float gcd sdk) (rate : Q) (s : Service num float gcd sdk)
      → (on_verdict num float gcd sdk endpoint thresholds db_conn_pool v a rate s).status ≢ panicked
  unfolding on_verdict
  on_verdict-status halt a rate s = λ e. cc
  on_verdict-status warn a rate s =
      submit_converted-status (convert_big_fraction_to_exchange_rate gcd num rate) a rate _
  on_verdict-status fine a rate s =
      submit_converted-status (convert_big_fraction_to_exchange_rate gcd num rate) a rate s

  on_rate-status :
      (o : Option Q) (a : Around num float gcd sdk) (s : Service num float gcd sdk)
      → IsPositive num s.prev_rate
      → (on_rate num float gcd sdk endpoint thresholds db_conn_pool o a s).status ≢ panicked
  unfolding on_rate on_change
  on_rate-status none a s p = λ e. cc
  on_rate-status (some rate) a s p =
      let (diff, change) = relative_change-some num s.prev_rate rate p in
      subst
        (λ o.
          (on_change num float gcd sdk endpoint thresholds db_conn_pool o a rate
            (record s { last_update_timestamp = a.now })).status
          ≢ panicked)
        (sym change) (on_verdict-status _ a rate _)

  pub main_cycle-status :
      (a : Around num float gcd sdk) (hs : List (RateHistory Q)) (s : Service num float gcd sdk)
      → IsPositive num s.prev_rate
      → (main_cycle num float gcd sdk endpoint thresholds db_conn_pool a hs s).status ≢ panicked
  unfolding main_cycle
  main_cycle-status a hs s p = on_rate-status _ a s p

  pub main_cycle-IsPositive :
      (a : Around num float gcd sdk) (hs : List (RateHistory Q)) (s : Service num float gcd sdk)
      → IsPositive num s.prev_rate
      → ArePositive num hs
      → IsPositive num
          (main_cycle num float gcd sdk endpoint thresholds db_conn_pool a hs s).service.prev_rate
  main_cycle-IsPositive a hs s p all =
      elim (main_cycle_confirmed num float gcd sdk endpoint thresholds db_conn_pool a hs s) [
        | inl (same, _) ↦ subst (IsPositive num) (sym same) p
        | inr (_, derived, _, _, _) ↦
            derive_rate-IsPositive num s.last_update_timestamp hs _ all derived
      ]

  -- A turn did not panic and leaves a positive previous rate.
  abbrev pub IsSound : Turn num float gcd sdk → Type 0
  IsSound t = (t.status ≢ panicked) × IsPositive num t.service.prev_rate

  followed_by-IsSound :
      (status : Status) (t rest : Turn num float gcd sdk)
      → t.status ≡ status
      → IsSound t
      → IsSound rest
      → IsSound (followed_by num float gcd sdk status t rest)
  unfolding followed_by
  followed_by-IsSound went_on t rest e h k = k
  followed_by-IsSound waiting t rest e h k = h
  followed_by-IsSound panicked t rest e h k = absurd (h.0 e)

  -- If the previous rate is positive, and so are all rates of the histories that any number of cycles
  -- see, then the loop does not panic on its division by the previous rate, and the previous rate
  -- that it leaves is positive.
  pub main_loop-IsSound :
      (cycles : List (Around num float gcd sdk × List (RateHistory Q)))
      (s : Service num float gcd sdk)
      → IsPositive num s.prev_rate
      → All (λ c. ArePositive num c.1) cycles
      → IsSound (main_loop num float gcd sdk endpoint thresholds db_conn_pool cycles s)
  unfolding main_loop
  main_loop-IsSound [] s p all = ((λ e. cc), p)
  main_loop-IsSound ((a, hs) ∷ cycles) s p all =
      let positive = main_cycle-IsPositive a hs s p all.0 in
      followed_by-IsSound _ _ _ refl (main_cycle-status a hs s p, positive)
        (main_loop-IsSound cycles _ positive all.1)
