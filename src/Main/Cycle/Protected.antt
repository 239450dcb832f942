-- ===== src/Main/Cycle/Protected.antt =====
-- The main loop of src/main.rs in the protected mode.
use concordium_euro2ccd_serv.Base.{
  ℕ, ℤ, ◌≡◌, refl, sym, ap₂, ◌∙◌, subst, Bool, Option, none, some, List, [], ◌∷◌, ◌++◌,
}
use concordium_euro2ccd_serv.Rational.{Rational, Float}
use concordium_euro2ccd_serv.Helpers.{
  ExchangeRate, relative_change, convert_big_fraction_to_exchange_rate,
}
use concordium_euro2ccd_serv.Prometheus
use concordium_euro2ccd_serv.Sources.{RateHistory}
use concordium_euro2ccd_serv.Node.{Sdk}
use concordium_euro2ccd_serv.Main.Cycle.{
  Verdict, halt, warn, fine, Status, went_on, waiting, panicked, Thresholds, Service, Around, Turn,
  turn, submit, submit_converted, on_verdict, on_change, on_rate, main_cycle, main_loop,
  followed_by,
}

module _ (num : Rational) (float : Float num) (gcd : ℤ → ℤ → ℕ) (sdk : Sdk)
    (endpoint : List sdk.Endpoint) (thresholds : Thresholds num) (db_conn_pool : Bool) where
  open num use {Q, lt}

  -- No signer, and the gauge says so.
  abbrev pub IsProtected : Service num float gcd sdk → Type 0
  IsProtected s = (s.signer ≡ none) × (s.stats.protected ≡ 1)

  -- Nothing was sent, and the service stays protected with the rate and the sequence number it had.
  pub record Silent (s : Service num float gcd sdk) (t : Turn num float gcd sdk) : Type 0 where
    pub items : t.items ≡ []
    pub signer : t.service.signer ≡ none
    pub protected : t.service.stats.protected ≡ 1
    pub prev_rate : t.service.prev_rate ≡ s.prev_rate
    pub seq_number : t.service.seq_number ≡ s.seq_number

  quiet :
      (status : Status) (s : Service num float gcd sdk)
      → IsProtected s
      → Silent s (turn num float gcd sdk status s)
  quiet status s (signer, protected) = record {
    items = refl;
    signer = signer;
    protected = protected;
    prev_rate = refl;
    seq_number = refl;
  }

  submit_converted-Silent :
      (o : Option ExchangeRate) (a : Around num float gcd sdk) (rate : Q)
      (s : Service num float gcd sdk)
      → IsProtected s
      → Silent s (submit_converted num float gcd sdk endpoint thresholds db_conn_pool o a rate s)
  unfolding submit_converted
  submit_converted-Silent none a rate s p = quiet waiting s p
  submit_converted-Silent (some new_rate) a rate s p =
      subst
        (λ o.
          Silent s (submit num float gcd sdk endpoint thresholds db_conn_pool o a rate new_rate s))
        (sym p.0) (unfold submit in quiet went_on s p)

  on_verdict-Silent :
      (v : Verdict) (a : Around num float gcd sdk) (rate : Q) (s : Service num float gcd sdk)
      → IsProtected s
      → Silent s (on_verdict num float gcd sdk endpoint thresholds db_conn_pool v a rate s)
  unfolding on_verdict Prometheus.set_protected Prometheus.increment_warning_threshold_violations
  on_verdict-Silent halt a rate s p = record {
    items = refl;
    signer = refl;
    protected = refl;
    prev_rate = refl;
    seq_number = refl;
  }
  on_verdict-Silent warn a rate s p =
      let t =
        submit_converted-Silent (convert_big_fraction_to_exchange_rate gcd num rate) a rate
          (record s { stats = Prometheus.increment_warning_threshold_violations float.F s.stats })
          p in
      record {
        items = t.items;
        signer = t.signer;
        protected = t.protected;
        prev_rate = t.prev_rate;
        seq_number = t.seq_number;
      }
  on_verdict-Silent fine a rate s p = submit_converted-Silent _ a rate s p

  on_change-Silent :
      (o : Option Q) (a : Around num float gcd sdk) (rate : Q) (s : Service num float gcd sdk)
      → IsProtected s
      → Silent s (on_change num float gcd sdk endpoint thresholds db_conn_pool o a rate s)
  unfolding on_change
  on_change-Silent none a rate s p = quiet panicked s p
  on_change-Silent (some diff) a rate s p = on_verdict-Silent _ a rate s p

  on_rate-Silent :
      (o : Option Q) (a : Around num float gcd sdk) (s : Service num float gcd sdk)
      → IsProtected s
      → Silent s (on_rate num float gcd sdk endpoint thresholds db_conn_pool o a s)
  unfolding on_rate
  on_rate-Silent none a s p = quiet went_on s p
  on_rate-Silent (some rate) a s p =
      let t =
        on_change-Silent (relative_change num s.prev_rate rate) a rate
          (record s { last_update_timestamp = a.now }) p in
      record {
        items = t.items;
        signer = t.signer;
        protected = t.protected;
        prev_rate = t.prev_rate;
        seq_number = t.seq_number;
      }

  pub main_cycle-Silent :
      (a : Around num float gcd sdk) (rate_histories : List (RateHistory Q))
      (s : Service num float gcd sdk)
      → IsProtected s
      → Silent s (main_cycle num float gcd sdk endpoint thresholds db_conn_pool a rate_histories s)
  unfolding main_cycle
  main_cycle-Silent a rate_histories s p = on_rate-Silent _ a s p

  pub followed_by-Silent :
      (status : Status) (s : Service num float gcd sdk) (t rest : Turn num float gcd sdk)
      → Silent s t
      → Silent t.service rest
      → Silent s (followed_by num float gcd sdk status t rest)
  unfolding followed_by
  followed_by-Silent went_on s t rest p q = record {
    items = ap₂ ◌++◌ p.items q.items;
    signer = q.signer;
    protected = q.protected;
    prev_rate = q.prev_rate ∙ p.prev_rate;
    seq_number = q.seq_number ∙ p.seq_number;
  }
  followed_by-Silent waiting s t rest p q = p
  followed_by-Silent panicked s t rest p q = p

  -- From the protected mode, any number of cycles sends nothing, stays in the protected mode, and
  -- keeps the previous rate and the sequence number.
  pub main_loop-Silent :
      (cycles : List (Around num float gcd sdk × List (RateHistory Q)))
      (s : Service num float gcd sdk)
      → IsProtected s
      → Silent s (main_loop num float gcd sdk endpoint thresholds db_conn_pool cycles s)
  unfolding main_loop
  main_loop-Silent [] s p = quiet went_on s p
  main_loop-Silent ((a, hs) ∷ cycles) s p =
      let t = main_cycle-Silent a hs s p in
      followed_by-Silent _ s _ _ t (main_loop-Silent cycles _ (t.signer, t.protected))
