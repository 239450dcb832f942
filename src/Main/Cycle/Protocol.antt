-- ===== src/Main/Cycle/Protocol.antt =====
-- What src/main.rs promises of its updates, as a protocol on the signer and the rate on chain, and one
-- cycle of the main loop as a step of it.
use concordium_euro2ccd_serv.Base.{
  ℕ, ℤ, ◌≡◌, ◌≢◌, refl, sym, ap₂, subst, inl, inr, Bool, true, Bool-cases, Option, none, some, List,
  [], All, All-both, Any,
}
use concordium_euro2ccd_serv.Rational.{Rational, Float}
use concordium_euro2ccd_serv.Helpers.{relative_change, convert_big_fraction_to_exchange_rate}
use concordium_euro2ccd_serv.Helpers.Change.{relative_change-increase, relative_change-decrease}
use concordium_euro2ccd_serv.Sources.{RateHistory}
use concordium_euro2ccd_serv.Node.{Sdk, BlockItem}
use concordium_euro2ccd_serv.Main.Cycle.{
  Verdict, halt, warn, fine, Thresholds, derive_rate, judge, Service, Around, Turn,
  submit_converted, protect, on_verdict, on_change, on_rate, main_cycle,
}
use concordium_euro2ccd_serv.Main.Cycle.Allowed.{Allowed, judge-Allowed}
use concordium_euro2ccd_serv.Main.Cycle.Safety.{
  judge-increase, judge-decrease, submit_converted-IsConverted,
}
use concordium_euro2ccd_serv.Main.Cycle.Confirmed.{submit_converted-Moved}
use concordium_euro2ccd_serv.Main.Cycle.Recorded.{some_last}
use concordium_euro2ccd_serv.Main.Cycle.Signers.{submit_converted-Signs}

module _ (num : Rational) where
  open num use {Q, from_integer, lt}

  -- What is not halted is allowed.
  judge-not_halt :
      (t : Thresholds num) (prev rate diff : Q)
      → lt num.zero prev ≡ true
      → relative_change num prev rate ≡ some diff
      → judge num t prev rate diff ≢ halt
      → Allowed num t prev rate
  judge-not_halt t prev rate diff p change ok_ = elim (Bool-cases (lt prev rate)) [
    | inl up ↦ rw up (
        (relative_change-increase num prev rate diff t.halt_increase_threshold p
            (num.asym prev rate up) change).0
          (judge-increase num t prev rate diff up ok_))
    | inr up ↦ elim (Bool-cases (lt rate prev)) [
      | inl down ↦
          rw (up, down)
            ((relative_change-decrease num prev rate diff t.halt_decrease_threshold p down change).0
              (judge-decrease num t prev rate diff up ok_))
      | inr down ↦
          rw (up, down)
            ((relative_change-increase num prev rate diff t.halt_decrease_threshold p down change).0
              (judge-decrease num t prev rate diff up ok_))
    ]
  ]

module _ (num : Rational) (gcd : ℤ → ℤ → ℕ) (sdk : Sdk) (thresholds : Thresholds num) where
  open num use {Q, lt}

  -- The state of the protocol: who may sign, and the last rate known to be on chain.
  pub record Published : Type 0 where
    pub signer : Option sdk.Signer
    pub prev_rate : Q

  -- An item of the signer with the conversion of a rate.
  abbrev pub IsOf : Published → Q → BlockItem sdk → Type 0
  IsOf s rate item =
      (s.signer ≡ some item.signer)
      × (convert_big_fraction_to_exchange_rate gcd num rate ≡ some item.micro_gtu_per_euro)

  -- The steps, with what they send: nothing; items for a positive allowed rate, after which it is the
  -- last rate or not; or, at a positive rate that is not allowed, the loss of the signer for good.
  pub data Moves (s : Published) : List (BlockItem sdk) → Published → Type 0 where
    rest : Moves s [] s
    attempt :
        (rate : Q) {items : List (BlockItem sdk)}
        → lt num.zero rate ≡ true
        → Allowed num thresholds s.prev_rate rate
        → All (IsOf s rate) items
        → Moves s items s
    publish :
        (rate : Q) {items : List (BlockItem sdk)}
        → lt num.zero rate ≡ true
        → Allowed num thresholds s.prev_rate rate
        → All (IsOf s rate) items
        → Any (IsOf s rate) items
        → Moves s items (record { signer = s.signer; prev_rate = rate })
    stop :
        (rate : Q)
        → lt num.zero rate ≡ true
        → ¬ Allowed num thresholds s.prev_rate rate
        → Moves s [] (record { signer = none; prev_rate = s.prev_rate })

module _ (num : Rational) (float : Float num) (gcd : ℤ → ℤ → ℕ) (sdk : Sdk)
    (endpoint : List sdk.Endpoint) (thresholds : Thresholds num) (db_conn_pool : Bool) where
  open num use {Q, lt}

  abbrev pub published : Service num float gcd sdk → Published num gcd sdk thresholds
  published s = record { signer = s.signer; prev_rate = s.prev_rate }

  -- A turn from a service is a step of the protocol.
  abbrev pub Follows : Service num float gcd sdk → Turn num float gcd sdk → Type 0
  Follows s t = Moves num gcd sdk thresholds (published s) t.items (published t.service)

  submit_converted-Follows :
      (a : Around num float gcd sdk) (rate : Q) (s : Service num float gcd sdk)
      → lt num.zero rate ≡ true
      → Allowed num thresholds s.prev_rate rate
      → Follows s (
          submit_converted num float gcd sdk endpoint thresholds db_conn_pool
            (convert_big_fraction_to_exchange_rate gcd num rate)
            a
            rate
            s)
  submit_converted-Follows a rate s p allowed =
      let r = convert_big_fraction_to_exchange_rate gcd num rate in
      let t = submit_converted num float gcd sdk endpoint thresholds db_conn_pool r a rate s in
      let w =
        submit_converted-Signs num float gcd sdk endpoint thresholds db_conn_pool r a rate s in
      let all = All-both _ _ t.items w.signed (
        submit_converted-IsConverted num float gcd sdk endpoint thresholds db_conn_pool r a rate
          s) in
      let to : Option sdk.Signer → Q → Published num gcd sdk thresholds =
        λ signer prev_rate. record { signer = signer; prev_rate = prev_rate } in
      elim (submit_converted-Moved num float gcd sdk endpoint thresholds db_conn_pool r a rate s) [
        | inl (kept, _) ↦
            subst (Moves num gcd sdk thresholds (published s) t.items)
              (ap₂ to (sym w.keeps) (sym kept)) (attempt rate p allowed all)
        | inr (_, moved, seq, last, _) ↦
            subst (Moves num gcd sdk thresholds (published s) t.items)
              (ap₂ to (sym w.keeps) (sym moved))
              (publish rate p allowed all (
                some_last {sdk = sdk} (IsOf num gcd sdk thresholds (published s) rate) t.items last
                  all))
      ]

  on_verdict-Follows :
      (v : Verdict) (a : Around num float gcd sdk) (rate : Q) (s : Service num float gcd sdk)
      → lt num.zero rate ≡ true
      → (v ≢ halt → Allowed num thresholds s.prev_rate rate)
      → (v ≡ halt → ¬ Allowed num thresholds s.prev_rate rate)
      → Follows s (on_verdict num float gcd sdk endpoint thresholds db_conn_pool v a rate s)
  unfolding on_verdict protect
  on_verdict-Follows halt a rate s p keeps halts = stop rate p (halts refl)
  on_verdict-Follows warn a rate s p keeps halts =
      submit_converted-Follows a rate _ p (keeps (λ e. cc))
  on_verdict-Follows fine a rate s p keeps halts =
      submit_converted-Follows a rate s p (keeps (λ e. cc))

  on_change-Follows :
      (o : Option Q) (a : Around num float gcd sdk) (rate : Q) (s : Service num float gcd sdk)
      → lt num.zero s.prev_rate ≡ true
      → lt num.zero rate ≡ true
      → relative_change num s.prev_rate rate ≡ o
      → Follows s (on_change num float gcd sdk endpoint thresholds db_conn_pool o a rate s)
  unfolding on_change
  on_change-Follows none a rate s prev p e = rest
  on_change-Follows (some diff) a rate s prev p e =
      on_verdict-Follows (judge num thresholds s.prev_rate rate diff) a rate s p
        (judge-not_halt num thresholds s.prev_rate rate diff prev e)
        (λ h allowed. judge-Allowed num thresholds s.prev_rate rate diff prev e allowed h)

  on_rate-Follows :
      (o : Option Q) (a : Around num float gcd sdk) (s : Service num float gcd sdk)
      → lt num.zero s.prev_rate ≡ true
      → ((rate : Q) → o ≡ some rate → lt num.zero rate ≡ true)
      → Follows s (on_rate num float gcd sdk endpoint thresholds db_conn_pool o a s)
  unfolding on_rate
  on_rate-Follows none a s prev p = rest
  on_rate-Follows (some rate) a s prev p =
      on_change-Follows (relative_change num s.prev_rate rate) a rate
        (record s { last_update_timestamp = a.now }) prev (p rate refl) refl

  -- With positive rates each cycle is a step of the protocol.
  pub main_cycle-Follows :
      (a : Around num float gcd sdk) (hs : List (RateHistory Q)) (s : Service num float gcd sdk)
      → lt num.zero s.prev_rate ≡ true
      → ((rate : Q)
          → derive_rate num s.last_update_timestamp hs ≡ some rate
          → lt num.zero rate ≡ true)
      → Follows s (main_cycle num float gcd sdk endpoint thresholds db_conn_pool a hs s)
  unfolding main_cycle
  main_cycle-Follows a hs s prev p =
      on_rate-Follows (derive_rate num s.last_update_timestamp hs) a s prev p
