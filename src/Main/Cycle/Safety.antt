-- ===== src/Main/Cycle/Safety.antt =====
-- The main loop of src/main.rs: what it sends, against the halt thresholds.
use concordium_euro2ccd_serv.Base.{
  ℕ, ℤ, ◌≡◌, ◌≢◌, refl, sym, ap, Bool, true, false, Bool-cases, inl, inr, Option, none, some,
  Option-cases, List, [], ◌∷◌, All, All-append, All-map, if◌then◌else◌,
}
use concordium_euro2ccd_serv.Rational.{Rational, Float, AtMost}
use concordium_euro2ccd_serv.Helpers.{
  ExchangeRate, relative_change, convert_big_fraction_to_exchange_rate,
}
use concordium_euro2ccd_serv.Helpers.Change.{relative_change-increase, relative_change-decrease}
use concordium_euro2ccd_serv.Sources.{RateHistory}
use concordium_euro2ccd_serv.Node.{
  Sdk, BlockItem, Progress, trying, gave_up, sent, send_update, get_node_client,
}
use concordium_euro2ccd_serv.Node.Retries.{Carries, send_update_sound}
use concordium_euro2ccd_serv.Main.Cycle.{
  Verdict, halt, warn, fine, Thresholds, derive_rate, judge, Service, Visit, Around, Submission,
  after_send, submit_loop, submit, submit_converted, on_verdict, on_change, on_rate, main_cycle,
}

module _ (num : Rational) where
  open num use {Q, from_integer, lt, add, mul}

  -- A rise by at most the halt threshold, or a fall by at most its halt threshold, in percent of the
  -- previous rate: 100 * rate is at most (100 + h) * prev, or 100 * prev at most h * prev + 100 * rate.
  abbrev pub WithinHalt : Thresholds num → Q → Q → Type 0
  WithinHalt t prev rate =
      if lt prev rate
      then AtMost lt (mul rate (from_integer 100))
          (add (mul t.halt_increase_threshold prev) (mul prev (from_integer 100)))
      else if lt rate prev
      then AtMost lt (mul prev (from_integer 100))
          (add (mul t.halt_decrease_threshold prev) (mul rate (from_integer 100)))
      else Unit {0}

  pub judge-increase :
      (t : Thresholds num) (prev rate diff : Q)
      → lt prev rate ≡ true
      → judge num t prev rate diff ≢ halt
      → AtMost lt diff t.halt_increase_threshold
  unfolding judge
  judge-increase t prev rate diff up ok_ = elim (Bool-cases (lt t.halt_increase_threshold diff)) [
    | inr e ↦ e
    | inl e ↦ absurd (ok_ (rw (up, e)))
  ]

  pub judge-decrease :
      (t : Thresholds num) (prev rate diff : Q)
      → lt prev rate ≡ false
      → judge num t prev rate diff ≢ halt
      → AtMost lt diff t.halt_decrease_threshold
  unfolding judge
  judge-decrease t prev rate diff up ok_ = elim (Bool-cases (lt t.halt_decrease_threshold diff)) [
    | inr e ↦ e
    | inl e ↦ absurd (ok_ (rw (up, e)))
  ]

  pub judge-WithinHalt :
      (t : Thresholds num) (prev rate diff : Q)
      → lt num.zero prev ≡ true
      → relative_change num prev rate ≡ some diff
      → judge num t prev rate diff ≢ halt
      → WithinHalt t prev rate
  judge-WithinHalt t prev rate diff p change ok_ = elim (Bool-cases (lt prev rate)) [
    | inl up ↦ rw up (
        (relative_change-increase num prev rate diff t.halt_increase_threshold p
            (num.asym prev rate up) change).0
          (judge-increase t prev rate diff up ok_))
    | inr up ↦ elim (Bool-cases (lt rate prev)) [
      | inl down ↦
          rw (up, down)
            ((relative_change-decrease num prev rate diff t.halt_decrease_threshold p down change).0
              (judge-decrease t prev rate diff up ok_))
      | inr down ↦ rw (up, down) tt
    ]
  ]

module _ (num : Rational) (float : Float num) (gcd : ℤ → ℤ → ℕ) (sdk : Sdk)
    (endpoint : List sdk.Endpoint) where
  open num use {Q, lt}

  -- An item that carries a given rate.
  abbrev pub HasRate : ExchangeRate → BlockItem sdk → Type 0
  HasRate new_rate item = item.micro_gtu_per_euro ≡ new_rate

  after_send-HasRate :
      (new_rate : ExchangeRate) (p : Progress sdk) (v : Visit num float gcd sdk)
      (again : Service num float gcd sdk → Submission num float gcd sdk)
      (s : Service num float gcd sdk)
      → ((s' : Service num float gcd sdk) → All (HasRate new_rate) (again s').items)
      → All (HasRate new_rate) (after_send num float gcd sdk endpoint p v again s).items
  unfolding after_send
  after_send-HasRate new_rate trying v again s rest = tt
  after_send-HasRate new_rate (sent h seq) v again s rest = tt
  after_send-HasRate new_rate gave_up v again s rest =
      elim (Option-cases (get_node_client sdk v.connect endpoint)) [
        | inl e ↦ rw (e, after_send) tt
        | inr (c, e) ↦ rw (e, after_send) (rest _)
      ]

  pub submit_loop-HasRate :
      (signer : sdk.Signer) (new_rate : ExchangeRate) (vs : List (Visit num float gcd sdk))
      (s : Service num float gcd sdk)
      → All (HasRate new_rate) (submit_loop num float gcd sdk endpoint signer new_rate vs s).items
  unfolding submit_loop
  submit_loop-HasRate signer new_rate [] s = tt
  submit_loop-HasRate signer new_rate (v ∷ vs) s =
      let sending = send_update sdk float.F signer new_rate s.seq_number v.ticks s.stats in
      All-append (HasRate new_rate) sending.items _
        (All-map (Carries sdk signer new_rate) (HasRate new_rate) sending.items (λ item c. c.0)
          (send_update_sound sdk float.F signer new_rate s.seq_number v.ticks s.stats).0)
        (after_send-HasRate new_rate sending.progress v _ _
          (λ s'. submit_loop-HasRate signer new_rate vs s'))

  module _ (thresholds : Thresholds num) (db_conn_pool : Bool) where
    submit-HasRate :
        (signer : Option sdk.Signer) (a : Around num float gcd sdk) (rate : Q)
        (new_rate : ExchangeRate) (s : Service num float gcd sdk)
        → All
            (HasRate new_rate)
            (submit num float gcd sdk endpoint thresholds db_conn_pool signer a rate new_rate
              s).items
    unfolding submit
    submit-HasRate none a rate new_rate s = tt
    submit-HasRate (some signer) a rate new_rate s = submit_loop-HasRate signer new_rate a.visits s

    -- An item that carries what a conversion returned.
    abbrev pub IsConverted : Option ExchangeRate → BlockItem sdk → Type 0
    IsConverted o item = o ≡ some item.micro_gtu_per_euro

    pub submit_converted-IsConverted :
        (o : Option ExchangeRate) (a : Around num float gcd sdk) (rate : Q)
        (s : Service num float gcd sdk)
        → All
            (IsConverted o)
            (submit_converted num float gcd sdk endpoint thresholds db_conn_pool o a rate s).items
    unfolding submit_converted
    submit_converted-IsConverted none a rate s = tt
    submit_converted-IsConverted (some new_rate) a rate s =
        All-map (HasRate new_rate) (IsConverted (some new_rate)) _ (λ item h. ap some (sym h))
          (submit-HasRate s.signer a rate new_rate s)

    -- An item that carries the converted rate of the cycle, which is within the halt thresholds of
    -- the previous rate.
    abbrev pub IsJustified : Q → Q → BlockItem sdk → Type 0
    IsJustified prev rate item =
        IsConverted (convert_big_fraction_to_exchange_rate gcd num rate) item
        × WithinHalt num thresholds prev rate

    on_verdict-IsJustified :
        (v : Verdict) (a : Around num float gcd sdk) (rate : Q) (s : Service num float gcd sdk)
        → (v ≢ halt → WithinHalt num thresholds s.prev_rate rate)
        → All
            (IsJustified s.prev_rate rate)
            (on_verdict num float gcd sdk endpoint thresholds db_conn_pool v a rate s).items
    unfolding on_verdict
    on_verdict-IsJustified halt a rate s within = tt
    on_verdict-IsJustified warn a rate s within =
        All-map (IsConverted (convert_big_fraction_to_exchange_rate gcd num rate))
          (IsJustified s.prev_rate rate) _ (λ item h. (h, within (λ e. cc)))
          (submit_converted-IsConverted _ a rate _)
    on_verdict-IsJustified fine a rate s within =
        All-map (IsConverted (convert_big_fraction_to_exchange_rate gcd num rate))
          (IsJustified s.prev_rate rate) _ (λ item h. (h, within (λ e. cc)))
          (submit_converted-IsConverted _ a rate _)

    on_change-IsJustified :
        (o : Option Q) (a : Around num float gcd sdk) (rate : Q) (s : Service num float gcd sdk)
        → lt num.zero s.prev_rate ≡ true
        → relative_change num s.prev_rate rate ≡ o
        → All
            (IsJustified s.prev_rate rate)
            (on_change num float gcd sdk endpoint thresholds db_conn_pool o a rate s).items
    unfolding on_change
    on_change-IsJustified none a rate s p e = tt
    on_change-IsJustified (some diff) a rate s p e =
        on_verdict-IsJustified (judge num thresholds s.prev_rate rate diff) a rate s
          (judge-WithinHalt num thresholds s.prev_rate rate diff p e)

    -- While the previous rate is positive, every block item that a cycle sends carries the
    -- conversion of the rate that the cycle derived from the histories, and that rate is within the
    -- halt thresholds of the previous rate.
    pub main_cycle-IsJustified :
        (a : Around num float gcd sdk) (rate_histories : List (RateHistory Q))
        (s : Service num float gcd sdk)
        → lt num.zero s.prev_rate ≡ true
        → All
            (λ item.
              (rate : Q) × (derive_rate num s.last_update_timestamp rate_histories ≡ some rate)
              × (convert_big_fraction_to_exchange_rate gcd num rate ≡ some item.micro_gtu_per_euro)
              × WithinHalt num thresholds s.prev_rate rate)
            (main_cycle num float gcd sdk endpoint thresholds db_conn_pool a rate_histories s).items
    unfolding main_cycle
    main_cycle-IsJustified a rate_histories s p =
        derived (derive_rate num s.last_update_timestamp rate_histories) refl
      where
        derived :
            (o : Option Q)
            → derive_rate num s.last_update_timestamp rate_histories ≡ o
            → All
                (λ item.
                  (rate : Q) × (derive_rate num s.last_update_timestamp rate_histories ≡ some rate)
                  × (convert_big_fraction_to_exchange_rate gcd num rate
                      ≡ some item.micro_gtu_per_euro)
                  × WithinHalt num thresholds s.prev_rate rate)
                (on_rate num float gcd sdk endpoint thresholds db_conn_pool o a s).items
        derived none e = tt
        derived (some rate) e =
            All-map (IsJustified s.prev_rate rate) _ _ (λ item h. (rate, e, h.0, h.1))
              (on_change-IsJustified (relative_change num s.prev_rate rate) a rate _ p refl)
