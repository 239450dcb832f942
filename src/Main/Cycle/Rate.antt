-- ===== src/Main/Cycle/Rate.antt =====
-- The start of a cycle of the main loop of src/main.rs: the rate that it derives from the histories, and
-- what the thresholds say of it.
use concordium_euro2ccd_serv.Base.{
  ℕ, Option, none, some, List, [], ◌∷◌, map, ltb, ◌==◌, if◌then◌else◌,
}
use concordium_euro2ccd_serv.Rational.{Rational}
use concordium_euro2ccd_serv.Helpers.{compute_median}
use concordium_euro2ccd_serv.Sources.{RateHistory}

pub data Verdict : Type 0 where
  halt warn fine : Verdict

-- `.filter(|rm| rm.is_some())`
abbrev pub keep_some : {Q : Type 0} → List (Option Q) → List (Option Q)
keep_some [] = []
keep_some (none ∷ os) = keep_some os
keep_some (some q ∷ os) = some q ∷ keep_some os

-- `.collect::<Option<VecDeque<_>>>()`
abbrev pub collect : {Q : Type 0} → List (Option Q) → Option (List Q)
collect [] = some []
collect (none ∷ os) = none
collect (some q ∷ os) = elim (collect os) [ none ↦ none | some qs ↦ some (q ∷ qs) ]

module _ (num : Rational) where
  open num use {Q, from_integer, lt, mul}

  -- The thresholds in percent, as rationals.
  pub record Thresholds : Type 0 where
    pub warning_increase_threshold : Q
    pub halt_increase_threshold : Q
    pub warning_decrease_threshold : Q
    pub halt_decrease_threshold : Q

  -- The median of a source, unless it has no reading, or none since the last update.
  unfoldable pub source_median : ℕ → RateHistory Q → Option Q
  source_median last_update_timestamp history =
      if history.last_reading_timestamp == 0
      then none
      else if ltb history.last_reading_timestamp last_update_timestamp
      then none
      else compute_median num history.rates

  -- `if rm.is_empty() { None } else { compute_median(&rm) }`
  abbrev pub median_of_medians : Option (List Q) → Option Q
  median_of_medians none = none
  median_of_medians (some []) = none
  median_of_medians (some (m ∷ ms)) = compute_median num (m ∷ ms)

  -- CCD per Euro to micro CCD per Euro.
  abbrev pub in_micro : Option Q → Option Q
  in_micro none = none
  in_micro (some r) = some (mul r (from_integer 1000000))

  unfoldable pub derive_rate : ℕ → List (RateHistory Q) → Option Q
  derive_rate last_update_timestamp rate_histories = in_micro (
      median_of_medians
        (collect (keep_some (map (source_median last_update_timestamp) rate_histories))))

  unfoldable pub judge : Thresholds → Q → Q → Q → Verdict
  judge t prev_rate rate diff =
      if lt prev_rate rate
      then if lt t.halt_increase_threshold diff
        then halt
        else if lt t.warning_increase_threshold diff
        then warn
        else fine
      else if lt t.halt_decrease_threshold diff
      then halt
      else if lt t.warning_decrease_threshold diff
      then warn
      else fine
