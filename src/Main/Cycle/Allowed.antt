-- ===== src/Main/Cycle/Allowed.antt =====
-- The rates that the halt thresholds of src/main.rs allow, as bounds on the two rates, and its test of them.
use concordium_euro2ccd_serv.Base.{◌≡◌, ◌≢◌, inl, inr, true, false, Bool-cases, some, if◌then◌else◌}
use concordium_euro2ccd_serv.Rational.{Rational, AtMost}
use concordium_euro2ccd_serv.Helpers.{relative_change}
use concordium_euro2ccd_serv.Helpers.Change.{relative_change-increase, relative_change-decrease}
use concordium_euro2ccd_serv.Main.Cycle.{halt, Thresholds, judge}

module _ (num : Rational) where
  open num use {Q, from_integer, lt, add, mul}

  -- A rise by at most the halt threshold, or else a fall by at most its halt threshold, in percent of
  -- the previous rate. A rate that stays is measured with the threshold of falls.
  abbrev pub Allowed : Thresholds num → Q → Q → Type 0
  Allowed t prev rate =
      if lt prev rate
      then AtMost lt (mul rate (from_integer 100))
          (add (mul t.halt_increase_threshold prev) (mul prev (from_integer 100)))
      else if lt rate prev
      then AtMost lt (mul prev (from_integer 100))
          (add (mul t.halt_decrease_threshold prev) (mul rate (from_integer 100)))
      else AtMost lt (mul rate (from_integer 100))
          (add (mul t.halt_decrease_threshold prev) (mul prev (from_integer 100)))

  module _ (t : Thresholds num) (prev rate diff : Q) where
    judge_rise :
        lt prev rate ≡ true
        → AtMost lt diff t.halt_increase_threshold
        → judge num t prev rate diff ≢ halt
    unfolding judge
    judge_rise up le = elim (Bool-cases (lt t.warning_increase_threshold diff)) [
      | inl w ↦ rw (up, le, w) (λ e. cc)
      | inr w ↦ rw (up, le, w) (λ e. cc)
    ]

    judge_fall :
        lt prev rate ≡ false
        → AtMost lt diff t.halt_decrease_threshold
        → judge num t prev rate diff ≢ halt
    unfolding judge
    judge_fall up le = elim (Bool-cases (lt t.warning_decrease_threshold diff)) [
      | inl w ↦ rw (up, le, w) (λ e. cc)
      | inr w ↦ rw (up, le, w) (λ e. cc)
    ]

    pub judge-Allowed :
        lt num.zero prev ≡ true
        → relative_change num prev rate ≡ some diff
        → Allowed t prev rate
        → judge num t prev rate diff ≢ halt
    judge-Allowed p change allowed = elim (Bool-cases (lt prev rate)) [
      | inl up ↦ judge_rise up (
          (relative_change-increase num prev rate diff t.halt_increase_threshold p
              (num.asym prev rate up) change).1
            (rw up at allowed))
      | inr up ↦ elim (Bool-cases (lt rate prev)) [
        | inl down ↦ judge_fall up (
            (relative_change-decrease num prev rate diff t.halt_decrease_threshold p down change).1
              (rw (up, down) at allowed))
        | inr down ↦ judge_fall up (
            (relative_change-increase num prev rate diff t.halt_decrease_threshold p down change).1
              (rw (up, down) at allowed))
      ]
    ]
