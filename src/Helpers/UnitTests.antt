-- ===== src/Helpers/UnitTests.antt =====
-- The unit tests of src/helpers.rs, run on fractions: each is true if all its assertions hold.
mod Conversion
use native.Mathlib.Nat.{zero-lt-suc}
use concordium_euro2ccd_serv.Base.{
  ℕ, suc, ◌-◌, ◌*◌, ◌/◌, ◌^◌, ◌≡◌, refl, Bool, true, false, ◌&&◌, Option, none, some, List, [], ◌∷◌,
  ◌==◌, if◌then◌else◌, pos, arith,
}
use concordium_euro2ccd_serv.Rational.{Fraction, fractions}
use concordium_euro2ccd_serv.Helpers.{
  ExchangeRate, compute_average, compute_median, relative_change,
  convert_big_fraction_to_exchange_rate, to_u64, fit, cancel,
}
use concordium_euro2ccd_serv.Helpers.Euclid.{euclid}

-- BigRational::new, which reduces to lowest terms, of a positive denominator.
abbrev pub new : ℕ → ℕ → Fraction
new num den =
    let g = euclid.gcd (pos num) (pos den) in
    record { num = num / g; den = suc (den / g - 1); den_pos = zero-lt-suc (den / g - 1) }

abbrev from_integer : ℕ → Fraction
from_integer n = new n 1

-- BigRational::from_float of the finite float m / 2 ^ e.
abbrev float : ℕ → ℕ → Fraction
float m e = new m (2 ^ e)

-- `assert_eq!` on rationals, and on options of them.
abbrev same : Fraction → Fraction → Bool
same a b = a.num * b.den == b.num * a.den

abbrev yields : Option Fraction → Fraction → Bool
yields none b = false
yields (some a) b = same a b

-- The half of a sum, by a divisor that is not zero.
abbrev middle : Fraction → Fraction → Fraction
middle a b = elim (fractions.checked_div (fractions.add a b) (from_integer 2)) [
  | some m ↦ m
  | none ↦ a
]

abbrev four : List Fraction
four = new 1 1 ∷ new 9 1 ∷ new 5 1 ∷ new 9 1 ∷ []

abbrev test_compute_average : Bool
test_compute_average = yields (compute_average fractions four) (new 6 1)

compute_average_passes : test_compute_average ≡ true
unfolding compute_average
compute_average_passes = refl

abbrev changes : ℕ → ℕ → ℕ → Bool
changes current new_rate percent =
    yields (relative_change fractions (from_integer current) (from_integer new_rate))
      (from_integer percent)

abbrev test_relative_change : Bool
test_relative_change =
    changes 50 40 20
    && changes 50 30 40
    && changes 50 75 50
    && changes 100 50 50
    && changes 50 100 100
    && changes 100 200 100
    && changes 200 100 50

relative_change_passes : test_relative_change ≡ true
unfolding relative_change
relative_change_passes = refl

abbrev test_compute_median : Bool
test_compute_median = yields (compute_median fractions four) (new 7 1)

compute_median_passes : test_compute_median ≡ true
unfolding compute_median
compute_median_passes = refl

-- The floats of the lists are finite, so that collecting them into one option succeeds.
abbrev test_compute_median_floats_1 : Bool
test_compute_median_floats_1 =
    yields
      (compute_median fractions (
        float 699982780723165 54
        ∷ float 2800042812163419 56
        ∷ float 2800042812163419 56
        ∷ float 5589266897157983 57
        ∷ float 5589266897157983 57
        ∷ float 5589266897157983 57
        ∷ float 5589266897157983 57
        ∷ float 5589266897157983 57
        ∷ float 5589266897157983 57
        ∷ float 5610575768866879 57
        ∷ []))
      (middle (float 5589266897157983 57) (float 5589266897157983 57))

compute_median_floats_1_passes : test_compute_median_floats_1 ≡ true
unfolding compute_median
compute_median_floats_1_passes = refl

abbrev test_compute_median_floats_2 : Bool
test_compute_median_floats_2 =
    yields
      (compute_median fractions (
        float 2803143815275355 56
        ∷ float 5584933992924005 57
        ∷ float 174541888571091 52
        ∷ float 1395363619354721 55
        ∷ float 697555301591399 54
        ∷ float 2790693211162965 56
        ∷ float 5580886000473711 57
        ∷ float 1394854720953705 55
        ∷ float 1397244227284633 55
        ∷ float 5595978411910815 57
        ∷ []))
      (middle (float 5584933992924005 57) (float 1395363619354721 55))

compute_median_floats_2_passes : test_compute_median_floats_2 ≡ true
unfolding compute_median
compute_median_floats_2_passes = refl

abbrev test_compute_median_floats_3 : Bool
test_compute_median_floats_3 =
    yields
      (compute_median fractions (
        float 5517358594778541 57
        ∷ float 172030985280647 52
        ∷ float 5504261232760597 57
        ∷ float 5506557615068859 57
        ∷ float 5505767432507419 57
        ∷ float 5506259685355271 57
        ∷ float 1380171003091993 55
        ∷ float 2759712234764985 56
        ∷ float 5518954064695609 57
        ∷ float 5532242086276149 57
        ∷ []))
      (middle (float 5517358594778541 57) (float 5506557615068859 57))

compute_median_floats_3_passes : test_compute_median_floats_3 ≡ true
unfolding compute_median
compute_median_floats_3_passes = refl

abbrev test_compute_median_of_medians : Bool
test_compute_median_of_medians =
    let median_1 = float 5589266897157983 57 in
    let median_2 = middle (float 5584933992924005 57) (float 1395363619354721 55) in
    let median_3 = middle (float 5517358594778541 57) (float 5506557615068859 57) in
    yields (compute_median fractions (median_1 ∷ median_2 ∷ median_3 ∷ [])) median_2

compute_median_of_medians_passes : test_compute_median_of_medians ≡ true
unfolding compute_median
compute_median_of_medians_passes = refl

abbrev test_compute_median_2 : Bool
test_compute_median_2 =
    yields (compute_median fractions (new 20 1 ∷ new 100 9 ∷ new 1 12 ∷ new 1 100 ∷ []))
      (new 403 72)

compute_median_2_passes : test_compute_median_2 ≡ true
unfolding compute_median
compute_median_2_passes = refl

abbrev test_compute_median_odd : Bool
test_compute_median_odd =
    yields
      (compute_median fractions (new 20000 1 ∷ new 20 1 ∷ new 100 9 ∷ new 1 12 ∷ new 1 100 ∷ []))
      (new 100 9)

compute_median_odd_passes : test_compute_median_odd ≡ true
unfolding compute_median
compute_median_odd_passes = refl
