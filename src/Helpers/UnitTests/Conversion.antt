-- ===== src/Helpers/UnitTests/Conversion.antt =====
-- The unit tests of the conversion in src/helpers.rs, run on fractions.
use concordium_euro2ccd_serv.Base.{
  ℕ, ◌≡◌, refl, Bool, true, false, ◌&&◌, none, some, ◌==◌, if◌then◌else◌,
}
use concordium_euro2ccd_serv.Rational.{Fraction, fractions}
use concordium_euro2ccd_serv.Helpers.{
  ExchangeRate, convert_big_fraction_to_exchange_rate, to_u64, fit, cancel,
}
use concordium_euro2ccd_serv.Helpers.Euclid.{euclid}
use concordium_euro2ccd_serv.Helpers.UnitTests.{new}

abbrev converts : (ExchangeRate → Bool) → Fraction → Bool
converts check input = elim (convert_big_fraction_to_exchange_rate euclid.gcd fractions input) [
  | none ↦ false
  | some result ↦ check result
]

abbrev test_convert_u64 : ℕ → ℕ → Bool
test_convert_u64 num den =
    converts (λ result. (num == result.numerator) && (den == result.denominator)) (new num den)

-- `(a - b).abs()`
abbrev distance : Fraction → Fraction → Fraction
distance a b = if fractions.lt a b then fractions.sub b a else fractions.sub a b

abbrev test_convert_u128 : ℕ → ℕ → Bool
test_convert_u128 num den =
    let input = new num den in
    converts
      (λ result.
        fractions.lt (distance input (new result.numerator result.denominator)) (new 1 100000000))
      input

abbrev test_convert_1 : Bool
test_convert_1 = test_convert_u64 1 101

convert_1_passes : test_convert_1 ≡ true
unfolding convert_big_fraction_to_exchange_rate fit to_u64 cancel
convert_1_passes = refl

abbrev test_convert_2 : Bool
test_convert_2 = test_convert_u64 13902531941473 12500000000000000000

convert_2_passes : test_convert_2 ≡ true
unfolding convert_big_fraction_to_exchange_rate fit to_u64 cancel
convert_2_passes = refl

abbrev test_convert_3 : Bool
test_convert_3 = test_convert_u64 12500000000000000000 13902531941473

convert_3_passes : test_convert_3 ≡ true
unfolding convert_big_fraction_to_exchange_rate fit to_u64 cancel
convert_3_passes = refl

abbrev test_convert_4 : Bool
test_convert_4 = test_convert_u64 1 2

convert_4_passes : test_convert_4 ≡ true
unfolding convert_big_fraction_to_exchange_rate fit to_u64 cancel
convert_4_passes = refl

abbrev test_convert_128 : Bool
test_convert_128 =
    test_convert_u128 100000000000000000000000000000000000 200000000000000000000000000000000001

convert_128_passes : test_convert_128 ≡ true
unfolding convert_big_fraction_to_exchange_rate fit to_u64 cancel
convert_128_passes = refl

abbrev test_convert_128_2 : Bool
test_convert_128_2 =
    test_convert_u128 6730672262010705765392518838235123 12417307353238580889556877312

convert_128_2_passes : test_convert_128_2 ≡ true
unfolding convert_big_fraction_to_exchange_rate fit to_u64 cancel
convert_128_2_passes = refl

abbrev test_convert_128_3 : Bool
test_convert_128_3 = test_convert_u128 78784731800983935460904371 57712362587357708288

convert_128_3_passes : test_convert_128_3 ≡ true
unfolding convert_big_fraction_to_exchange_rate fit to_u64 cancel
convert_128_3_passes = refl

abbrev test_convert_128_4 : Bool
test_convert_128_4 = test_convert_u128 96961673726254741664712289 64926407910777421824

convert_128_4_passes : test_convert_128_4 ≡ true
unfolding convert_big_fraction_to_exchange_rate fit to_u64 cancel
convert_128_4_passes = refl
