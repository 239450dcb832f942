-- ===== src/Helpers/Tests.antt =====
-- Unit tests of src/helpers.rs at concrete fractions, and the theorems about it at such inputs.
use concordium_euro2ccd_serv.Base.{
  ℕ, suc, ◌+◌, ◌*◌, ◌^◌, ◌≤◌, ◌<◌, ◌≡◌, refl, ◌↔◌, some, List, [], ◌∷◌, length, arith,
}
use concordium_euro2ccd_serv.Rational.{AtMost, Fraction, fractions}
use concordium_euro2ccd_serv.Helpers.{
  ExchangeRate, compute_average, compute_median, relative_change,
  convert_big_fraction_to_exchange_rate, to_u64, fit, cancel,
}
use concordium_euro2ccd_serv.Helpers.Sort.{count_if}
use concordium_euro2ccd_serv.Helpers.Ranks.{compute_median-ranks}
use concordium_euro2ccd_serv.Helpers.Change.{relative_change-increase, relative_change-decrease}
use concordium_euro2ccd_serv.Helpers.Convert.{convert_total}
use concordium_euro2ccd_serv.Helpers.ConvertValue.{convert_large_integer}
use concordium_euro2ccd_serv.Helpers.Precision.{convert-precision}
use concordium_euro2ccd_serv.Helpers.Euclid.{euclid}

abbrev frac : ℕ → ℕ → Fraction
frac n d = record { num = n; den = suc d; den_pos = omega arith }

-- The integer n.
abbrev int : ℕ → Fraction
int n = frac n 0

abbrev four : List Fraction
four = int 1 ∷ int 9 ∷ int 5 ∷ int 9 ∷ []

average_test : (m : Fraction) × (compute_average fractions four ≡ some m) × (m.num ≡ 6 * m.den)
unfolding compute_average
average_test = (_, refl, refl)

median_test : (m : Fraction) × (compute_median fractions four ≡ some m) × (m.num ≡ 7 * m.den)
unfolding compute_median
median_test = (_, refl, refl)

-- 20000, 20, 100/9, 1/12, 1/100
abbrev five : List Fraction
five = int 20000 ∷ int 20 ∷ frac 100 8 ∷ frac 1 11 ∷ frac 1 99 ∷ []

median_odd_test : compute_median fractions five ≡ some (frac 100 8)
unfolding compute_median
median_odd_test = refl

change_test :
    (d : Fraction) × (relative_change fractions (int 200) (int 100) ≡ some d) × (d.num ≡ 50 * d.den)
unfolding relative_change
change_test = (_, refl, refl)

convert_test :
    convert_big_fraction_to_exchange_rate euclid.gcd fractions
      (frac 13902531941473 12499999999999999999)
    ≡ some (record { numerator = 13902531941473; denominator = 12500000000000000000 })
unfolding convert_big_fraction_to_exchange_rate fit to_u64
convert_test = refl

-- 10 ^ 35 / (2 * 10 ^ 35 + 1): after 54 rounds the pair fits.
convert_128_test :
    (e : ExchangeRate) × (convert_big_fraction_to_exchange_rate euclid.gcd fractions
        (frac (10 ^ 35) (2 * 10 ^ 35))
      ≡ some e)
    × (e.denominator ≡ 2 * e.numerator)
unfolding convert_big_fraction_to_exchange_rate fit to_u64 cancel
convert_128_test = (_, refl, refl)

compute_median-ranks_example :
    (2 * count_if (λ x. fractions.lt x median_test.0) four ≤ length four)
    × (2 * count_if (λ x. fractions.lt median_test.0 x) four ≤ length four)
compute_median-ranks_example = compute_median-ranks fractions four median_test.0 median_test.1

change_up :
    (d : Fraction) × (relative_change fractions (int 50) (int 75) ≡ some d) × (d.num ≡ 50 * d.den)
unfolding relative_change
change_up = (_, refl, refl)

relative_change-increase_example :
    AtMost fractions.lt change_up.0 (int 100)
    ↔ AtMost fractions.lt
        (fractions.mul (int 75) (int 100))
        (fractions.add (fractions.mul (int 100) (int 50)) (fractions.mul (int 50) (int 100)))
relative_change-increase_example =
    relative_change-increase fractions (int 50) (int 75) change_up.0 (int 100) refl refl change_up.1

relative_change-decrease_example :
    AtMost fractions.lt change_test.0 (int 50)
    ↔ AtMost fractions.lt
        (fractions.mul (int 200) (int 100))
        (fractions.add (fractions.mul (int 50) (int 200)) (fractions.mul (int 100) (int 100)))
relative_change-decrease_example =
    relative_change-decrease fractions (int 200) (int 100) change_test.0 (int 50) refl refl
      change_test.1

convert_total_example :
    (e : ExchangeRate) × (convert_big_fraction_to_exchange_rate euclid.gcd fractions
        (frac (2 ^ 70) 8)
      ≡ some e)
convert_total_example = convert_total euclid.gcd fractions (frac (2 ^ 70) 8)

-- The rate lies between 1 / 3 and 3.
convert-precision_example :
    let e = convert_128_test.0 in
    (0 < e.numerator)
    × (e.numerator < 2 ^ 64)
    × (0 < e.denominator)
    × (e.denominator < 2 ^ 64)
    × (2 ^ 62 * (e.numerator * (2 * 10 ^ 35 + 1)) ≤ (2 ^ 62 + 3) * (10 ^ 35 * e.denominator))
    × (2 ^ 62 * (10 ^ 35 * e.denominator) ≤ (2 ^ 62 + 3) * (e.numerator * (2 * 10 ^ 35 + 1)))
convert-precision_example =
    convert-precision fractions (frac (10 ^ 35) (2 * 10 ^ 35)) (10 ^ 35) (2 * 10 ^ 35 + 1) euclid 3
      convert_128_test.0 refl refl (omega arith) (omega arith) (omega arith) (omega arith)
      (omega arith) convert_128_test.1

convert_large_integer_example :
    convert_big_fraction_to_exchange_rate euclid.gcd fractions (int (2 ^ 64 + 5))
    ≡ some (record { numerator = 1; denominator = 0 })
convert_large_integer_example =
    convert_large_integer euclid fractions (int (2 ^ 64 + 5)) (2 ^ 64 + 5) refl refl (omega arith)
