-- ===== src/Rational/Floats.antt =====
-- The 64-bit floats in which exchanges answer: a parameter, with their conversion to and from
-- rationals.
use concordium_euro2ccd_serv.Base.{Bool, true, false, Option, none, some, ◌≡◌, ge→ltb, arith}
use concordium_euro2ccd_serv.Rational.Laws.{Rational, AtMost}
use concordium_euro2ccd_serv.Rational.Fractions.{Fraction, fractions}

pub record Float (num : Rational) : Type 1 where
  pub F : Type 0
  -- the test `< 0.0`, which is false of -0.0 and of NaN
  pub is_negative : F → Bool
  -- BigRational::from_float: `none` for NaN and the infinities
  pub from_float : F → Option num.Q
  -- to_f64 of a rational
  pub to_f64 : num.Q → Option F
  pub from_float_nonneg :
      (v : F) (q : num.Q) → is_negative v ≡ false → from_float v ≡ some q → AtMost num.lt num.zero q

-- Some floats over the concrete fractions.
pub data Reading : Type 0 where
  finite : Fraction → Reading
  below_zero : Reading
  nan : Reading

abbrev pub from_reading : Reading → Option Fraction
from_reading (finite q) = some q
from_reading below_zero = none
from_reading nan = none

abbrev pub reading_is_negative : Reading → Bool
reading_is_negative below_zero = true
reading_is_negative _ = false

pub reading_nonneg :
    (v : Reading) (q : Fraction)
    → reading_is_negative v ≡ false
    → from_reading v ≡ some q
    → AtMost fractions.lt fractions.zero q
reading_nonneg v q h e = ge→ltb _ _ (omega arith)

abbrev pub readings : Float fractions
readings = record {
  F = Reading;
  is_negative = reading_is_negative;
  from_float = from_reading;
  to_f64 = λ q. some (finite q);
  from_float_nonneg = reading_nonneg;
}
