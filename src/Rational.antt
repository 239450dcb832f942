-- ===== src/Rational.antt =====
-- The arbitrary precision rationals, num_rational's BigRational, which the program takes from a
-- library: their operations, and the documented laws of an ordered field that the program relies on.
mod Laws
pub mod Order
mod Fractions
mod Floats
pub use Laws.{AtMost, Same, Rational}
pub use Fractions.{Fraction, fractions}
pub use Floats.{Float, Reading, finite, below_zero, nan, readings}
