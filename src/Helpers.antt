-- ===== src/Helpers.antt =====
-- src/helpers.rs: the average, the median and the relative change of rates, and the conversion of a
-- rate into the pair of 64-bit numbers that the chain takes. The definitions stand here, over the
-- rationals and the greatest common divisor that the program takes from libraries; the children
-- have what is stated about them.
pub mod Sort
pub mod Average
pub mod Median
pub mod Ranks
pub mod Change
pub mod Convert
pub mod ConvertValue
pub mod Precision
pub mod Euclid
pub mod Tests
mod UnitTests
use concordium_euro2ccd_serv.Base.{
  ℕ, zero, suc, ◌+◌, ◌-◌, ◌/◌, ◌%◌, ◌^◌, ◌∣◌, Bool, Option, none, some, List, [], ◌∷◌, foldl, ℤ,
  pos, negsuc, nat_abs, tdiv, ltb, ◌==◌, if◌then◌else◌, length, get_elem?, take, drop,
}
use concordium_euro2ccd_serv.Rational.{Rational}

-- ExchangeRate of the SDK as new_unchecked builds it: micro CCD per Euro, as a fraction.
pub record ExchangeRate : Type 0 where
  pub numerator : ℕ
  pub denominator : ℕ

module _ (num : Rational) where
  open num use {Q, from_integer, lt, add, sub, mul, checked_div}

  -- The standard library's stable sort of a vector.
  pub insert : Q → List Q → List Q
  insert x [] = x ∷ []
  insert x (y ∷ ys) = if lt y x then y ∷ insert x ys else x ∷ y ∷ ys

  unfoldable pub sort : List Q → List Q
  unfolding insert
  sort [] = []
  sort (x ∷ xs) = insert x (sort xs)

  unfoldable pub compute_average : List Q → Option Q
  compute_average rates = checked_div (foldl add num.zero rates) (from_integer (length rates))

  -- The range lo..hi of a vector.
  abbrev pub slice : ℕ → ℕ → List Q → List Q
  slice lo hi xs = take (hi - lo) (drop lo xs)

  unfoldable pub compute_median : List Q → Option Q
  unfolding sort compute_average
  compute_median rates =
      let len : ℕ = length rates in
      let rate_vec = sort rates in
      if len == 0
      then none
      else if len % 2 == 1
      then get_elem? rate_vec ((len - 1) / 2)
      else compute_average (slice ((len - 1) / 2) (len / 2 + 1) rate_vec)

  -- `none` is the panic of `/` on a zero current rate.
  unfoldable pub relative_change : Q → Q → Option Q
  relative_change current new =
      if lt new current
      then checked_div (mul (sub current new) (from_integer 100)) current
      else checked_div (mul (sub new current) (from_integer 100)) current

-- BigInt's to_u64.
unfoldable pub to_u64 : ℤ → Option ℕ
to_u64 (pos n) = if ltb n (2 ^ 64) then some n else none
to_u64 (negsuc n) = none

-- The `if let` of the loop: both numbers fit.
unfoldable pub fit : Option ℕ → Option ℕ → Option ExchangeRate
fit (some p) (some q) = some (record { numerator = p; denominator = q })
fit _ _ = none

-- The greatest common divisor of two BigInt, a library's, with the documented law that it divides
-- both and that every common divisor divides it.
pub record Gcd : Type 0 where
  pub gcd : ℤ → ℤ → ℕ
  pub divides : (a b : ℤ) → (gcd a b ∣ nat_abs a) × (gcd a b ∣ nat_abs b)
  pub greatest : (k : ℕ) (a b : ℤ) → k ∣ nat_abs a → k ∣ nat_abs b → k ∣ gcd a b

module _ (gcd : ℤ → ℤ → ℕ) where
  -- The division by the common divisor, if it exceeds 1.
  unfoldable pub cancel : ℤ → ℤ → ℤ × ℤ
  cancel n d = let g = gcd n d in if ltb 1 g then (tdiv n g, tdiv d g) else (n, d)

  -- The loop. `none` means that the fuel ran out.
  unfoldable pub convert_loop : ℕ → ℤ → ℤ → Option ExchangeRate
  convert_loop zero numerator denominator = none
  convert_loop (suc fuel) numerator denominator =
      let (n, d) = cancel (tdiv numerator 2) (tdiv denominator 2) in
      let rest = convert_loop fuel n d in
      elim (fit (to_u64 numerator) (to_u64 denominator)) [ some rate ↦ some rate | none ↦ rest ]

  unfoldable pub convert_big_fraction_to_exchange_rate :
      (num : Rational) → num.Q → Option ExchangeRate
  unfolding convert_loop
  convert_big_fraction_to_exchange_rate num target =
      let n = num.numer target in
      let d = num.denom target in convert_loop (suc (nat_abs n + nat_abs d)) n d
