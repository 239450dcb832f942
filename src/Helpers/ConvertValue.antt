-- ===== src/Helpers/ConvertValue.antt =====
-- convert_big_fraction_to_exchange_rate of src/helpers.rs: the value of its result on a rate n / d.
use native.Mathlib.Nat.{
  div_self, zero-div, one-dvd, mul-div-le, mul-le-mul_left, div-le_of_le-mul, dvd_antisymm,
  dvd_refl, dvd-zero, div-mul_cancel,
}
use concordium_euro2ccd_serv.Base.{
  ℕ, zero, suc, ◌+◌, ◌*◌, ◌/◌, ◌^◌, ◌≤◌, ◌<◌, ◌∣◌, ◌≡◌, ap, ap₂, ◌∙◌, lt→ltb, sym, subst, inl, inr,
  ◌⊎◌, some, none, Option-cases, ℤ, pos, arith, value_of_some,
}
use concordium_euro2ccd_serv.Rational.{Rational}
use concordium_euro2ccd_serv.Helpers.{
  ExchangeRate, Gcd, to_u64, fit, cancel, convert_loop, convert_big_fraction_to_exchange_rate,
}
use concordium_euro2ccd_serv.Helpers.Convert.{
  fit-pos, fit-small, fit-large, convert_loop_step, convert_loop_done, convert_loop_round,
}

pub floor_low : (n m : ℕ) → n / m * m ≤ n
floor_low n m = omega (arith, mul-div-le n m)

pub floor_high : (n m : ℕ) → 0 < m → n + 1 ≤ (n / m + 1) * m
floor_high n m p = omega arith

-- Dividing by a common number keeps a ratio bounded.
pub bounded-div : (r n d g : ℕ) → 0 < g → n ≤ r * (d + 1) → n / g ≤ r * (d / g + 1)
bounded-div r n d g p h = div-le_of_le-mul g (omega (arith, mul-le-mul_left r (floor_high d g p)))

dvd-div-pos : (g n : ℕ) → g ∣ n → 0 < n → 0 < n / g
dvd-div-pos g n h p = grind (arith, div-mul_cancel g h)

-- The bounds of a round: r bounds both ratios, and neither number is zero.
record Bounded (r n d : ℕ) : Type 0 where
  num_pos : 0 < n
  den_pos : 0 < d
  num_le : n ≤ r * (d + 1)
  den_le : d ≤ r * (n + 1)

Bounded-round :
    (n d g : ℕ)
    → 0 < g
    → g ∣ n / 2
    → g ∣ d / 2
    → (2 ^ 64 ≤ n) ⊎ (2 ^ 64 ≤ d)
    → Bounded (2 ^ 62) n d
    → Bounded (2 ^ 62) (n / 2 / g) (d / 2 / g)
Bounded-round n d g p dn dd large b = record {
  num_pos = dvd-div-pos g (n / 2) dn (omega arith);
  den_pos = dvd-div-pos g (d / 2) dd (omega arith);
  num_le = bounded-div (2 ^ 62) (n / 2) (d / 2) g p (omega arith);
  den_le = bounded-div (2 ^ 62) (d / 2) (n / 2) g p (omega arith);
}

pub fit-none_large :
    (n d : ℕ) → fit (to_u64 (pos n)) (to_u64 (pos d)) ≡ none → (2 ^ 64 ≤ n) ⊎ (2 ^ 64 ≤ d)
unfolding fit to_u64
fit-none_large n d h = ground arith

module _ (ops : Gcd) where
  open ops use {gcd, divides, greatest}

  pub common : (g a b : ℕ) → (g ≡ 1) ⊎ (g ≡ gcd (pos a) (pos b)) → (g ∣ a) × (g ∣ b)
  common g a b (inl h) = rw h (one-dvd a, one-dvd b)
  common g a b (inr h) = rw h (divides (pos a) (pos b))

  convert_loop-Bounded :
      (fuel n d : ℕ) (e : ExchangeRate)
      → Bounded (2 ^ 62) n d
      → convert_loop gcd fuel (pos n) (pos d) ≡ some e
      → (0 < e.numerator) × (0 < e.denominator)
  convert_loop-Bounded zero n d e b h = unfold convert_loop in cc
  convert_loop-Bounded (suc fuel) n d e b h =
      elim (Option-cases (fit (to_u64 (pos n)) (to_u64 (pos d)))) [
        | inl no_fit ↦
            let (g, g_pos, which, eq) = convert_loop_round gcd fuel n d no_fit in
            let (dn, dd) = common g (n / 2) (d / 2) which in
            convert_loop-Bounded fuel (n / 2 / g) (d / 2 / g) e
              (Bounded-round n d g g_pos dn dd (fit-none_large n d no_fit) b) (sym eq ∙ h)
        | inr (e', p) ↦
            let same = value_of_some (sym (convert_loop_done gcd fuel (pos n) (pos d) e' p) ∙ h) in
            let (a, c, low, high) =
              fit-pos n d (subst (λ r. fit (to_u64 (pos n)) (to_u64 (pos d)) ≡ some r) same p) in
            (rw a b.num_pos, rw c b.den_pos)
      ]

module _ (num : Rational) (target : num.Q) (n d : ℕ) (ops : Gcd) where
  open ops use {gcd, divides, greatest}

  module _ (numer : num.numer target ≡ pos n) (denom : num.denom target ≡ pos d) where
    pub convert_lem :
        convert_big_fraction_to_exchange_rate gcd num target
        ≡ convert_loop gcd (suc (n + d)) (pos n) (pos d)
    unfolding convert_big_fraction_to_exchange_rate
    convert_lem = rw (numer, denom)

    -- If a positive rate n / d lies between about 2 ^ -62 and 2 ^ 62 (n is at most 2 ^ 62 * (d + 1),
    -- and d at most 2 ^ 62 * (n + 1)), the result has neither a zero numerator nor a zero
    -- denominator.
    pub convert-pos :
        (e : ExchangeRate)
        → 0 < n
        → 0 < d
        → n ≤ 2 ^ 62 * (d + 1)
        → d ≤ 2 ^ 62 * (n + 1)
        → convert_big_fraction_to_exchange_rate gcd num target ≡ some e
        → (0 < e.numerator) × (0 < e.denominator)
    convert-pos e n_pos d_pos n_le d_le h =
        convert_loop-Bounded ops (suc (n + d)) n d e
          (record { num_pos = n_pos; den_pos = d_pos; num_le = n_le; den_le = d_le })
          (sym convert_lem ∙ h)

module _ (ops : Gcd) where
  open ops use {gcd, divides, greatest}

  gcd-zero : (a : ℕ) → gcd (pos a) (pos 0) ≡ a
  gcd-zero a =
      dvd_antisymm (divides (pos a) (pos 0)).0
        (greatest a (pos a) (pos 0) (dvd_refl a) (dvd-zero a))

  cancel-zero : (a : ℕ) → 1 < a → cancel gcd (pos a) (pos 0) ≡ (pos 1, pos 0)
  unfolding cancel
  cancel-zero a h =
      rw (gcd-zero a, lt→ltb 1 a h)
        (ap₂ (λ x y. (pos x, pos y)) (div_self (omega arith)) (zero-div a))

  -- For every integer rate of at least 2 ^ 64 the result is 1 / 0: halving loses the denominator 1,
  -- and the remaining numerator is divided by itself.
  pub convert_large_integer :
      (num : Rational) (target : num.Q) (n : ℕ)
      → num.numer target ≡ pos n
      → num.denom target ≡ pos 1
      → 2 ^ 64 ≤ n
      → convert_big_fraction_to_exchange_rate gcd num target
        ≡ some (record { numerator = 1; denominator = 0 })
  convert_large_integer num target n numer denom h =
      convert_lem num target n 1 ops numer denom
      ∙ convert_loop_step gcd (n + 1) (pos n) (pos 1) (fit-large n 1 h)
      ∙ ap (λ (p : ℤ × ℤ). convert_loop gcd (n + 1) p.0 p.1) (cancel-zero (n / 2) (omega arith))
      ∙ ap (λ k. convert_loop gcd k (pos 1) (pos 0)) (let e : n + 1 ≡ suc n = omega arith in e)
      ∙ convert_loop_done gcd n (pos 1) (pos 0) _ (fit-small 1 0 (omega arith) (omega arith))
