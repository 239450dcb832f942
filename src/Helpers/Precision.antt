-- ===== src/Helpers/Precision.antt =====
-- convert_big_fraction_to_exchange_rate of src/helpers.rs: how far its result is from the rate.
use native.Mathlib.Nat.{
  mul_comm, div-div-eq-div-mul, div-mul_cancel, div-one, mul-pos, mul-le-mul_left, mul-le-mul_right,
}
use concordium_euro2ccd_serv.Base.{
  ℕ, zero, suc, ◌+◌, ◌-◌, ◌*◌, ◌/◌, ◌^◌, ◌≤◌, ◌<◌, ◌∣◌, ◌≡◌, refl, ap, ◌∙◌, sym, subst, inl, inr,
  ◌⊎◌, some, Option-cases, pos, arith, dec_le, value_of_some,
}
use concordium_euro2ccd_serv.Rational.{Rational}
use concordium_euro2ccd_serv.Helpers.{
  ExchangeRate, Gcd, to_u64, fit, convert_loop, convert_big_fraction_to_exchange_rate,
}
use concordium_euro2ccd_serv.Helpers.Convert.{
  fit-pos, convert_loop_done, convert_loop_round, convert_loop_quotient,
}
use concordium_euro2ccd_serv.Helpers.ConvertValue.{
  floor_low, floor_high, bounded-div, fit-none_large, common, convert_lem, convert-pos,
}

-- The pair p / q has the value of n / scale over d / scale, and the division by the scale left one
-- of these large, if it was one.
record Rounded (n d p q : ℕ) : Type 0 where
  scale : ℕ
  scale_pos : 0 < scale
  same : p * (d / scale) ≡ n / scale * q
  large : (scale ≡ 1) ⊎ ((2 ^ 63 ≤ n / scale) ⊎ (2 ^ 63 ≤ d / scale))

Rounded-one : (n d : ℕ) → Rounded n d n d
Rounded-one n d = record {
  scale = 1;
  scale_pos = omega arith;
  same = rw (div-one, div-one, mul_comm) refl;
  large = inl refl;
}

div_twice : (n g k : ℕ) → n / 2 / g / k ≡ n / (2 * g * k)
div_twice n g k = ap (λ x. x / k) (div-div-eq-div-mul n 2 g) ∙ div-div-eq-div-mul n (2 * g) k

-- An equation of products, for numbers g times as large.
scaled_same : (p q n d g a b : ℕ) → a ≡ n * g → b ≡ d * g → p * d ≡ n * q → p * b ≡ a * q
scaled_same p q n d g a b ea eb h =
    let more : p * d * g ≡ n * q * g = ap (λ x. x * g) h in rw (ea, eb) (omega (arith, more))

whole_scale : (p q n d k : ℕ) → k ≡ 1 → p * (d / k) ≡ n / k * q → p * d ≡ n * q
whole_scale p q n d k e h = rw (e, div-one, div-one) at h

-- A round before.
Rounded-round :
    (n d g p q : ℕ)
    → 0 < g
    → g ∣ n / 2
    → g ∣ d / 2
    → (2 ^ 64 ≤ n) ⊎ (2 ^ 64 ≤ d)
    → Rounded (n / 2 / g) (d / 2 / g) p q
    → Rounded n d p q
Rounded-round n d g p q g_pos dn dd big r = elim r.large [
  | inl one ↦ record {
    scale = 2;
    scale_pos = omega arith;
    same =
        scaled_same p q (n / 2 / g) (d / 2 / g) g (n / 2) (d / 2) (sym (div-mul_cancel g dn))
          (sym (div-mul_cancel g dd)) (whole_scale p q _ _ r.scale one r.same);
    large = inr (omega arith);
  }
  | inr left ↦ record {
    scale = 2 * g * r.scale;
    scale_pos = mul-pos (mul-pos (omega arith) g_pos) r.scale_pos;
    same = rw (← div_twice n g r.scale, ← div_twice d g r.scale) r.same;
    large = inr (rw (← div_twice n g r.scale, ← div_twice d g r.scale) left);
  }
]

swap : {A B : Type 0} → A ⊎ B → B ⊎ A
swap (inl a) = inr a
swap (inr b) = inl b

times_pos : (r d n : ℕ) → 0 < n → n ≤ r * d → 0 < r
times_pos zero d n h k = absurd (omega arith)
times_pos (suc r) d n h k = omega arith

module _ (ops : Gcd) where
  open ops use {gcd}

  convert_loop-Rounded :
      (fuel n d : ℕ) (e : ExchangeRate)
      → convert_loop gcd fuel (pos n) (pos d) ≡ some e
      → Rounded n d e.numerator e.denominator
  convert_loop-Rounded zero n d e h = unfold convert_loop in cc
  convert_loop-Rounded (suc fuel) n d e h =
      elim (Option-cases (fit (to_u64 (pos n)) (to_u64 (pos d)))) [
        | inl no_fit ↦
            let (g, g_pos, which, eq) = convert_loop_round gcd fuel n d no_fit in
            let (dn, dd) = common ops g (n / 2) (d / 2) which in
            Rounded-round n d g e.numerator e.denominator g_pos dn dd (fit-none_large n d no_fit)
              (convert_loop-Rounded fuel (n / 2 / g) (d / 2 / g) e (sym eq ∙ h))
        | inr (e', p) ↦
            let same = value_of_some (sym (convert_loop_done gcd fuel (pos n) (pos d) e' p) ∙ h) in
            let (a, c, low, high) =
              fit-pos n d (subst (λ r. fit (to_u64 (pos n)) (to_u64 (pos d)) ≡ some r) same p) in
            rw (a, c) (Rounded-one n d)
      ]

-- What a large part leaves of the other: a = n / k and b = d / k.
parts_large :
    (r a b : ℕ)
    → 0 < r
    → r < 2 ^ 63
    → b ≤ r * (a + 1)
    → (2 ^ 63 ≤ a) ⊎ (2 ^ 63 ≤ b)
    → 2 ^ 62 ≤ r * a
parts_large r a b r_pos r_lt le (inl h) = omega (arith, mul-le-mul_right a r_pos)
parts_large r zero b r_pos r_lt le (inr h) = absurd (omega arith)
parts_large r (suc a) b r_pos r_lt le (inr h) = omega arith

-- One side of the precision: b times the value of p / q over that of n / d.
cross_above :
    (n d p q a b k : ℕ)
    → k * a ≤ n
    → d ≤ k * (b + 1)
    → p * b ≡ a * q
    → p * d * b ≤ (b + 1) * (n * q)
cross_above n d p q a b k low high same =
    let moved : p * b * d ≡ a * q * d = ap (λ x. x * d) same in
    omega (arith, moved, mul-le-mul_left (a * q) high, mul-le-mul_left ((b + 1) * q) low)

scaled_excess :
    (t y b r : ℕ) → (y + t) * b ≤ (b + 1) * y → 2 ^ 62 ≤ r * b → 2 ^ 62 * (y + t) ≤ (2 ^ 62 + r) * y
scaled_excess t y b r h k =
    let excess : t * b ≤ y = omega (arith, h) in
    omega (arith, mul-le-mul_right t k, mul-le-mul_left r excess)

scaled_above : (x y b r : ℕ) → x * b ≤ (b + 1) * y → 2 ^ 62 ≤ r * b → 2 ^ 62 * x ≤ (2 ^ 62 + r) * y
scaled_above x y b r h k = elim (dec_le x y) [
  | yes le ↦ omega (arith, mul-le-mul_left (2 ^ 62) le)
  | no gt ↦
      let split : x ≡ y + (x - y) = omega arith in
      rw split (scaled_excess (x - y) y b r (rw split at h) k)
]

-- One side of the precision, for a / b that is left of n / d by a division by k.
side :
    (n d p q r k : ℕ)
    → 0 < k
    → 0 < r
    → r ≤ 2 ^ 62
    → n ≤ r * d
    → p * (d / k) ≡ n / k * q
    → (2 ^ 63 ≤ n / k) ⊎ (2 ^ 63 ≤ d / k)
    → 2 ^ 62 * (p * d) ≤ (2 ^ 62 + r) * (n * q)
side n d p q r k k_pos r_pos r_le n_le same big =
    scaled_above (p * d) (n * q) (d / k) r
      (cross_above n d p q (n / k) (d / k) k (omega (arith, floor_low n k))
        (omega (arith, floor_high d k k_pos)) same)
      (parts_large r (d / k) (n / k) r_pos (omega arith) (bounded-div r n d k k_pos (omega arith))
        (swap big))

within :
    (n d p q r : ℕ)
    → 0 < r
    → r ≤ 2 ^ 62
    → n ≤ r * d
    → d ≤ r * n
    → Rounded n d p q
    → (2 ^ 62 * (p * d) ≤ (2 ^ 62 + r) * (n * q)) × (2 ^ 62 * (n * q) ≤ (2 ^ 62 + r) * (p * d))
within n d p q r r_pos r_le n_le d_le w = elim w.large [
  | inl one ↦
      let same = whole_scale p q n d w.scale one w.same in
      (omega (arith, same), omega (arith, same))
  | inr big ↦ (
    side n d p q r w.scale w.scale_pos r_pos r_le n_le w.same big,
    omega (
      arith,
      side d n q p r w.scale w.scale_pos r_pos r_le d_le (omega (arith, w.same)) (swap big),
    ),
  )
]

module _ (num : Rational) (target : num.Q) (n d : ℕ) (ops : Gcd) where
  open ops use {gcd}

  -- If a positive rate n / d and its inverse are at most r, which is at most 2 ^ 62, the result p / q
  -- is a pair of positive numbers below 2 ^ 64, and neither of n / d and p / q exceeds the other by
  -- more than the factor 1 + r / 2 ^ 62.
  pub convert-precision :
      (r : ℕ) (e : ExchangeRate)
      → num.numer target ≡ pos n
      → num.denom target ≡ pos d
      → 0 < n
      → 0 < d
      → r ≤ 2 ^ 62
      → n ≤ r * d
      → d ≤ r * n
      → convert_big_fraction_to_exchange_rate gcd num target ≡ some e
      → (0 < e.numerator)
        × (e.numerator < 2 ^ 64)
        × (0 < e.denominator)
        × (e.denominator < 2 ^ 64)
        × (2 ^ 62 * (e.numerator * d) ≤ (2 ^ 62 + r) * (n * e.denominator))
        × (2 ^ 62 * (n * e.denominator) ≤ (2 ^ 62 + r) * (e.numerator * d))
  convert-precision r e numer denom n_pos d_pos r_le n_le d_le h =
      let loop = sym (convert_lem num target n d ops numer denom) ∙ h in
      let (_, _, _, _, low, high) = convert_loop_quotient gcd (suc (n + d)) n d e loop in
      let r_pos = times_pos r d n n_pos n_le in
      let (above, below) =
        within n d e.numerator e.denominator r r_pos r_le n_le d_le
          (convert_loop-Rounded ops (suc (n + d)) n d e loop) in
      let (p_pos, q_pos) =
        convert-pos num target n d ops numer denom e n_pos d_pos
          (omega (arith, mul-le-mul_right (d + 1) r_le))
          (omega (arith, mul-le-mul_right (n + 1) r_le)) h in
      (p_pos, low, q_pos, high, above, below)
