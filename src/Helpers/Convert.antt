-- ===== src/Helpers/Convert.antt =====
-- convert_big_fraction_to_exchange_rate of src/helpers.rs: its loop, its fuel, and the common number by
-- which it divides.
use native.Mathlib.Nat.{div-div-eq-div-mul, div-le_self, div-one, mul-pos}
use concordium_euro2ccd_serv.Base.{
  ℕ, zero, suc, ◌+◌, ◌*◌, ◌/◌, ◌^◌, ◌≤◌, ◌<◌, ◌≡◌, refl, ap, ◌∙◌, sym, subst, Bool-cases, inl, inr,
  ◌⊎◌, some, none, Option-cases, ℤ, pos, negsuc, nat_abs, tdiv, ltb, arith, value_of_some,
}
use concordium_euro2ccd_serv.Rational.{Rational}
use concordium_euro2ccd_serv.Helpers.{
  ExchangeRate, to_u64, fit, cancel, convert_loop, convert_big_fraction_to_exchange_rate,
}

nat_abs-tdiv : (a : ℤ) (g : ℕ) → nat_abs (tdiv a g) ≡ nat_abs a / g
nat_abs-tdiv (pos n) g = refl
nat_abs-tdiv (negsuc n) g = ground arith

-- Both numbers are zero or the pair has a positive magnitude.
fit-none : (n d : ℤ) → fit (to_u64 n) (to_u64 d) ≡ none → 0 < nat_abs n + nat_abs d
unfolding fit to_u64
fit-none n d h = ground arith

pub fit-pos :
    (n d : ℕ) {e : ExchangeRate}
    → fit (to_u64 (pos n)) (to_u64 (pos d)) ≡ some e
    → (e.numerator ≡ n) × (e.denominator ≡ d) × (n < 2 ^ 64) × (d < 2 ^ 64)
unfolding fit to_u64
fit-pos n d h = ground arith

pub fit-small :
    (n d : ℕ)
    → n < 2 ^ 64
    → d < 2 ^ 64
    → fit (to_u64 (pos n)) (to_u64 (pos d)) ≡ some (record { numerator = n; denominator = d })
unfolding fit to_u64
fit-small n d h k = ground arith

pub fit-large : (n d : ℕ) → 2 ^ 64 ≤ n → fit (to_u64 (pos n)) (to_u64 (pos d)) ≡ none
unfolding fit to_u64
fit-large n d h = ground arith

module _ (gcd : ℤ → ℤ → ℕ) where
  cancel-le :
      (n d : ℤ)
      → (nat_abs (cancel gcd n d).0 ≤ nat_abs n) × (nat_abs (cancel gcd n d).1 ≤ nat_abs d)
  unfolding cancel
  cancel-le n d = elim (Bool-cases (ltb 1 (gcd n d))) [
    | inl h ↦ rw h (
      rw (nat_abs-tdiv n) (div-le_self _ (gcd n d)),
      rw (nat_abs-tdiv d) (div-le_self _ (gcd n d)),
    )
    | inr h ↦ rw h (omega arith)
  ]

  -- The pair of the next round.
  abbrev pub halve : ℤ → ℤ → ℤ × ℤ
  halve n d = cancel gcd (tdiv n 2) (tdiv d 2)

  halve-lt :
      (n d : ℤ)
      → 0 < nat_abs n + nat_abs d
      → nat_abs (halve n d).0 + nat_abs (halve n d).1 < nat_abs n + nat_abs d
  halve-lt n d h =
      omega (arith, cancel-le (tdiv n 2) (tdiv d 2), nat_abs-tdiv n 2, nat_abs-tdiv d 2)

  pub convert_loop_step :
      (fuel : ℕ) (n d : ℤ)
      → fit (to_u64 n) (to_u64 d) ≡ none
      → convert_loop gcd (suc fuel) n d ≡ convert_loop gcd fuel (halve n d).0 (halve n d).1
  unfolding convert_loop
  convert_loop_step fuel n d h = ground arith

  pub convert_loop_done :
      (fuel : ℕ) (n d : ℤ) (e : ExchangeRate)
      → fit (to_u64 n) (to_u64 d) ≡ some e
      → convert_loop gcd (suc fuel) n d ≡ some e
  unfolding convert_loop
  convert_loop_done fuel n d e h = ground arith

  -- Each round that does not return makes the pair smaller, so fuel above its size is enough.
  convert_loop_total :
      (fuel : ℕ) (n d : ℤ)
      → nat_abs n + nat_abs d < fuel
      → (e : ExchangeRate) × (convert_loop gcd fuel n d ≡ some e)
  convert_loop_total zero n d h = absurd (omega arith)
  convert_loop_total (suc fuel) n d h = elim (Option-cases (fit (to_u64 n) (to_u64 d))) [
    | inl no_fit ↦
        rw (convert_loop_step fuel n d no_fit)
          (convert_loop_total fuel _ _ (omega (arith, halve-lt n d (fit-none n d no_fit))))
    | inr (e, p) ↦ (e, convert_loop_done fuel n d e p)
  ]

  -- The loop ends for every rational, of any size and sign: its fuel is always enough.
  pub convert_total :
      (num : Rational) (target : num.Q)
      → (e : ExchangeRate) × (convert_big_fraction_to_exchange_rate gcd num target ≡ some e)
  unfolding convert_big_fraction_to_exchange_rate
  convert_total num target =
      let n = num.numer target in
      let d = num.denom target in convert_loop_total (suc (nat_abs n + nat_abs d)) n d (omega arith)

  -- On natural numbers one round divides both by one number: by 2 and by the common divisor.
  pub halve_pos :
      (n d : ℕ)
      → (g : ℕ) × (0 < g)
        × ((g ≡ 1) ⊎ (g ≡ gcd (pos (n / 2)) (pos (d / 2))))
        × (halve (pos n) (pos d) ≡ (pos (n / 2 / g), pos (d / 2 / g)))
  unfolding cancel
  halve_pos n d = elim (Bool-cases (ltb 1 (gcd (pos (n / 2)) (pos (d / 2))))) [
    | inl h ↦ (gcd (pos (n / 2)) (pos (d / 2)), ground arith, inr refl, rw h refl)
    | inr h ↦ (1, omega arith, inl refl, rw (h, div-one, div-one) refl)
  ]

  -- A round on natural numbers that do not both fit.
  pub convert_loop_round :
      (fuel n d : ℕ)
      → fit (to_u64 (pos n)) (to_u64 (pos d)) ≡ none
      → (g : ℕ) × (0 < g)
        × ((g ≡ 1) ⊎ (g ≡ gcd (pos (n / 2)) (pos (d / 2))))
        × (convert_loop gcd (suc fuel) (pos n) (pos d)
            ≡ convert_loop gcd fuel (pos (n / 2 / g)) (pos (d / 2 / g)))
  convert_loop_round fuel n d no_fit =
      let (g, g_pos, which, eq) = halve_pos n d in
      (
        g,
        g_pos,
        which,
        convert_loop_step fuel (pos n) (pos d) no_fit
            ∙ ap (λ (p : ℤ × ℤ). convert_loop gcd fuel p.0 p.1) eq,
      )

  pub convert_loop_quotient :
      (fuel n d : ℕ) (e : ExchangeRate)
      → convert_loop gcd fuel (pos n) (pos d) ≡ some e
      → (m : ℕ) × (0 < m)
        × (e.numerator ≡ n / m)
        × (e.denominator ≡ d / m)
        × (e.numerator < 2 ^ 64)
        × (e.denominator < 2 ^ 64)
  convert_loop_quotient zero n d e h = unfold convert_loop in cc
  convert_loop_quotient (suc fuel) n d e h =
      elim (Option-cases (fit (to_u64 (pos n)) (to_u64 (pos d)))) [
        | inl no_fit ↦
            let (g, g_pos, which, eq) = convert_loop_round fuel n d no_fit in
            let (m, m_pos, p, q, low, high) =
              convert_loop_quotient fuel (n / 2 / g) (d / 2 / g) e (sym eq ∙ h) in
            (
              2 * g * m,
              mul-pos (mul-pos two_pos g_pos) m_pos,
              p ∙ nested n g m,
              q ∙ nested d g m,
              low,
              high,
            )
        | inr (e', p) ↦
            let same = value_of_some (sym (convert_loop_done fuel (pos n) (pos d) e' p) ∙ h) in
            let (a, b, low, high) =
              fit-pos n d (subst (λ r. fit (to_u64 (pos n)) (to_u64 (pos d)) ≡ some r) same p) in
            (1, omega arith, a ∙ sym (div-one n), b ∙ sym (div-one d), rw a low, rw b high)
      ]
    where
      two_pos : 0 < 2
      two_pos = omega arith

      nested : (a g m : ℕ) → a / 2 / g / m ≡ a / (2 * g * m)
      nested a g m = ap (λ k. k / m) (div-div-eq-div-mul a 2 g) ∙ div-div-eq-div-mul a (2 * g) m
