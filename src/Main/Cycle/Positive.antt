-- ===== src/Main/Cycle/Positive.antt =====
-- The rate that the main loop of src/main.rs derives from histories of positive rates.
use concordium_euro2ccd_serv.Base.{
  ℕ, zero, suc, ◌<◌, ◌≡◌, refl, sym, ◌∙◌, subst, inl, inr, Bool, true, Bool-cases, Option, none,
  some, Option-cases, List, [], ◌∷◌, length, All, arith, ltb, ◌==◌,
}
use concordium_euro2ccd_serv.Rational.{Rational, AtMost}
use concordium_euro2ccd_serv.Rational.Order.{le_refl, lt_of_lt_of_le, lt_of_le_of_lt}
use concordium_euro2ccd_serv.Helpers.{compute_median}
use concordium_euro2ccd_serv.Helpers.Sort.{count_if}
use concordium_euro2ccd_serv.Helpers.Ranks.{compute_median-none_iff, compute_median-ranks}
use concordium_euro2ccd_serv.Sources.{RateHistory}
use concordium_euro2ccd_serv.Sources.Pull.Positive.{IsPositive}
use concordium_euro2ccd_serv.Main.Cycle.{source_median, in_micro, derive_rate}
use concordium_euro2ccd_serv.Main.Cycle.Derive.{fresh_medians, derive_rate-medians}

count_if-All :
    {Q : Type 0} (test : Q → Bool) (xs : List Q)
    → All (λ x. test x ≡ true) xs
    → count_if test xs ≡ length xs
count_if-All test [] h = refl
count_if-All test (x ∷ xs) h = rw h.0 (omega (arith, count_if-All test xs h.1))

module _ (num : Rational) where
  open num use {Q, lt, add, mul, from_integer}

  mul_nonneg : (a : Q) (n : ℕ) → AtMost lt num.zero a → AtMost lt num.zero (mul a (from_integer n))
  mul_nonneg a zero h = (num.mul_zero a).1
  mul_nonneg a (suc n) h = num.trans num.zero (add num.zero num.zero) _ (num.add_zero num.zero).1 (
      num.trans _ (add (mul a (from_integer n)) a) _
        (num.add_mono num.zero num.zero (mul a (from_integer n)) a (mul_nonneg a n h) h)
        (num.mul_suc a n).1)

  mul-IsPositive :
      (a : Q) (n : ℕ) → 0 < n → IsPositive num a → IsPositive num (mul a (from_integer n))
  mul-IsPositive a zero p h = absurd (omega (arith, p))
  mul-IsPositive a (suc n) p h = lt_of_lt_of_le num num.zero a _ h (
      num.trans a (add num.zero a) _ (num.add_zero a).1 (
        num.trans _ (add (mul a (from_integer n)) a) _
          (num.add_mono num.zero a (mul a (from_integer n)) a
            (mul_nonneg a n (num.asym num.zero a h)) (le_refl num a))
          (num.mul_suc a n).1))

  above :
      (m : Q) (xs : List Q)
      → AtMost lt m num.zero
      → All (IsPositive num) xs
      → All (λ x. lt m x ≡ true) xs
  above m [] h all = tt
  above m (x ∷ xs) h all = (lt_of_le_of_lt num m num.zero x h all.0, above m xs h all.1)

  -- A median of positive rates is positive: all of them lie above one that is not.
  compute_median-IsPositive :
      (rates : List Q) (m : Q)
      → compute_median num rates ≡ some m
      → All (IsPositive num) rates
      → IsPositive num m
  compute_median-IsPositive [] m e all =
      let bad : none ≡ some m = sym ((compute_median-none_iff num []).1 refl) ∙ e in cc
  compute_median-IsPositive (x ∷ xs) m e all = elim (Bool-cases (lt num.zero m)) [
    | inl h ↦ h
    | inr h ↦ absurd (
        omega (
          arith,
          (compute_median-ranks num (x ∷ xs) m e).1,
          count_if-All (λ y. lt m y) (x ∷ xs) (above m (x ∷ xs) h all),
        ))
  ]

  source_median-some :
      (ts : ℕ) (h : RateHistory Q) (m : Q)
      → source_median num ts h ≡ some m
      → compute_median num h.rates ≡ some m
  unfolding source_median
  source_median-some ts h m e = elim (Bool-cases (h.last_reading_timestamp == 0)) [
    | inl z ↦ let bad : none ≡ some m = rw z at e in cc
    | inr z ↦ elim (Bool-cases (ltb h.last_reading_timestamp ts)) [
      | inl l ↦ let bad : none ≡ some m = rw (z, l) at e in cc
      | inr l ↦ rw (z, l) at e
    ]
  ]

  -- Every rate of every history is positive.
  abbrev pub ArePositive : List (RateHistory Q) → Type 0
  ArePositive rate_histories = All (λ h. All (IsPositive num) h.rates) rate_histories

  fresh_medians-IsPositive :
      (ts : ℕ) (hs : List (RateHistory Q))
      → ArePositive hs
      → All (IsPositive num) (fresh_medians num ts hs)
  fresh_medians-IsPositive ts [] all = tt
  fresh_medians-IsPositive ts (h ∷ hs) all = elim (Option-cases (source_median num ts h)) [
    | inl e ↦ rw e (fresh_medians-IsPositive ts hs all.1)
    | inr (m, e) ↦ rw e (
      compute_median-IsPositive h.rates m (source_median-some ts h m e) all.0,
      fresh_medians-IsPositive ts hs all.1,
    )
  ]

  pub derive_rate-IsPositive :
      (ts : ℕ) (hs : List (RateHistory Q)) (rate : Q)
      → ArePositive hs
      → derive_rate num ts hs ≡ some rate
      → IsPositive num rate
  derive_rate-IsPositive ts hs rate all derived =
      scaled (compute_median num (fresh_medians num ts hs)) refl
        (sym (derive_rate-medians num ts hs) ∙ derived)
    where
      scaled :
          (o : Option Q)
          → compute_median num (fresh_medians num ts hs) ≡ o
          → in_micro num o ≡ some rate
          → IsPositive num rate
      scaled none e h = cc
      scaled (some m) e h =
          let same : mul m (from_integer 1000000) ≡ rate = cc in
          subst (IsPositive num) same (
            mul-IsPositive m 1000000 (omega arith)
              (compute_median-IsPositive _ m e (fresh_medians-IsPositive ts hs all)))
