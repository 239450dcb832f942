-- ===== src/Helpers/Average.antt =====
-- compute_average of src/helpers.rs: when it returns, and between which bounds.
use native.Mathlib.Nat.{add-zero, zero-lt-suc}
use concordium_euro2ccd_serv.Base.{
  ℕ, suc, ◌+◌, ◌≡◌, ◌≢◌, refl, subst, List, [], ◌∷◌, foldl, some, none, length, All, arith,
}
use concordium_euro2ccd_serv.Rational.{Rational, AtMost}
use concordium_euro2ccd_serv.Helpers.{compute_average}

module _ (num : Rational) where
  open num use {Q, from_integer, lt, add, mul}

  -- n copies of a bound, against a sum of n items.
  times : Q → ℕ → Q
  times a n = mul a (from_integer n)

  sum-ge :
      (lo acc : Q) (n : ℕ) (xs : List Q)
      → AtMost lt (times lo n) acc
      → All (AtMost lt lo) xs
      → AtMost lt (times lo (length xs + n)) (foldl add acc xs)
  unfolding times
  sum-ge lo acc n [] h a = subst (λ k. AtMost lt (times lo k) acc) (omega arith) h
  sum-ge lo acc n (x ∷ xs) h a =
      subst (λ k. AtMost lt (times lo k) (foldl add (add acc x) xs)) (omega arith)
        (sum-ge lo (add acc x) (suc n) xs
          (num.trans _ _ _ (num.mul_suc lo n).0 (num.add_mono _ _ _ _ h a.0)) a.1)

  sum-le :
      (hi acc : Q) (n : ℕ) (xs : List Q)
      → AtMost lt acc (times hi n)
      → All (λ x. AtMost lt x hi) xs
      → AtMost lt (foldl add acc xs) (times hi (length xs + n))
  unfolding times
  sum-le hi acc n [] h a = subst (λ k. AtMost lt acc (times hi k)) (omega arith) h
  sum-le hi acc n (x ∷ xs) h a =
      subst (λ k. AtMost lt (foldl add (add acc x) xs) (times hi k)) (omega arith)
        (sum-le hi (add acc x) (suc n) xs
          (num.trans _ _ _ (num.add_mono _ _ _ _ h a.0) (num.mul_suc hi n).1) a.1)

  -- The average of at least one rate exists,
  pub compute_average-some :
      (x : Q) (xs : List Q) → (m : Q) × (compute_average num (x ∷ xs) ≡ some m)
  unfolding compute_average
  compute_average-some x xs = num.div_some _ _ (num.from_pos _ (zero-lt-suc (length xs)))

  -- there is none of no rates,
  pub compute_average-nil : compute_average num [] ≡ none
  unfolding compute_average
  compute_average-nil = num.div_zero _ _ num.from_zero

  -- and it lies between any bounds of the rates.
  pub compute_average-ge :
      (lo m : Q) (xs : List Q)
      → xs ≢ []
      → All (AtMost lt lo) xs
      → compute_average num xs ≡ some m
      → AtMost lt lo m
  unfolding compute_average
  compute_average-ge lo m [] ne a e = absurd (ne refl)
  compute_average-ge lo m (x ∷ xs) ne a e =
      (num.div_ge _ _ m lo (num.from_pos _ (zero-lt-suc (length xs))) e).1 (
        unfold times in
        subst (λ k. AtMost lt (times lo k) (foldl add num.zero (x ∷ xs))) (add-zero _)
          (sum-ge lo num.zero 0 (x ∷ xs) (num.mul_zero lo).0 a))

  pub compute_average-le :
      (hi m : Q) (xs : List Q)
      → xs ≢ []
      → All (λ x. AtMost lt x hi) xs
      → compute_average num xs ≡ some m
      → AtMost lt m hi
  unfolding compute_average
  compute_average-le hi m [] ne a e = absurd (ne refl)
  compute_average-le hi m (x ∷ xs) ne a e =
      (num.div_le _ _ m hi (num.from_pos _ (zero-lt-suc (length xs))) e).1 (
        unfold times in
        subst (λ k. AtMost lt (foldl add num.zero (x ∷ xs)) (times hi k)) (add-zero _)
          (sum-le hi num.zero 0 (x ∷ xs) (num.mul_zero hi).1 a))

  -- The average of at least one rate lies between any bounds that all of the rates keep.
  pub compute_average-bounds :
      (lo hi m : Q) (xs : List Q)
      → xs ≢ []
      → All (AtMost lt lo) xs
      → All (λ x. AtMost lt x hi) xs
      → compute_average num xs ≡ some m
      → AtMost lt lo m × AtMost lt m hi
  compute_average-bounds lo hi m xs ne low high e =
      (compute_average-ge lo m xs ne low e, compute_average-le hi m xs ne high e)
