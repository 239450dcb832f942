-- ===== src/Helpers/Ranks.antt =====
-- compute_median of src/helpers.rs against the definition of a median by ranks.
use concordium_euro2ccd_serv.Base.{
  ℕ, zero, suc, ◌+◌, ◌*◌, ◌≤◌, ◌<◌, ◌≡◌, ◌≢◌, refl, ◌∙◌, sym, subst, inl, inr, ◌↔◌, Bool, true,
  false, not, Bool-cases, List, [], ◌∷◌, some, none, length, take, drop, All, All-map, arith,
  value_of_some, get_elem?, All-get_elem?,
}
use concordium_euro2ccd_serv.Rational.{Rational, AtMost}
use concordium_euro2ccd_serv.Rational.Order.{le_refl, lt_of_lt_of_le, lt_of_le_of_lt}
use concordium_euro2ccd_serv.Helpers.{sort, compute_median}
use concordium_euro2ccd_serv.Helpers.Sort.{
  count_if, IsSorted, sort-IsSorted, count_if-sort, length-sort, IsSorted-drop, IsSorted-take,
}
use concordium_euro2ccd_serv.Helpers.Average.{compute_average-ge, compute_average-le}
use concordium_euro2ccd_serv.Helpers.Median.{Middle, odd, even, compute_median-Middle}

module _ {ℓ} {A : Type ℓ} (test : A → Bool) where
  count_if-le : (xs : List A) → count_if test xs ≤ length xs
  count_if-le [] = omega arith
  count_if-le (x ∷ xs) = ground (arith, count_if-le xs)

  count_if-drop :
      (j : ℕ) (xs : List A) → All (λ x. test x ≡ false) (drop j xs) → count_if test xs ≤ j
  count_if-drop j [] h = omega arith
  count_if-drop zero (x ∷ xs) h = ground (arith, count_if-drop zero xs h.1)
  count_if-drop (suc j) (x ∷ xs) h = ground (arith, count_if-drop j xs h)

  count_if-take :
      (k : ℕ) (xs : List A)
      → k ≤ length xs
      → All (λ x. test x ≡ false) (take k xs)
      → count_if test xs + k ≤ length xs
  count_if-take zero xs le h = omega (arith, count_if-le xs)
  count_if-take (suc k) [] le h = absurd (omega arith)
  count_if-take (suc k) (x ∷ xs) le h = ground (arith, count_if-take k xs (omega arith) h.1)

  count_if_mono :
      (more : A → Bool) (xs : List A)
      → ((x : A) → test x ≡ true → more x ≡ true)
      → count_if test xs ≤ count_if more xs
  count_if_mono more [] h = omega arith
  count_if_mono more (x ∷ xs) h = ground (arith, h x, count_if_mono more xs h)

module _ (num : Rational) where
  open num use {Q, lt}

  -- Where an ascending list splits about its median.
  record Split (v : List Q) (m : Q) : Type 0 where
    below : ℕ
    above : ℕ
    fits : below ≤ length v
    low : All (λ x. AtMost lt x m) (take below v)
    high : All (AtMost lt m) (drop above v)
    low_half : length v ≤ 2 * below
    high_half : 2 * above ≤ length v

  neighbours :
      (i : ℕ) (v : List Q) (a b : Q)
      → IsSorted num v
      → get_elem? v i ≡ some a
      → get_elem? v (suc i) ≡ some b
      → AtMost lt a b
  neighbours i [] a b s p q = cc
  neighbours zero (x ∷ xs) a b s p q =
      subst (λ z. AtMost lt z b) (value_of_some p) (All-get_elem? (AtMost lt x) 0 xs s.0 q)
  neighbours (suc i) (x ∷ xs) a b s p q = neighbours i xs a b s.1 p q

  Middle-Split : (v : List Q) (m : Q) → IsSorted num v → Middle num v m → Split v m
  Middle-Split v m s (odd i len p) = record {
    below = suc i;
    above = i;
    fits = omega arith;
    low = IsSorted-take num i v m s p;
    high = IsSorted-drop num i v m s p;
    low_half = omega arith;
    high_half = omega arith;
  }
  Middle-Split v m s (even i a b len p q e) = record {
    below = suc i;
    above = suc i;
    fits = omega arith;
    low =
        All-map (λ x. AtMost lt x a) (λ x. AtMost lt x m) (take (suc i) v)
          (λ x h. num.trans x a m h a_le) (IsSorted-take num i v a s p);
    high =
        All-map (AtMost lt b) (AtMost lt m) (drop (suc i) v) (λ x h. num.trans m b x b_ge h)
          (IsSorted-drop num (suc i) v b s q);
    low_half = omega arith;
    high_half = omega arith;
  }
    where
      a_le_b : AtMost lt a b
      a_le_b = neighbours i v a b s p q

      a_le : AtMost lt a m
      a_le = compute_average-ge num a m (a ∷ b ∷ []) (λ h. cc) (le_refl num a, (a_le_b, tt)) e

      b_ge : AtMost lt m b
      b_ge = compute_average-le num b m (a ∷ b ∷ []) (λ h. cc) (a_le_b, (le_refl num b, tt)) e

  Split-ranks :
      (v : List Q) (m : Q)
      → Split v m
      → (2 * count_if (λ x. lt x m) v ≤ length v) × (2 * count_if (λ x. lt m x) v ≤ length v)
  Split-ranks v m s = (
    omega (arith, count_if-drop (λ x. lt x m) s.above v s.high, s.high_half),
    omega (arith, count_if-take (λ x. lt m x) s.below v s.fits s.low, s.low_half),
  )

  nonempty : (rates : List Q) (m : Q) → compute_median num rates ≡ some m → length rates ≢ 0
  unfolding compute_median
  nonempty [] m e = cc
  nonempty (x ∷ xs) m e = omega arith

  -- compute_median returns `none` exactly for an empty history, so its indexing and its division
  -- never fail.
  pub compute_median-none_iff : (rates : List Q) → (compute_median num rates ≡ none) ↔ (rates ≡ [])
  unfolding compute_median
  compute_median-none_iff [] = (λ e. refl, λ e. refl)
  compute_median-none_iff (x ∷ xs) =
      (λ e. let (m, mid, f) = compute_median-Middle num (x ∷ xs) (omega arith) in cc, λ e. cc)

  -- If compute_median returns m, at most half of the rates lie strictly below m, and at most half
  -- strictly above it.
  pub compute_median-ranks :
      (rates : List Q) (m : Q)
      → compute_median num rates ≡ some m
      → (2 * count_if (λ x. lt x m) rates ≤ length rates)
        × (2 * count_if (λ x. lt m x) rates ≤ length rates)
  compute_median-ranks rates m e =
      let (m', mid, f) = compute_median-Middle num rates (nonempty rates m e) in
      let same = value_of_some (sym f ∙ e) in
      let (lo, hi) = Split-ranks (sort num rates) m (
        Middle-Split (sort num rates) m (sort-IsSorted num rates)
          (subst (Middle num (sort num rates)) same mid)) in
      (
        omega (arith, lo, count_if-sort num (λ x. lt x m) rates, length-sort num rates),
        omega (arith, hi, count_if-sort num (λ x. lt m x) rates, length-sort num rates),
      )

  -- If more than half of the rates are at least lo, so is the median, and if more than half are at
  -- most hi, so is the median: a minority of outliers, however far off, cannot move it further.
  pub compute_median_majority :
      (rates : List Q) (m lo hi : Q)
      → compute_median num rates ≡ some m
      → length rates < 2 * count_if (λ x. not (lt x lo)) rates
      → length rates < 2 * count_if (λ x. not (lt hi x)) rates
      → AtMost lt lo m × AtMost lt m hi
  compute_median_majority rates m lo hi e many_lo many_hi = (
    elim (Bool-cases (lt m lo)) [
      | inr h ↦ h
      | inl h ↦ absurd (omega (arith, (compute_median-ranks rates m e).1, above h))
    ],
    elim (Bool-cases (lt hi m)) [
      | inr h ↦ h
      | inl h ↦ absurd (omega (arith, (compute_median-ranks rates m e).0, below h))
    ],
  )
    where
      above : lt m lo ≡ true → count_if (λ x. not (lt x lo)) rates ≤ count_if (λ x. lt m x) rates
      above h =
          count_if_mono (λ x. not (lt x lo)) (λ x. lt m x) rates
            (λ x p. lt_of_lt_of_le num m lo x h (ground (arith, p)))

      below : lt hi m ≡ true → count_if (λ x. not (lt hi x)) rates ≤ count_if (λ x. lt x m) rates
      below h =
          count_if_mono (λ x. not (lt hi x)) (λ x. lt x m) rates
            (λ x p. lt_of_le_of_lt num x hi m (ground (arith, p)) h)
