-- ===== src/Helpers/Median.antt =====
-- compute_median of src/helpers.rs: the middle of the sorted rates, and the ranks around it.
use concordium_euro2ccd_serv.Base.{
  ℕ, zero, suc, ◌+◌, ◌-◌, ◌*◌, ◌/◌, ◌%◌, ◌<◌, ◌≡◌, ◌≢◌, refl, ap, ◌∙◌, ◌⊎◌, inl, inr, Bool-cases,
  List, [], ◌∷◌, some, length, get_elem?, take, drop, ◌==◌, arith,
}
use concordium_euro2ccd_serv.Rational.{Rational}
use concordium_euro2ccd_serv.Helpers.{sort, slice, compute_average, compute_median}
use concordium_euro2ccd_serv.Helpers.Sort.{length-sort}
use concordium_euro2ccd_serv.Helpers.Average.{compute_average-some}

get_elem?-some {ℓ} :
    {A : Type ℓ} (xs : List A) (i : ℕ) → i < length xs → (a : A) × (get_elem? xs i ≡ some a)
get_elem?-some [] i h = absurd (omega arith)
get_elem?-some (x ∷ xs) zero h = (x, refl)
get_elem?-some (x ∷ xs) (suc i) h = get_elem?-some xs i (omega arith)

-- Two neighbours, from place i on.
pair_at {ℓ} :
    {A : Type ℓ} (i : ℕ) (xs : List A) (a b : A)
    → get_elem? xs i ≡ some a
    → get_elem? xs (suc i) ≡ some b
    → take 2 (drop i xs) ≡ a ∷ b ∷ []
pair_at i [] a b p q = cc
pair_at zero (x ∷ []) a b p q = cc
pair_at zero (x ∷ y ∷ xs) a b p q = cc
pair_at (suc i) (x ∷ xs) a b p q = pair_at i xs a b p q

-- What compute_median returns: the middle item of the sorted rates, or the average of both.
pub data Middle (num : Rational) (v : List num.Q) (m : num.Q) : Type 0 where
  odd : (i : ℕ) → length v ≡ 2 * i + 1 → get_elem? v i ≡ some m → Middle num v m
  even :
      (i : ℕ) (a b : num.Q)
      → length v ≡ 2 * i + 2
      → get_elem? v i ≡ some a
      → get_elem? v (suc i) ≡ some b
      → compute_average num (a ∷ b ∷ []) ≡ some m
      → Middle num v m

module _ (num : Rational) where
  open num use {Q, lt}

  compute_median_odd :
      (rates : List Q)
      → length rates % 2 ≡ 1
      → compute_median num rates ≡ get_elem? (sort num rates) ((length rates - 1) / 2)
  unfolding compute_median
  compute_median_odd rates h = ground arith

  compute_median_even :
      (rates : List Q)
      → length rates ≢ 0
      → length rates % 2 ≡ 0
      → compute_median num rates
        ≡ compute_average num
            (slice num ((length rates - 1) / 2) (length rates / 2 + 1) (sort num rates))
  unfolding compute_median
  compute_median_even rates ne h = ground arith

  odd-Middle :
      (rates : List Q) (i : ℕ) (a : Q)
      → length rates ≡ 2 * i + 1
      → get_elem? (sort num rates) i ≡ some a
      → Middle num (sort num rates) a × (compute_median num rates ≡ some a)
  odd-Middle rates i a len p = (
    odd i (length-sort num rates ∙ len) p,
    compute_median_odd rates (omega arith) ∙ ap (get_elem? (sort num rates)) (omega arith) ∙ p,
  )

  even-Middle :
      (rates : List Q) (i : ℕ) (a b : Q)
      → length rates ≡ 2 * i + 2
      → get_elem? (sort num rates) i ≡ some a
      → get_elem? (sort num rates) (suc i) ≡ some b
      → (m : Q) × Middle num (sort num rates) m × (compute_median num rates ≡ some m)
  even-Middle rates i a b len p q =
      let (m, e) = compute_average-some num a (b ∷ []) in
      (
        m,
        even i a b (length-sort num rates ∙ len) p q e,
        compute_median_even rates (omega arith) (omega arith)
            ∙ ap (λ k. compute_average num (slice num k (length rates / 2 + 1) (sort num rates)))
                (let h : (length rates - 1) / 2 ≡ i = omega arith in h)
            ∙ ap (λ k. compute_average num (take k (drop i (sort num rates))))
                (let h : length rates / 2 + 1 - i ≡ 2 = omega arith in h)
            ∙ ap (compute_average num) (pair_at i (sort num rates) a b p q)
            ∙ e,
      )

  parity : (n : ℕ) → n ≢ 0 → ((i : ℕ) × (n ≡ 2 * i + 1)) ⊎ ((i : ℕ) × (n ≡ 2 * i + 2))
  parity n ne = elim (Bool-cases (n % 2 == 1)) [
    | inl h ↦ inl (n / 2, ground arith)
    | inr h ↦ inr (n / 2 - 1, ground arith)
  ]

  -- Every history with a rate has a median, and it is the middle of the sorted rates.
  pub compute_median-Middle :
      (rates : List Q)
      → length rates ≢ 0
      → (m : Q) × Middle num (sort num rates) m × (compute_median num rates ≡ some m)
  compute_median-Middle rates ne = elim (parity (length rates) ne) [
    | inl (i, len) ↦
        let (a, p) = get_elem?-some (sort num rates) i (omega (arith, length-sort num rates)) in
        let (mid, e) = odd-Middle rates i a len p in (a, mid, e)
    | inr (i, len) ↦
        let (a, p) = get_elem?-some (sort num rates) i (omega (arith, length-sort num rates)) in
        let (b, q) =
          get_elem?-some (sort num rates) (suc i) (omega (arith, length-sort num rates)) in
        even-Middle rates i a b len p q
  ]
