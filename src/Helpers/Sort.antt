-- ===== src/Helpers/Sort.antt =====
-- The sort of src/helpers.rs: its order, and the rates that it keeps.
use concordium_euro2ccd_serv.Base.{
  ℕ, zero, suc, ◌+◌, ◌≡◌, refl, ap, Bool, List, [], ◌∷◌, inl, inr, Bool-cases, if◌then◌else◌,
  length, get_elem?, take, drop, All, All-map, All-get_elem?, arith, some, subst, value_of_some,
}
use concordium_euro2ccd_serv.Rational.{Rational, AtMost}
use concordium_euro2ccd_serv.Rational.Order.{le_refl}
use concordium_euro2ccd_serv.Helpers.{insert, sort}

-- How many items pass a test.
abbrev pub count_if {ℓ} : {A : Type ℓ} → (A → Bool) → List A → ℕ
count_if test [] = 0
count_if test (x ∷ xs) = (if test x then 1 else 0) + count_if test xs

module _ (num : Rational) where
  open num use {Q, lt}

  -- Every rate is at most those that stand after it.
  abbrev pub IsSorted : List Q → Type 0
  IsSorted [] = Unit
  IsSorted (x ∷ xs) = All (AtMost lt x) xs × IsSorted xs

  pub All-insert : (P : Q → Type 0) (x : Q) (xs : List Q) → P x → All P xs → All P (insert num x xs)
  unfolding insert
  All-insert P x [] p h = (p, tt)
  All-insert P x (y ∷ ys) p h = elim (Bool-cases (lt y x)) [
    | inl e ↦ rw e (h.0, All-insert P x ys p h.1)
    | inr e ↦ rw e (p, h)
  ]

  pub All-sort : (P : Q → Type 0) (xs : List Q) → All P xs → All P (sort num xs)
  unfolding sort
  All-sort P [] h = tt
  All-sort P (x ∷ xs) h = All-insert P x (sort num xs) h.0 (All-sort P xs h.1)

  insert-IsSorted : (x : Q) (xs : List Q) → IsSorted xs → IsSorted (insert num x xs)
  unfolding insert
  insert-IsSorted x [] s = (tt, tt)
  insert-IsSorted x (y ∷ ys) s = elim (Bool-cases (lt y x)) [
    | inl e ↦ rw e (All-insert (AtMost lt y) x ys (num.asym y x e) s.0, insert-IsSorted x ys s.1)
    | inr e ↦ rw e ((e, All-map (AtMost lt y) (AtMost lt x) ys (λ z. num.trans x y z e) s.0), s)
  ]

  pub sort-IsSorted : (xs : List Q) → IsSorted (sort num xs)
  unfolding sort
  sort-IsSorted [] = tt
  sort-IsSorted (x ∷ xs) = insert-IsSorted x (sort num xs) (sort-IsSorted xs)

  count_if-insert :
      (test : Q → Bool) (x : Q) (xs : List Q)
      → count_if test (insert num x xs) ≡ count_if test (x ∷ xs)
  unfolding insert
  count_if-insert test x [] = refl
  count_if-insert test x (y ∷ ys) = elim (Bool-cases (lt y x)) [
    | inl e ↦ rw e (omega (arith, count_if-insert test x ys))
    | inr e ↦ rw e refl
  ]

  pub count_if-sort :
      (test : Q → Bool) (xs : List Q) → count_if test (sort num xs) ≡ count_if test xs
  unfolding sort
  count_if-sort test [] = refl
  count_if-sort test (x ∷ xs) =
      omega (arith, count_if-insert test x (sort num xs), count_if-sort test xs)

  length-insert : (x : Q) (xs : List Q) → length (insert num x xs) ≡ suc (length xs)
  unfolding insert
  length-insert x [] = refl
  length-insert x (y ∷ ys) = elim (Bool-cases (lt y x)) [
    | inl e ↦ rw e (ap suc (length-insert x ys))
    | inr e ↦ rw e refl
  ]

  pub length-sort : (xs : List Q) → length (sort num xs) ≡ length xs
  unfolding sort
  length-sort [] = refl
  length-sort (x ∷ xs) = omega (arith, length-insert x (sort num xs), length-sort xs)

  -- In an ascending list the items from place i on are at least the item there,
  pub IsSorted-drop :
      (i : ℕ) (xs : List Q) (m : Q)
      → IsSorted xs
      → get_elem? xs i ≡ some m
      → All (AtMost lt m) (drop i xs)
  IsSorted-drop i [] m s e = cc
  IsSorted-drop zero (x ∷ xs) m s e =
      subst (λ z. All (AtMost lt z) (x ∷ xs)) (value_of_some e) (le_refl num x, s.0)
  IsSorted-drop (suc i) (x ∷ xs) m s e = IsSorted-drop i xs m s.1 e

  -- and those up to it are at most that item.
  pub IsSorted-take :
      (i : ℕ) (xs : List Q) (m : Q)
      → IsSorted xs
      → get_elem? xs i ≡ some m
      → All (λ x. AtMost lt x m) (take (suc i) xs)
  IsSorted-take i [] m s e = cc
  IsSorted-take zero (x ∷ xs) m s e =
      subst (λ z. AtMost lt x z × Unit {0}) (value_of_some e) (le_refl num x, tt)
  IsSorted-take (suc i) (x ∷ xs) m s e =
      (All-get_elem? (AtMost lt x) i xs s.0 e, IsSorted-take i xs m s.1 e)
