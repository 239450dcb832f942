-- ===== src/Sources/Pull/History/Window.antt =====
-- The window of the last rates that a history in src/sources.rs keeps: a list cut to its last items, and
-- a history with its newest rate put in.
use mathlib.Core.List.{append-nil}
use concordium_euro2ccd_serv.Base.{
  ℕ, zero, suc, ◌+◌, ◌-◌, ◌≤◌, ◌≡◌, refl, sym, ap, ◌∙◌, subst, Option, none, some, List, [], ◌∷◌,
  ◌++◌, length, drop, length-append, length-drop, drop-append, ltb, arith, Bool-cases, inl, inr,
}
use concordium_euro2ccd_serv.Sources.{RateHistory}
use concordium_euro2ccd_serv.Sources.Pull.{trim, push_rate}

module _ {Q : Type 0} where
  -- The last n items.
  abbrev pub last_n : ℕ → List Q → List Q
  last_n n xs = drop (length xs - n) xs

  trim-last_n :
      (n : ℕ) (xs : List Q) (x : Q)
      → length xs ≤ n
      → trim n (xs ++ x ∷ []) ≡ last_n n (xs ++ x ∷ [])
  trim-last_n n xs x h = elim (Bool-cases (ltb n (length (xs ++ x ∷ [])))) [
    | inl e ↦ rw e (
        ap (λ k. drop k (xs ++ x ∷ []))
          (let q : 1 ≡ length (xs ++ x ∷ []) - n = ground (arith, length-append xs (x ∷ [])) in q))
    | inr e ↦ rw e (
        ap (λ k. drop k (xs ++ x ∷ []))
          (let q : 0 ≡ length (xs ++ x ∷ []) - n = ground (arith, length-append xs (x ∷ [])) in q))
  ]

  drop-nil : (j : ℕ) → drop {A = Q} j [] ≡ []
  drop-nil zero = refl
  drop-nil (suc j) = refl

  drop-drop : (j k : ℕ) (xs : List Q) → drop j (drop k xs) ≡ drop (k + j) xs
  drop-drop j zero xs = ap (λ i. drop i xs) (let q : j ≡ 0 + j = omega arith in q)
  drop-drop j (suc k) [] = drop-nil j ∙ sym (drop-nil (suc k + j))
  drop-drop j (suc k) (x ∷ xs) =
      drop-drop j k xs
      ∙ ap (λ i. drop i (x ∷ xs)) (let q : suc (k + j) ≡ suc k + j = omega arith in q)

  pub last_n-append : (n : ℕ) (xs ys : List Q) → last_n n (last_n n xs ++ ys) ≡ last_n n (xs ++ ys)
  last_n-append n xs ys =
      ap (drop (length (last_n n xs ++ ys) - n)) (sym (drop-append k xs ys (omega arith)))
      ∙ drop-drop (length (last_n n xs ++ ys) - n) k (xs ++ ys)
      ∙ ap (λ i. drop i (xs ++ ys)) count
    where
      k : ℕ
      k = length xs - n

      count : k + (length (last_n n xs ++ ys) - n) ≡ length (xs ++ ys) - n
      count = omega (arith, length-append (last_n n xs) ys, length-drop k xs, length-append xs ys)

  -- A history with its newest rate put in, or left alone.
  abbrev pub received : ℕ → ℕ → Option Q → RateHistory Q → RateHistory Q
  received max_rates_saved now none history = history
  received max_rates_saved now (some rate) history = push_rate max_rates_saved rate now history

abbrev pub to_list : {Q : Type 0} → Option Q → List Q
to_list none = []
to_list (some q) = q ∷ []

unfoldable pub rates_of : {Q : Type 0} → RateHistory Q → List Q
rates_of h = h.rates

module _ {Q : Type 0} where
  pub last_n_all : (n : ℕ) (xs : List Q) → length xs ≤ n → last_n n xs ≡ xs
  last_n_all n xs h = ap (λ k. drop k xs) (let q : length xs - n ≡ 0 = omega arith in q)

  pub length-last_n : (n : ℕ) (xs : List Q) → length (last_n n xs) ≤ n
  length-last_n n xs = omega (arith, length-drop (length xs - n) xs)

  pub received-rates :
      (max now : ℕ) (o : Option Q) (h : RateHistory Q)
      → length h.rates ≤ max
      → (received max now o h).rates ≡ last_n max (h.rates ++ to_list o)
  received-rates max now none h le = sym (rw append-nil (last_n_all max h.rates le))
  received-rates max now (some q) h le = trim-last_n max h.rates q le

  pub length-received :
      (max now : ℕ) (o : Option Q) (h : RateHistory Q)
      → length h.rates ≤ max
      → length (received max now o h).rates ≤ max
  length-received max now o h le =
      subst (λ xs. length xs ≤ max) (sym (received-rates max now o h le)) (length-last_n max _)
