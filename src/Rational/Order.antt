-- ===== src/Rational/Order.antt =====
-- What follows from the total order of the interface alone.
use native.Mathlib.Nat.{zero-lt-suc}
use concordium_euro2ccd_serv.Base.{
  ℕ, zero, suc, ◌<◌, ◌≡◌, ◌∙◌, sym, true, false, none, some, inl, inr, Bool-cases, arith,
}
use concordium_euro2ccd_serv.Rational.Laws.{Rational, AtMost, Same}

module _ (num : Rational) where
  open num use {Q, lt}

  pub le_refl : (a : Q) → AtMost lt a a
  le_refl a = elim (Bool-cases (lt a a)) [ inl h ↦ num.asym a a h | inr h ↦ h ]

  pub Same-trans : (a b c : Q) → Same lt a b → Same lt b c → Same lt a c
  Same-trans a b c h k = (num.trans a b c h.0 k.0, num.trans c b a k.1 h.1)

  pub Same-add : (a b c d : Q) → Same lt a c → Same lt b d → Same lt (num.add a b) (num.add c d)
  Same-add a b c d h k = (num.add_mono a b c d h.0 k.0, num.add_mono c d a b h.1 k.1)

  -- Strictly below is transitive on either side.
  pub lt_of_lt_of_le : (a b c : Q) → lt a b ≡ true → AtMost lt b c → lt a c ≡ true
  lt_of_lt_of_le a b c h k = elim (Bool-cases (lt a c)) [
    | inl e ↦ e
    | inr e ↦ ground (arith, num.trans b c a k e)
  ]

  pub lt_of_le_of_lt : (a b c : Q) → AtMost lt a b → lt b c ≡ true → lt a c ≡ true
  lt_of_le_of_lt a b c h k = elim (Bool-cases (lt a c)) [
    | inl e ↦ e
    | inr e ↦ ground (arith, num.trans c a b e h)
  ]

  zero-times : (d : ℕ) → AtMost lt (num.mul num.zero (num.from_integer d)) num.zero
  zero-times zero = (num.mul_zero num.zero).0
  zero-times (suc d) = num.trans _ _ _ (num.mul_suc num.zero d).0 (
      num.trans _ _ _ (num.add_mono _ _ _ _ (zero-times d) (le_refl num.zero))
        (num.add_zero num.zero).0)

  -- The quotient of positive numbers is positive.
  pub ratio-pos :
      (n d : ℕ) (q : Q)
      → 0 < n
      → num.checked_div (num.from_integer n) (num.from_integer d) ≡ some q
      → lt num.zero q ≡ true
  ratio-pos n zero q p e = let bad : none ≡ some q = sym (num.div_zero _ _ num.from_zero) ∙ e in cc
  ratio-pos n (suc d) q p e = elim (Bool-cases (lt num.zero q)) [
    | inl h ↦ h
    | inr h ↦
        let small =
          num.trans _ _ _ ((num.div_le _ _ q num.zero (num.from_pos (suc d) (zero-lt-suc d)) e).0 h)
            (zero-times (suc d)) in
        let bad : true ≡ false = sym (num.from_pos n p) ∙ small in cc
  ]
