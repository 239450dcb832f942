-- ===== src/Rational/Laws.antt =====
-- The interface of BigRational, and consequences of its laws that several components use.
use concordium_euro2ccd_serv.Base.{ℕ, suc, ◌<◌, ◌≡◌, ◌↔◌, Bool, true, false, Option, none, some, ℤ}

-- Order by a strict Boolean comparison: a is at most b.
abbrev pub AtMost : {Q : Type 0} → (Q → Q → Bool) → Q → Q → Type 0
AtMost lt a b = lt b a ≡ false

-- Two values that compare as equal.
abbrev pub Same : {Q : Type 0} → (Q → Q → Bool) → Q → Q → Type 0
Same lt a b = AtMost lt a b × AtMost lt b a

-- BigRational: `none` of checked_div and recip is a division by zero, where `/` and recip panic.
pub record Rational : Type 1 where
  pub Q : Type 0
  pub numer : Q → ℤ
  pub denom : Q → ℤ
  pub zero : Q
  pub from_integer : ℕ → Q
  pub lt : Q → Q → Bool
  pub add : Q → Q → Q
  pub sub : Q → Q → Q
  pub mul : Q → Q → Q
  pub checked_div : Q → Q → Option Q
  pub recip : Q → Option Q
  -- the comparison is a total order
  pub asym : (a b : Q) → lt a b ≡ true → AtMost lt a b
  pub trans : (a b c : Q) → AtMost lt a b → AtMost lt b c → AtMost lt a c
  -- sums and products of an ordered field
  pub add_mono : (a b c d : Q) → AtMost lt a c → AtMost lt b d → AtMost lt (add a b) (add c d)
  pub add_zero : (a : Q) → Same lt (add zero a) a
  pub mul_zero : (a : Q) → Same lt (mul a (from_integer 0)) zero
  pub mul_suc :
      (a : Q) (n : ℕ) → Same lt (mul a (from_integer (suc n))) (add (mul a (from_integer n)) a)
  pub from_zero : Same lt (from_integer 0) zero
  pub from_pos : (n : ℕ) → 0 < n → lt zero (from_integer n) ≡ true
  pub sub_iff : (a b c : Q) → AtMost lt (sub a b) c ↔ AtMost lt a (add c b)
  pub mul_sub :
      (a b : Q) (n : ℕ)
      → Same lt
          (mul (sub a b) (from_integer n))
          (sub (mul a (from_integer n)) (mul b (from_integer n)))
  -- division by a positive value
  pub div_some : (a c : Q) → lt zero c ≡ true → (q : Q) × (checked_div a c ≡ some q)
  pub div_zero : (a c : Q) → Same lt c zero → checked_div a c ≡ none
  pub div_le :
      (a c q b : Q)
      → lt zero c ≡ true
      → checked_div a c ≡ some q
      → AtMost lt q b ↔ AtMost lt a (mul b c)
  pub div_ge :
      (a c q b : Q)
      → lt zero c ≡ true
      → checked_div a c ≡ some q
      → AtMost lt b q ↔ AtMost lt (mul b c) a
  pub recip_some : (a : Q) → lt zero a ≡ true → (q : Q) × (recip a ≡ some q) × (lt zero q ≡ true)
  pub recip_zero : (a : Q) → Same lt a zero → recip a ≡ none
