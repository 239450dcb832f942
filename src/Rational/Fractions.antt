-- ===== src/Rational/Fractions.antt =====
-- A concrete value of the interface: fractions of natural numbers, compared by cross multiplication.
use native.Mathlib.Nat
use concordium_euro2ccd_serv.Base.{
  ℕ, zero, suc, ◌+◌, ◌-◌, ◌*◌, ◌≤◌, ◌<◌, ◌≡◌, ap, ◌∙◌, refl, ◌↔◌, Bool, true, Option, none, some,
  ltb, lt→ltb, ltb→ge, ge→ltb, tests, arith, pos,
}
use concordium_euro2ccd_serv.Rational.Laws.{AtMost, Same, Rational}

pub record Fraction : Type 0 where
  pub num : ℕ
  pub den : ℕ
  pub den_pos : 0 < den

abbrev pub lt : Fraction → Fraction → Bool
lt a b = ltb (a.num * b.den) (b.num * a.den)

abbrev pub add : Fraction → Fraction → Fraction
add a b = record {
  num = a.num * b.den + b.num * a.den;
  den = a.den * b.den;
  den_pos = Nat.mul-pos a.den_pos b.den_pos;
}

abbrev pub sub : Fraction → Fraction → Fraction
sub a b = record {
  num = a.num * b.den - b.num * a.den;
  den = a.den * b.den;
  den_pos = Nat.mul-pos a.den_pos b.den_pos;
}

abbrev pub mul : Fraction → Fraction → Fraction
mul a b = record {
  num = a.num * b.num;
  den = a.den * b.den;
  den_pos = Nat.mul-pos a.den_pos b.den_pos;
}

abbrev pub from_integer : ℕ → Fraction
from_integer n = record { num = n; den = 1; den_pos = Nat.zero-lt-suc 0 }

-- a divided by n / d.
abbrev pub divide : Fraction → ℕ → (d : ℕ) → 0 < d → Option Fraction
divide a zero d p = none
divide a (suc n) d p = some (record {
  num = a.num * d;
  den = a.den * suc n;
  den_pos = Nat.mul-pos a.den_pos (Nat.zero-lt-suc n);
})

abbrev pub checked_div : Fraction → Fraction → Option Fraction
checked_div a c = divide a c.num c.den c.den_pos

abbrev pub recip : Fraction → Option Fraction
recip a = divide (from_integer 1) a.num a.den a.den_pos

cancel : (d a b : ℕ) → 0 < d → a * d ≤ b * d → a ≤ b
cancel d a b p h = Nat.le_of_mul-le-mul_right h p

scale : (d a b : ℕ) → a ≤ b → a * d ≤ b * d
scale d a b h = Nat.mul-le-mul_right d h

pub asym : (a b : Fraction) → lt a b ≡ true → AtMost lt a b
asym a b h = omega tests

pub trans : (a b c : Fraction) → AtMost lt a b → AtMost lt b c → AtMost lt a c
trans a b c h k = ge→ltb _ _ (
    cancel b.den _ _ b.den_pos
      (omega (arith, scale c.den _ _ (ltb→ge _ _ h), scale a.den _ _ (ltb→ge _ _ k))))

pub add_mono : (a b c d : Fraction) → AtMost lt a c → AtMost lt b d → AtMost lt (add a b) (add c d)
add_mono a b c d h k = ge→ltb _ _ (
    omega
      (arith, scale (b.den * d.den) _ _ (ltb→ge _ _ h), scale (a.den * c.den) _ _ (ltb→ge _ _ k)))

pub add_zero : (a : Fraction) → Same lt (add (from_integer 0) a) a
add_zero a = (ge→ltb _ _ (omega arith), ge→ltb _ _ (omega arith))

pub mul_zero : (a : Fraction) → Same lt (mul a (from_integer 0)) (from_integer 0)
mul_zero a = (ge→ltb _ _ (omega arith), ge→ltb _ _ (omega arith))

pub mul_suc :
    (a : Fraction) (n : ℕ) → Same lt (mul a (from_integer (suc n))) (add (mul a (from_integer n)) a)
mul_suc a n = (ge→ltb _ _ (omega arith), ge→ltb _ _ (omega arith))

pub from_zero : Same lt (from_integer 0) (from_integer 0)
from_zero = (refl, refl)

pub from_pos : (n : ℕ) → 0 < n → lt (from_integer 0) (from_integer n) ≡ true
from_pos n h = omega tests

sub_scaled : (x y z : ℕ) → (x - y) * z ≡ x * z - y * z
sub_scaled x y z = Nat.mul_comm (x - y) z ∙ Nat.mul-sub z x y ∙ omega arith

pub sub_iff : (a b c : Fraction) → AtMost lt (sub a b) c ↔ AtMost lt a (add c b)
sub_iff a b c = (
  λ h. ge→ltb _ _ (omega (arith, ltb→ge _ _ h, sub_scaled (a.num * b.den) (b.num * a.den) c.den)),
  λ h. ge→ltb _ _ (omega (arith, ltb→ge _ _ h, sub_scaled (a.num * b.den) (b.num * a.den) c.den)),
)

pub mul_sub :
    (a b : Fraction) (n : ℕ)
    → Same lt
        (mul (sub a b) (from_integer n))
        (sub (mul a (from_integer n)) (mul b (from_integer n)))
mul_sub a b n = (ge→ltb _ _ (omega (arith, crossed)), ge→ltb _ _ (omega (arith, crossed)))
  where
    difference :
        (a.num * b.den - b.num * a.den) * n ≡ a.num * n * (b.den * 1) - b.num * n * (a.den * 1)
    difference = omega (arith, sub_scaled (a.num * b.den) (b.num * a.den) n)

    crossed :
        (a.num * b.den - b.num * a.den) * n * (a.den * b.den)
        ≡ (a.num * n * (b.den * 1) - b.num * n * (a.den * 1)) * (a.den * b.den)
    crossed = ap (λ (t : ℕ). t * (a.den * b.den)) difference

divide-some :
    (a : Fraction) (n d : ℕ) (p : 0 < d)
    → 0 < n
    → (q : Fraction) × (divide a n d p ≡ some q) × (q.num ≡ a.num * d) × (q.den ≡ a.den * n)
divide-some a zero d p h = absurd (omega arith)
divide-some a (suc n) d p h = (_, refl, refl, refl)

divide_zero : (a : Fraction) (n d : ℕ) (p : 0 < d) → n ≡ 0 → divide a n d p ≡ none
divide_zero a zero d p h = refl
divide_zero a (suc n) d p h = absurd (omega arith)

divide_parts :
    (a : Fraction) (n d : ℕ) (p : 0 < d) (q : Fraction)
    → divide a n d p ≡ some q
    → (q.num ≡ a.num * d) × (q.den ≡ a.den * n)
divide_parts a zero d p q e = cc
divide_parts a (suc n) d p q e = ground arith

positive : (c : Fraction) → lt (from_integer 0) c ≡ true → 0 < c.num
positive c h = omega tests

pub div_some :
    (a c : Fraction) → lt (from_integer 0) c ≡ true → (q : Fraction) × (checked_div a c ≡ some q)
div_some a c h = let r = divide-some a c.num c.den c.den_pos (positive c h) in (r.0, r.1)

pub div_zero : (a c : Fraction) → Same lt c (from_integer 0) → checked_div a c ≡ none
div_zero a c h = divide_zero a c.num c.den c.den_pos (omega (arith, ltb→ge _ _ h.0))

pub div_le :
    (a c q b : Fraction)
    → lt (from_integer 0) c ≡ true
    → checked_div a c ≡ some q
    → AtMost lt q b ↔ AtMost lt a (mul b c)
div_le a c q b p e = (
  λ h. ge→ltb _ _ (omega (arith, ltb→ge _ _ h, scaled.0, scaled.1)),
  λ h. ge→ltb _ _ (omega (arith, ltb→ge _ _ h, scaled.0, scaled.1)),
)
  where
    scaled : (q.num * b.den ≡ a.num * c.den * b.den) × (b.num * q.den ≡ b.num * (a.den * c.num))
    scaled =
        let parts = divide_parts a c.num c.den c.den_pos q e in
        (ap (λ (t : ℕ). t * b.den) parts.0, ap (λ (t : ℕ). b.num * t) parts.1)

pub div_ge :
    (a c q b : Fraction)
    → lt (from_integer 0) c ≡ true
    → checked_div a c ≡ some q
    → AtMost lt b q ↔ AtMost lt (mul b c) a
div_ge a c q b p e = (
  λ h. ge→ltb _ _ (omega (arith, ltb→ge _ _ h, scaled.0, scaled.1)),
  λ h. ge→ltb _ _ (omega (arith, ltb→ge _ _ h, scaled.0, scaled.1)),
)
  where
    scaled : (q.num * b.den ≡ a.num * c.den * b.den) × (b.num * q.den ≡ b.num * (a.den * c.num))
    scaled =
        let parts = divide_parts a c.num c.den c.den_pos q e in
        (ap (λ (t : ℕ). t * b.den) parts.0, ap (λ (t : ℕ). b.num * t) parts.1)

pub recip_some :
    (a : Fraction)
    → lt (from_integer 0) a ≡ true
    → (q : Fraction) × (recip a ≡ some q) × (lt (from_integer 0) q ≡ true)
recip_some a h =
    let r = divide-some (from_integer 1) a.num a.den a.den_pos (positive a h) in
    (r.0, r.1, lt→ltb _ _ (omega (arith, r.2, a.den_pos)))

pub recip_zero : (a : Fraction) → Same lt a (from_integer 0) → recip a ≡ none
recip_zero a h = divide_zero (from_integer 1) a.num a.den a.den_pos (omega (arith, ltb→ge _ _ h.0))

-- The fractions as a value of the interface.
abbrev pub fractions : Rational
fractions = record {
  Q = Fraction;
  numer = λ a. pos a.num;
  denom = λ a. pos a.den;
  zero = from_integer 0;
  from_integer = from_integer;
  lt = lt;
  add = add;
  sub = sub;
  mul = mul;
  checked_div = checked_div;
  recip = recip;
  asym = asym;
  trans = trans;
  add_mono = add_mono;
  add_zero = add_zero;
  mul_zero = mul_zero;
  mul_suc = mul_suc;
  from_zero = from_zero;
  from_pos = from_pos;
  sub_iff = sub_iff;
  mul_sub = mul_sub;
  div_some = div_some;
  div_zero = div_zero;
  div_le = div_le;
  div_ge = div_ge;
  recip_some = recip_some;
  recip_zero = recip_zero;
}
