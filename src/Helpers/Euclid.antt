-- ===== src/Helpers/Euclid.antt =====
-- Euclid's algorithm on the magnitudes, as a concrete common divisor for runs of the conversion.
use native.Mathlib.Nat.{dvd_refl, dvd-zero, dvd-mod_iff}
use concordium_euro2ccd_serv.Base.{
  ℕ, zero, suc, ◌+◌, ◌%◌, ◌<◌, ◌∣◌, ℤ, Bool-cases, inl, inr, ◌==◌, ==_iff, if◌then◌else◌, nat_abs,
  arith,
}
use concordium_euro2ccd_serv.Helpers.{Gcd}

abbrev pub remainders : ℕ → ℕ → ℕ → ℕ
remainders zero a b = a
remainders (suc fuel) a b = let rest = remainders fuel b (a % b) in if b == 0 then a else rest

remainders-dvd : (fuel a b : ℕ) → b < fuel → (remainders fuel a b ∣ a) × (remainders fuel a b ∣ b)
remainders-dvd zero a b h = absurd (omega arith)
remainders-dvd (suc fuel) a b h = elim (Bool-cases (b == 0)) [
  | inl e ↦ rw e (dvd_refl a, rw ((==_iff b 0).0 e) (dvd-zero a))
  | inr e ↦
      let (left, right) = remainders-dvd fuel b (a % b) (ground arith) in
      rw e ((dvd-mod_iff _ left).0 right, left)
]

dvd-remainders : (fuel k a b : ℕ) → k ∣ a → k ∣ b → k ∣ remainders fuel a b
dvd-remainders zero k a b p q = p
dvd-remainders (suc fuel) k a b p q = elim (Bool-cases (b == 0)) [
  | inl e ↦ rw e p
  | inr e ↦ rw e (dvd-remainders fuel k b (a % b) q ((dvd-mod_iff _ q).1 p))
]

pub euclid-divides :
    (a b : ℤ)
    → (remainders (nat_abs b + 1) (nat_abs a) (nat_abs b) ∣ nat_abs a)
      × (remainders (nat_abs b + 1) (nat_abs a) (nat_abs b) ∣ nat_abs b)
euclid-divides a b = remainders-dvd (nat_abs b + 1) (nat_abs a) (nat_abs b) (omega arith)

pub euclid-greatest :
    (k : ℕ) (a b : ℤ)
    → k ∣ nat_abs a
    → k ∣ nat_abs b
    → k ∣ remainders (nat_abs b + 1) (nat_abs a) (nat_abs b)
euclid-greatest k a b = dvd-remainders (nat_abs b + 1) k (nat_abs a) (nat_abs b)

abbrev pub euclid : Gcd
euclid = record {
  gcd = λ a b. remainders (nat_abs b + 1) (nat_abs a) (nat_abs b);
  divides = euclid-divides;
  greatest = euclid-greatest;
}
