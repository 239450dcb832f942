-- ===== src/Helpers/Change.antt =====
-- relative_change of src/helpers.rs, against the bounds that a change within h percent means.
use concordium_euro2ccd_serv.Base.{◌≡◌, ◌↔◌, true, false, some, none, inl, inr, Bool-cases}
use concordium_euro2ccd_serv.Rational.{Rational, AtMost, Same}
use concordium_euro2ccd_serv.Helpers.{relative_change}

module _ (num : Rational) where
  open num use {Q, from_integer, lt, add, sub, mul, checked_div}

  -- The common form of both branches: the difference of the two rates, over the current one.
  quotient_iff :
      (from to by d h : Q)
      → lt num.zero by ≡ true
      → checked_div (mul (sub to from) (from_integer 100)) by ≡ some d
      → AtMost lt d h
        ↔ AtMost lt (mul to (from_integer 100)) (add (mul h by) (mul from (from_integer 100)))
  quotient_iff from to by d h p e = (
    λ le.
        (num.sub_iff _ _ _).0
          (num.trans _ _ _ (num.mul_sub to from 100).1 ((num.div_le _ _ d h p e).0 le)),
    λ le.
        (num.div_le _ _ d h p e).1
          (num.trans _ _ _ (num.mul_sub to from 100).0 ((num.sub_iff _ _ _).1 le)),
  )

  -- From a positive rate every change is computed: the division does not panic.
  pub relative_change-some :
      (current new : Q)
      → lt num.zero current ≡ true
      → (d : Q) × (relative_change num current new ≡ some d)
  unfolding relative_change
  relative_change-some current new p = elim (Bool-cases (lt new current)) [
    | inl e ↦ rw e (num.div_some _ current p)
    | inr e ↦ rw e (num.div_some _ current p)
  ]

  -- For a positive current rate and a new rate that is not below it, the relative change is at most
  -- h exactly when 100 * new is at most h * current + 100 * current.
  pub relative_change-increase :
      (current new d h : Q)
      → lt num.zero current ≡ true
      → lt new current ≡ false
      → relative_change num current new ≡ some d
      → AtMost lt d h
        ↔ AtMost lt
            (mul new (from_integer 100))
            (add (mul h current) (mul current (from_integer 100)))
  unfolding relative_change
  relative_change-increase current new d h p up e =
      quotient_iff current new current d h p (rw up at e)

  -- For a positive current rate and a new rate below it, the relative change is at most h exactly
  -- when 100 * current is at most h * current + 100 * new.
  pub relative_change-decrease :
      (current new d h : Q)
      → lt num.zero current ≡ true
      → lt new current ≡ true
      → relative_change num current new ≡ some d
      → AtMost lt d h
        ↔ AtMost lt
            (mul current (from_integer 100))
            (add (mul h current) (mul new (from_integer 100)))
  unfolding relative_change
  relative_change-decrease current new d h p down e =
      quotient_iff new current current d h p (rw down at e)

  -- From a rate of zero the division panics.
  pub relative_change-none :
      (current new : Q) → Same lt current num.zero → relative_change num current new ≡ none
  unfolding relative_change
  relative_change-none current new z = elim (Bool-cases (lt new current)) [
    | inl e ↦ rw e (num.div_zero _ current z)
    | inr e ↦ rw e (num.div_zero _ current z)
  ]
