-- ===== src/Main/Cycle/Derive.antt =====
-- The rate that the main loop of src/main.rs derives from the histories: when there is none, and what
-- bounds it.
use concordium_euro2ccd_serv.Base.{
  ℕ, ◌*◌, ◌<◌, ◌≤◌, arith, ◌≡◌, ◌↔◌, refl, sym, ap, ◌∙◌, ◌⊎◌, inl, inr, not, Option, none, some,
  Option-cases, List, [], ◌∷◌, ◌++◌, map, length, All, ltb, ◌==◌, Bool-cases, ==_iff, lt→ltb,
  ltb→lt, true, false, value_of_some,
}
use concordium_euro2ccd_serv.Rational.{Rational, AtMost}
use concordium_euro2ccd_serv.Helpers.{compute_median}
use concordium_euro2ccd_serv.Helpers.Sort.{count_if}
use concordium_euro2ccd_serv.Helpers.Ranks.{compute_median-none_iff, compute_median_majority}
use concordium_euro2ccd_serv.Sources.{RateHistory}
use concordium_euro2ccd_serv.Sources.Pull.History.{to_list}
use concordium_euro2ccd_serv.Main.Cycle.{
  keep_some, collect, source_median, median_of_medians, in_micro, derive_rate,
}

-- The values of the options that have one.
abbrev values : {Q : Type 0} → List (Option Q) → List Q
values [] = []
values (o ∷ os) = to_list o ++ values os

collect-keep_some : {Q : Type 0} (os : List (Option Q)) → collect (keep_some os) ≡ some (values os)
collect-keep_some [] = refl
collect-keep_some (none ∷ os) = collect-keep_some os
collect-keep_some (some q ∷ os) = rw (collect-keep_some os) refl

module _ (num : Rational) where
  open num use {Q, lt, from_integer, mul}

  -- The medians of the sources that count.
  abbrev pub fresh_medians : ℕ → List (RateHistory Q) → List Q
  fresh_medians last_update_timestamp rate_histories =
      values (map (source_median num last_update_timestamp) rate_histories)

  median_of_medians-some : (ms : List Q) → median_of_medians num (some ms) ≡ compute_median num ms
  median_of_medians-some [] = sym ((compute_median-none_iff num []).1 refl)
  median_of_medians-some (m ∷ ms) = refl

  pub derive_rate-medians :
      (ts : ℕ) (hs : List (RateHistory Q))
      → derive_rate num ts hs ≡ in_micro num (compute_median num (fresh_medians ts hs))
  unfolding derive_rate
  derive_rate-medians ts hs =
      ap (λ o. in_micro num (median_of_medians num o))
        (collect-keep_some (map (source_median num ts) hs))
      ∙ ap (in_micro num) (median_of_medians-some (fresh_medians ts hs))

  -- A source that does not count: it never had a reading, or its last is older than the last update,
  -- or its history is empty.
  abbrev pub IsStale : ℕ → RateHistory Q → Type 0
  IsStale last_update_timestamp h =
      (h.last_reading_timestamp ≡ 0)
      ⊎ ((h.last_reading_timestamp < last_update_timestamp) ⊎ (h.rates ≡ []))

  pub source_median-none_iff :
      (ts : ℕ) (h : RateHistory Q) → (source_median num ts h ≡ none) ↔ IsStale ts h
  unfolding source_median
  source_median-none_iff ts h = elim (Bool-cases (h.last_reading_timestamp == 0)) [
    | inl e ↦ rw e (λ x. inl ((==_iff _ _).0 e), λ x. refl)
    | inr e ↦ elim (Bool-cases (ltb h.last_reading_timestamp ts)) [
      | inl l ↦ rw (e, l) (λ x. inr (inl (ltb→lt _ _ l)), λ x. refl)
      | inr l ↦
          let (there, back) = compute_median-none_iff num h.rates in
          rw (e, l)
            (
              λ x. inr (inr (there x)),
              λ s. elim s [
                | inl z ↦ let bad : true ≡ false = sym ((==_iff _ _).1 z) ∙ e in cc
                | inr (inl z) ↦ let bad : true ≡ false = sym (lt→ltb _ _ z) ∙ l in cc
                | inr (inr z) ↦ back z
              ],
            )
    ]
  ]

  fresh_medians-nil_iff :
      (ts : ℕ) (hs : List (RateHistory Q)) → (fresh_medians ts hs ≡ []) ↔ All (IsStale ts) hs
  fresh_medians-nil_iff ts [] = (λ e. tt, λ a. refl)
  fresh_medians-nil_iff ts (h ∷ hs) =
      let (stale, back) = source_median-none_iff ts h in
      let (there, again) = fresh_medians-nil_iff ts hs in
      elim (Option-cases (source_median num ts h)) [
        | inl e ↦ rw e (λ n. (stale e, there n), λ a. again a.1)
        | inr (q, e) ↦ rw e (λ n. cc, λ a. let bad : some q ≡ none = sym e ∙ back a.0 in cc)
      ]

  in_micro-none_iff : (o : Option Q) → (in_micro num o ≡ none) ↔ (o ≡ none)
  in_micro-none_iff none = (λ e. refl, λ e. refl)
  in_micro-none_iff (some q) = (λ e. cc, λ e. cc)

  -- A cycle derives no rate exactly if every source is stale: it never had a reading, or its last is
  -- older than the last update, or its history is empty.
  pub derive_rate-none_iff :
      (last_update_timestamp : ℕ) (rate_histories : List (RateHistory Q))
      → (derive_rate num last_update_timestamp rate_histories ≡ none)
        ↔ All (IsStale last_update_timestamp) rate_histories
  derive_rate-none_iff ts hs =
      let e = derive_rate-medians ts hs in
      let (a, a') = in_micro-none_iff (compute_median num (fresh_medians ts hs)) in
      let (b, b') = compute_median-none_iff num (fresh_medians ts hs) in
      let (c, c') = fresh_medians-nil_iff ts hs in
      (λ n. c (b (a (sym e ∙ n))), λ all. e ∙ a' (b' (c' all)))

  -- If a cycle derives a rate, and more than half of the medians of the sources that are not stale
  -- are at least lo and more than half are at most hi, then the rate is a million times a value
  -- between lo and hi.
  pub derive_rate_majority :
      (last_update_timestamp : ℕ) (rate_histories : List (RateHistory Q)) (rate lo hi : Q)
      → derive_rate num last_update_timestamp rate_histories ≡ some rate
      → let ms = fresh_medians last_update_timestamp rate_histories in
        length ms < 2 * count_if (λ x. not (lt x lo)) ms
        → length ms < 2 * count_if (λ x. not (lt hi x)) ms
        → (m : Q) × (rate ≡ mul m (from_integer 1000000)) × AtMost lt lo m × AtMost lt m hi
  derive_rate_majority ts hs rate lo hi derived many_lo many_hi =
      elim (Option-cases (compute_median num (fresh_medians ts hs))) [
        | inl e ↦
            let bad : none ≡ some rate =
              sym (derive_rate-medians ts hs ∙ ap (in_micro num) e) ∙ derived in
            cc
        | inr (m, e) ↦
            let (above, below) =
              compute_median_majority num (fresh_medians ts hs) m lo hi e many_lo many_hi in
            (
              m,
              value_of_some (sym derived ∙ derive_rate-medians ts hs ∙ ap (in_micro num) e),
              above,
              below,
            )
      ]

  -- One source with one reading that is not stale: its rate in micro CCD.
  pub derive_rate-one :
      (last_update_timestamp now : ℕ) (rate : Q)
      → 0 < now
      → last_update_timestamp ≤ now
      → derive_rate num last_update_timestamp
          (record { rates = rate ∷ []; last_reading_timestamp = now } ∷ [])
        ≡ some (mul rate (from_integer 1000000))
  unfolding derive_rate source_median compute_median
  derive_rate-one ts now rate pos_ le = elim (Bool-cases (now == 0)) [
    | inl e ↦ let z : now ≡ 0 = (==_iff _ _).0 e in absurd (omega (arith, z, pos_))
    | inr e ↦ elim (Bool-cases (ltb now ts)) [
      | inl l ↦ absurd (omega (arith, ltb→lt _ _ l, le))
      | inr l ↦ rw (e, l) refl
    ]
  ]
