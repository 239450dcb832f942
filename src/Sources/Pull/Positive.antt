-- ===== src/Sources/Pull/Positive.antt =====
-- pull_exchange_rate of src/sources.rs: the sign of the rates that it stores, and a reading of zero.
use concordium_euro2ccd_serv.Base.{
  ℕ, zero, suc, ◌≡◌, refl, sym, ap, ◌∙◌, subst, Bool, true, false, Option, none, some, Option-cases,
  List, [], ◌∷◌, ◌++◌, length, All, All-append, All-drop, ltb, Bool-cases, inl, inr, value_of_some,
}
use concordium_euro2ccd_serv.Config
use concordium_euro2ccd_serv.Rational.{Rational, Float, AtMost, Same}
use concordium_euro2ccd_serv.Sources.{Source, RateHistory, fmt}
use concordium_euro2ccd_serv.Sources.Backoff.{
  first_success, request_with_backoff, request_with_backoff-first_success,
}
use concordium_euro2ccd_serv.Sources.Request.{Serde, request_exchange_rate-some_iff}
use concordium_euro2ccd_serv.Sources.Pull.{
  running, panicked, Round, Pulling, store_recip, store_rational, request, take_reading,
  record_reading, count_fails, pull_round, pull_exchange_rate,
}
use concordium_euro2ccd_serv.Sources.Pull.History.{
  inverse, converted, accepted, received, pull_round-history, pull_exchange_rate_cons,
  pull_exchange_rate_nil, record_reading-history,
}

-- A success of the retries is the success of one attempt.
first_success-some :
    {T : Type 0} (request_fn : ℕ → Option T) (i retries : ℕ) (v : T)
    → first_success request_fn i retries ≡ some v
    → (j : ℕ) × (request_fn j ≡ some v)
first_success-some f i zero v h = (i, h)
first_success-some f i (suc retries) v h = elim (Option-cases (f i)) [
  | inl e ↦ first_success-some f (suc i) retries v (rw (e, first_success) at h)
  | inr (w, e) ↦ (i, e ∙ (rw (e, first_success) at h))
]

module _ (num : Rational) where
  open num use {Q, lt}

  abbrev pub IsPositive : Q → Type 0
  IsPositive q = lt num.zero q ≡ true

  -- The inverse of a value that is not negative is positive, if there is one.
  recip-IsPositive : (p q : Q) → AtMost lt num.zero p → num.recip p ≡ some q → IsPositive q
  recip-IsPositive p q nonneg h = elim (Bool-cases (lt num.zero p)) [
    | inl e ↦
        let (q', has, positive) = num.recip_some p e in
        subst IsPositive (value_of_some (sym has ∙ h)) positive
    | inr e ↦ absurd (let z : num.recip p ≡ none = num.recip_zero p (e, nonneg) in cc)
  ]

  pub received-IsPositive :
      (max now : ℕ) (o : Option Q) (h : RateHistory Q)
      → ((q : Q) → o ≡ some q → IsPositive q)
      → All IsPositive h.rates
      → All IsPositive (received max now o h).rates
  received-IsPositive max now none h p all = all
  received-IsPositive max now (some q) h p all =
      elim (Bool-cases (ltb max (length (h.rates ++ q ∷ [])))) [
        | inl e ↦ rw e (All-drop IsPositive 1 (h.rates ++ q ∷ []) with_new)
        | inr e ↦ rw e with_new
      ]
    where
      with_new : All IsPositive (h.rates ++ q ∷ [])
      with_new = All-append IsPositive h.rates (q ∷ []) all (p q refl, tt)

module _ (num : Rational) (float : Float num) (serde : Serde float.F) where
  open num use {Q, lt}
  open float use {F}

  inverse-IsPositive :
      (o : Option Q) (q : Q)
      → ((p : Q) → o ≡ some p → AtMost lt num.zero p)
      → inverse num float serde o ≡ some q
      → IsPositive num q
  inverse-IsPositive none q nonneg h = cc
  inverse-IsPositive (some p) q nonneg h = recip-IsPositive num p q (nonneg p refl) h

  converted-IsPositive :
      (o : Option F) (q : Q)
      → ((v : F) → o ≡ some v → float.is_negative v ≡ false)
      → converted num float serde o ≡ some q
      → IsPositive num q
  converted-IsPositive none q checked h = cc
  converted-IsPositive (some v) q checked h =
      inverse-IsPositive (float.from_float v) q
        (λ p e. float.from_float_nonneg v p (checked v refl) e) h

  module _ (source : Source) (max : ℕ) (pool : Bool) where
    requested-nonneg :
        (r : Round num float serde) (v : F)
        → first_success (request num float serde source max pool r) 0 Config.max_retries ≡ some v
        → float.is_negative v ≡ false
    requested-nonneg r v h =
        let (j, e) =
          first_success-some (request num float serde source max pool r) 0 Config.max_retries v h in
        let (resp, bytes, sent, success, read, parsed, nonneg) =
          (request_exchange_rate-some_iff serde float.is_negative (r.send j) source v).0 e in
        nonneg

    pub accepted-IsPositive :
        (r : Round num float serde) (q : Q)
        → accepted num float serde source max pool r ≡ some q
        → IsPositive num q
    unfolding accepted
    accepted-IsPositive r q e = converted-IsPositive _ q (requested-nonneg r) e

    pull_round-IsPositive :
        (r : Round num float serde) (s s' : Pulling num float serde)
        → All (IsPositive num) s.rate_history.rates
        → pull_round num float serde source max pool r s ≡ running s'
        → All (IsPositive num) s'.rate_history.rates
    pull_round-IsPositive r s s' all h =
        subst (λ (x : RateHistory Q). All (IsPositive num) x.rates)
          (sym (pull_round-history num float serde source max pool r s s' h))
          (received-IsPositive num max r.now (accepted num float serde source max pool r)
            s.rate_history (accepted-IsPositive r) all)

    -- If all rates of a history are positive, they still are after any rounds that no panic ends.
    pub pull_exchange_rate-IsPositive :
        (rs : List (Round num float serde)) (s s' : Pulling num float serde)
        → All (IsPositive num) s.rate_history.rates
        → pull_exchange_rate num float serde source max pool rs s ≡ running s'
        → All (IsPositive num) s'.rate_history.rates
    pull_exchange_rate-IsPositive [] s s' all h =
        subst (λ xs. All (IsPositive num) xs)
          (pull_exchange_rate_nil num float serde source max pool s s' h) all
    pull_exchange_rate-IsPositive (r ∷ rs) s s' all h =
        let (s₁, first, rest) =
          pull_exchange_rate_cons num float serde source max pool r rs s s' h in
        pull_exchange_rate-IsPositive rs s₁ s' (pull_round-IsPositive r s s₁ all first) rest

    store_rational-zero :
        (now : ℕ) (q : Q) (s : Pulling num float serde)
        → Same lt q num.zero
        → store_rational num float serde max now (some q) s ≡ panicked s
    unfolding store_rational
    store_rational-zero now q s z =
        ap (λ o. store_recip num float serde max now o s) (num.recip_zero q z)

    take_reading-zero :
        (r : Round num float serde) (v : F) (q : Q) (s : Pulling num float serde)
        → float.from_float v ≡ some q
        → Same lt q num.zero
        → (s' : Pulling num float serde) × (take_reading num float serde source max pool r
              (some v)
              s
            ≡ panicked s')
          × (s'.rate_history ≡ s.rate_history)
    unfolding take_reading
    take_reading-zero r v q s e z = (
      record_reading num float serde source max pool r v s,
      ap
            (λ o.
              store_rational num float serde max r.now o
                (record_reading num float serde source max pool r v s))
            e
          ∙ store_rational-zero r.now q _ z,
      record_reading-history num float serde source max pool r v s,
    )

    pub pull_round-zero :
        (r : Round num float serde) (v : F) (q : Q) (s : Pulling num float serde)
        → first_success (request num float serde source max pool r) 0 Config.max_retries ≡ some v
        → float.from_float v ≡ some q
        → Same lt q num.zero
        → (s' : Pulling num float serde) × (pull_round num float serde source max pool r s
            ≡ panicked s')
          × (s'.rate_history ≡ s.rate_history)
    unfolding pull_round
    pull_round-zero r v q s got e z =
        let result =
          (request_with_backoff-first_success (request num float serde source max pool r)
            Config.initial_retry_interval Config.max_retries).0
          ∙ got in
        let counted = record s {
          stats =
              count_fails num float serde r.found (fmt source)
                (request_with_backoff (request num float serde source max pool r)
                  Config.initial_retry_interval Config.max_retries).1
                s.stats;
        } in
        let (s', stop, same) = take_reading-zero r v q counted e z in
        (s', ap (λ o. take_reading num float serde source max pool r o counted) result ∙ stop, same)

    -- If a round reads a value that converts to zero, which the test for negative values lets pass,
    -- the task panics in that round and no later round runs, whatever the exchange would answer:
    -- the history stays as it was before that round.
    pub pull_exchange_rate-zero :
        (r : Round num float serde) (rs : List (Round num float serde)) (v : F) (q : Q)
        (s : Pulling num float serde)
        → first_success (request num float serde source max pool r) 0 Config.max_retries ≡ some v
        → float.from_float v ≡ some q
        → Same lt q num.zero
        → (s' : Pulling num float serde) × (pull_exchange_rate num float serde source max pool
              (r ∷ rs)
              s
            ≡ panicked s')
          × (s'.rate_history ≡ s.rate_history)
    pull_exchange_rate-zero r rs v q s got e z =
        let (s', stop, same) = pull_round-zero r v q s got e z in
        (s', unfold pull_exchange_rate in rw (stop, pull_exchange_rate), same)
