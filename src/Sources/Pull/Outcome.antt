-- ===== src/Sources/Pull/Outcome.antt =====
-- The history that one round of pull_exchange_rate in src/sources.rs leaves, whether the task runs on or
-- panics.
use concordium_euro2ccd_serv.Base.{
  ℕ, ◌≤◌, ◌≡◌, refl, sym, ap, ◌∙◌, subst, Bool, Option, none, some, All, length,
}
use concordium_euro2ccd_serv.Config
use concordium_euro2ccd_serv.Rational.{Rational, Float}
use concordium_euro2ccd_serv.Sources.{Source, RateHistory, fmt}
use concordium_euro2ccd_serv.Sources.Backoff.{
  request_with_backoff, request_with_backoff-first_success,
}
use concordium_euro2ccd_serv.Sources.Request.{Serde}
use concordium_euro2ccd_serv.Sources.Pull.{
  Task, state_of, running, Round, Pulling, count_fails, store_recip, store_rational, request,
  record_reading, take_reading, pull_round,
}
use concordium_euro2ccd_serv.Sources.Pull.History.{
  received, inverse, converted, record_reading-history, accepted, length-received,
}
use concordium_euro2ccd_serv.Sources.Pull.Positive.{
  IsPositive, received-IsPositive, accepted-IsPositive,
}

module _ (num : Rational) (float : Float num) (serde : Serde float.F) where
  open num use {Q}
  open float use {F}

  store_rational-received :
      (max now : ℕ) (o : Option Q) (s : Pulling num float serde)
      → (state_of (store_rational num float serde max now o s)).rate_history
        ≡ received max now (inverse num float serde o) s.rate_history
  unfolding store_rational
  store_rational-received max now none s = refl
  store_rational-received max now (some q) s = stored (num.recip q)
    where
      stored :
          (o : Option Q)
          → (state_of (store_recip num float serde max now o s)).rate_history
            ≡ received max now o s.rate_history
      stored none = refl
      stored (some rate) = refl

  store_rational-running :
      (max now : ℕ) (o : Option Q) (q : Q) (s : Pulling num float serde)
      → inverse num float serde o ≡ some q
      → (s' : Pulling num float serde) × (store_rational num float serde max now o s ≡ running s')
  unfolding store_rational
  store_rational-running max now none q s h = cc
  store_rational-running max now (some x) q s h = stored (num.recip x) h
    where
      stored :
          (o : Option Q)
          → o ≡ some q
          → (s' : Pulling num float serde) × (store_recip num float serde max now o s ≡ running s')
      stored none h = cc
      stored (some rate) h = (_, refl)

  module _ (source : Source) (max : ℕ) (pool : Bool) where
    take_reading-received :
        (r : Round num float serde) (v : Option F) (s : Pulling num float serde)
        → (state_of (take_reading num float serde source max pool r v s)).rate_history
          ≡ received max r.now (converted num float serde v) s.rate_history
    unfolding take_reading
    take_reading-received r none s = refl
    take_reading-received r (some v) s =
        store_rational-received max r.now (float.from_float v)
          (record_reading num float serde source max pool r v s)
        ∙ ap (received max r.now (converted num float serde (some v)))
            (record_reading-history num float serde source max pool r v s)

    pub pull_round-received :
        (r : Round num float serde) (s : Pulling num float serde)
        → (state_of (pull_round num float serde source max pool r s)).rate_history
          ≡ received max r.now (accepted num float serde source max pool r) s.rate_history
    unfolding pull_round accepted
    pull_round-received r s =
        let (v, events) =
          request_with_backoff (request num float serde source max pool r)
            Config.initial_retry_interval Config.max_retries in
        take_reading-received r v
          (record s { stats = count_fails num float serde r.found (fmt source) events s.stats })
        ∙ ap (λ v. received max r.now (converted num float serde v) s.rate_history)
            (request_with_backoff-first_success (request num float serde source max pool r)
              Config.initial_retry_interval Config.max_retries).0

    take_reading-running :
        (r : Round num float serde) (v : Option F) (q : Q) (s : Pulling num float serde)
        → converted num float serde v ≡ some q
        → (s' : Pulling num float serde) × (take_reading num float serde source max pool r v s
            ≡ running s')
    unfolding take_reading
    take_reading-running r none q s h = cc
    take_reading-running r (some v) q s h =
        store_rational-running max r.now (float.from_float v) q
          (record_reading num float serde source max pool r v s) h

    pull_round-running :
        (r : Round num float serde) (q : Q) (s : Pulling num float serde)
        → accepted num float serde source max pool r ≡ some q
        → (s' : Pulling num float serde) × (pull_round num float serde source max pool r s
            ≡ running s')
    unfolding pull_round accepted
    pull_round-running r q s h =
        let asks = request num float serde source max pool r in
        let (v, events) =
          request_with_backoff asks Config.initial_retry_interval Config.max_retries in
        take_reading-running r v q
          (record s { stats = count_fails num float serde r.found (fmt source) events s.stats })
          (ap (converted num float serde)
              (request_with_backoff-first_success asks Config.initial_retry_interval
                Config.max_retries).0
            ∙ h)

    -- A round that takes a rate in does not panic, and the rate is in the history.
    pub pull_round-accepted :
        (r : Round num float serde) (q : Q) (s : Pulling num float serde)
        → accepted num float serde source max pool r ≡ some q
        → (s' : Pulling num float serde) × (pull_round num float serde source max pool r s
            ≡ running s')
          × (s'.rate_history ≡ received max r.now (some q) s.rate_history)
    pull_round-accepted r q s h =
        let (s', e) = runs in
        (
          s',
          e,
          ap (λ (t : Task (Pulling num float serde)). (state_of t).rate_history) (sym e)
              ∙ pull_round-received r s
              ∙ ap (λ o. received max r.now o s.rate_history) h,
        )
      where
        runs :
            (s' : Pulling num float serde) × (pull_round num float serde source max pool r s
              ≡ running s')
        runs = pull_round-running r q s h

    -- A history of positive rates that is no longer than it may be.
    abbrev pub IsKept : RateHistory Q → Type 0
    IsKept h = All (IsPositive num) h.rates × (length h.rates ≤ max)

    pub pull_round-IsKept :
        (r : Round num float serde) (s : Pulling num float serde)
        → IsKept s.rate_history
        → IsKept (state_of (pull_round num float serde source max pool r s)).rate_history
    pull_round-IsKept r s (all, le) = subst IsKept (sym (pull_round-received r s)) (
      received-IsPositive num max r.now (accepted num float serde source max pool r) s.rate_history
          (accepted-IsPositive num float serde source max pool r) all,
      length-received max r.now (accepted num float serde source max pool r) s.rate_history le,
    )
