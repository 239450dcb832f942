-- ===== src/Sources/Pull/Ending.antt =====
-- How a round of pull_exchange_rate in src/sources.rs ends: the history, and whether the
-- task runs on.
use concordium_euro2ccd_serv.Base.{ℕ, ◌≡◌, sym, ap, ◌∙◌, Bool, Option, none, some}
use concordium_euro2ccd_serv.Config
use concordium_euro2ccd_serv.Rational.{Rational, Float}
use concordium_euro2ccd_serv.Sources.{Source, RateHistory, fmt}
use concordium_euro2ccd_serv.Sources.Backoff.{request_with_backoff}
use concordium_euro2ccd_serv.Sources.Request.{Serde}
use concordium_euro2ccd_serv.Sources.Pull.{
  Task, running, panicked, push_rate, Round, Pulling, count_fails, request, store_recip,
  store_rational, record_reading, take_reading, pull_round,
}
use concordium_euro2ccd_serv.Sources.Pull.History.{record_reading-history}

module _ (num : Rational) (float : Float num) (serde : Serde float.F) where
  open num use {Q}
  open float use {F}

  -- The history and whether the task runs on.
  abbrev pub ending : Task (Pulling num float serde) → RateHistory Q × Bool
  ending (running p) = (p.rate_history, Bool.true)
  ending (panicked p) = (p.rate_history, Bool.false)

  store_rational-ending :
      (max now : ℕ) (o : Option Q) (s s' : Pulling num float serde)
      → s.rate_history ≡ s'.rate_history
      → ending (store_rational num float serde max now o s)
        ≡ ending (store_rational num float serde max now o s')
  unfolding store_rational
  store_rational-ending max now none s s' e = ap (λ h. (h, Bool.true)) e
  store_rational-ending max now (some q) s s' e = stored (num.recip q)
    where
      stored :
          (o : Option Q)
          → ending (store_recip num float serde max now o s)
            ≡ ending (store_recip num float serde max now o s')
      stored none = ap (λ h. (h, Bool.false)) e
      stored (some rate) = ap (λ h. (push_rate max rate now h, Bool.true)) e

  module _ (source : Source) (max : ℕ) (pool : Bool) (r : Round num float serde) where
    take_reading-ending :
        (o : Option F) (s s' : Pulling num float serde)
        → s.rate_history ≡ s'.rate_history
        → ending (take_reading num float serde source max pool r o s)
          ≡ ending (take_reading num float serde source max pool r o s')
    unfolding take_reading
    take_reading-ending none s s' e = ap (λ h. (h, Bool.true)) e
    take_reading-ending (some v) s s' e =
        store_rational-ending max r.now (float.from_float v)
          (record_reading num float serde source max pool r v s)
          (record_reading num float serde source max pool r v s')
          (record_reading-history num float serde source max pool r v s
            ∙ e
            ∙ sym (record_reading-history num float serde source max pool r v s'))

    -- Two rounds from one history end alike.
    pub pull_round-ending :
        (s s' : Pulling num float serde)
        → s.rate_history ≡ s'.rate_history
        → ending (pull_round num float serde source max pool r s)
          ≡ ending (pull_round num float serde source max pool r s')
    unfolding pull_round
    pull_round-ending s s' e =
        let (v, events) =
          request_with_backoff (request num float serde source max pool r)
            Config.initial_retry_interval Config.max_retries in
        take_reading-ending v
          (record s { stats = count_fails num float serde r.found (fmt source) events s.stats })
          (record s' { stats = count_fails num float serde r.found (fmt source) events s'.stats }) e
