-- ===== src/Sources/Pull/Effect/Steps.antt =====
-- The effects of each step of a round of pull_exchange_rate in src/sources.rs, and of the whole round.
use concordium_euro2ccd_serv.Base.{
  ℕ, suc, ◌+◌, ◌≡◌, refl, ap, ◌∙◌, inl, inr, Bool, true, false, Option, none, some, List, [], ◌∷◌,
  String, arith,
}
use concordium_euro2ccd_serv.Config
use concordium_euro2ccd_serv.Rational.{Rational, Float}
use concordium_euro2ccd_serv.Prometheus
use concordium_euro2ccd_serv.Prometheus.{Stats, Labelled}
use concordium_euro2ccd_serv.Database.{Database, write_read_rate}
use concordium_euro2ccd_serv.Sources.{Source, fmt}
use concordium_euro2ccd_serv.Sources.Backoff.{Event, attempt, on_fail, sleep, request_with_backoff}
use concordium_euro2ccd_serv.Sources.Request.{Serde}
use concordium_euro2ccd_serv.Sources.Pull.{
  state_of, Round, Pulling, count_fails, note_write, save_reading, store_recip, store_rational,
  request, record_reading, take_reading, pull_round,
}
use concordium_euro2ccd_serv.Sources.Pull.Effect.{
  Effect, on_db, idle, on_stats-idle, on_db-idle, run_statement-cases, Acts, Acts-after,
}

module _ (num : Rational) (float : Float num) (serde : Serde float.F) where
  open num use {Q}
  open float use {F}

  -- Methods of the metrics, as steps of the task.
  Acts-increment_read_attempts :
      (found : Bool) (label : String)
      → Acts num float serde
          (λ s. record s { stats = Prometheus.increment_read_attempts F found label s.stats })
  unfolding Prometheus.increment_read_attempts
  Acts-increment_read_attempts false label = record {
    effect = idle;
    stats = λ s. on_stats-idle s.stats;
    db = λ s. on_db-idle s.db;
  }
  Acts-increment_read_attempts true label = record {
    effect = record idle {
      attempts = λ m. Prometheus.set_label label (suc (Prometheus.value_or_zero F (m label))) m;
    };
    stats = λ s. on_stats-idle (Prometheus.increment_read_attempts F true label s.stats);
    db = λ s. on_db-idle s.db;
  }

  Acts-reset_read_attempts :
      (found : Bool) (label : String)
      → Acts num float serde
          (λ s. record s { stats = Prometheus.reset_read_attempts F found label s.stats })
  unfolding Prometheus.reset_read_attempts
  Acts-reset_read_attempts false label = record {
    effect = idle;
    stats = λ s. on_stats-idle s.stats;
    db = λ s. on_db-idle s.db;
  }
  Acts-reset_read_attempts true label = record {
    effect = record idle { attempts = λ m. Prometheus.set_label label 0 m };
    stats = λ s. on_stats-idle (Prometheus.reset_read_attempts F true label s.stats);
    db = λ s. on_db-idle s.db;
  }

  Acts-update_read_rate :
      (found : Bool) (v : F) (label : String)
      → Acts num float serde
          (λ s. record s { stats = Prometheus.update_read_rate F found v label s.stats })
  unfolding Prometheus.update_read_rate
  Acts-update_read_rate false v label = record {
    effect = idle;
    stats = λ s. on_stats-idle s.stats;
    db = λ s. on_db-idle s.db;
  }
  Acts-update_read_rate true v label = record {
    effect = record idle { read = λ m. Prometheus.set_label label v m };
    stats = λ s. on_stats-idle (Prometheus.update_read_rate F true v label s.stats);
    db = λ s. on_db-idle s.db;
  }

  Acts-count_fails :
      (found : Bool) (label : String) (es : List Event)
      → Acts num float serde
          (λ s. record s { stats = count_fails num float serde found label es s.stats })
  unfolding count_fails
  Acts-count_fails found label [] = record {
    effect = idle;
    stats = λ s. on_stats-idle s.stats;
    db = λ s. on_db-idle s.db;
  }
  Acts-count_fails found label (attempt ∷ es) = Acts-count_fails found label es
  Acts-count_fails found label (sleep t ∷ es) = Acts-count_fails found label es
  Acts-count_fails found label (on_fail t ∷ es) =
      Acts-after num float serde _ _ (Acts-increment_read_attempts found label)
        (Acts-count_fails found label es)

  Acts-save_reading :
      (pool : Bool) (r : Round num float serde) (label : String) (v : F)
      → Acts num float serde (save_reading num float serde pool r label v)
  unfolding save_reading note_write write_read_rate Prometheus.increment_failed_database_updates
  Acts-save_reading false r label v = record {
    effect = idle;
    stats = λ s. on_stats-idle s.stats;
    db = λ s. on_db-idle s.db;
  }
  Acts-save_reading true r label v = elim (run_statement-cases {A = Database F} r.access) [
    | inl runs ↦ record {
      effect = added;
      stats = λ s.
          ap (λ w. (note_write num float serde w s).stats) (runs (on_db added s.db))
          ∙ on_stats-idle s.stats;
      db = λ s. ap (λ w. (note_write num float serde w s).db) (runs (on_db added s.db));
    }
    | inr (fault, fails) ↦ record {
      effect = record idle { failures = 1 };
      stats = λ s.
          ap (λ w. (note_write num float serde w s).stats) (fails (on_db added s.db))
          ∙ ap (λ n. record s.stats { failed_database_updates = n })
              (let e : suc s.stats.failed_database_updates ≡ 1 + s.stats.failed_database_updates =
                  omega arith in
                e);
      db = λ s.
          ap (λ w. (note_write num float serde w s).db) (fails (on_db added s.db))
          ∙ on_db-idle s.db;
    }
  ]
    where
      added : Effect F
      added = record idle {
        rows = record { value = v; timestamp = r.written_at; label = label } ∷ [];
      }

  store_rational-shared :
      (max now : ℕ) (o : Option Q) (s : Pulling num float serde)
      → ((state_of (store_rational num float serde max now o s)).stats ≡ s.stats)
        × ((state_of (store_rational num float serde max now o s)).db ≡ s.db)
  unfolding store_rational
  store_rational-shared max now none s = (refl, refl)
  store_rational-shared max now (some q) s = stored (num.recip q)
    where
      stored :
          (o : Option Q)
          → ((state_of (store_recip num float serde max now o s)).stats ≡ s.stats)
            × ((state_of (store_recip num float serde max now o s)).db ≡ s.db)
      stored none = (refl, refl)
      stored (some rate) = (refl, refl)

  module _ (source : Source) (max : ℕ) (pool : Bool) where
    Acts-record_reading :
        (r : Round num float serde) (v : F)
        → Acts num float serde (record_reading num float serde source max pool r v)
    unfolding record_reading
    Acts-record_reading r v =
        Acts-after num float serde _ _
          (Acts-after num float serde _ _ (Acts-reset_read_attempts r.found (fmt source))
            (Acts-save_reading pool r (fmt source) v))
          (Acts-update_read_rate r.found v (fmt source))

    Acts-take_reading :
        (r : Round num float serde) (o : Option F)
        → Acts num float serde (λ s. state_of (take_reading num float serde source max pool r o s))
    unfolding take_reading
    Acts-take_reading r none = Acts-increment_read_attempts r.found (fmt source)
    Acts-take_reading r (some v) =
        let a = Acts-record_reading r v in
        record {
          effect = a.effect;
          stats = λ s.
              (store_rational-shared max r.now (float.from_float v)
                (record_reading num float serde source max pool r v s)).0
              ∙ a.stats s;
          db = λ s.
              (store_rational-shared max r.now (float.from_float v)
                (record_reading num float serde source max pool r v s)).1
              ∙ a.db s;
        }

    pub Acts-pull_round :
        (r : Round num float serde)
        → Acts num float serde (λ s. state_of (pull_round num float serde source max pool r s))
    unfolding pull_round
    Acts-pull_round r =
        let (result, events) =
          request_with_backoff (request num float serde source max pool r)
            Config.initial_retry_interval Config.max_retries in
        Acts-after num float serde _ _ (Acts-count_fails r.found (fmt source) events)
          (Acts-take_reading r result)
