-- ===== src/Prometheus/Collector.antt =====
-- The metrics of src/prometheus.rs over any run of the methods of Stats, against the calls made.
use concordium_euro2ccd_serv.Base.{
  ℕ, suc, ◌≡◌, ◌≢◌, Bool, Option, none, some, List, [], ◌∷◌, String, arith,
}
use concordium_euro2ccd_serv.Prometheus
use concordium_euro2ccd_serv.Prometheus.{
  Stats, HidingGaugeCollector, Lock, free, poisoned, collect, initialize,
}

-- A call of a method of Stats.
pub data Call (F : Type 0) : Type 0 where
  update_read_rate : Bool → F → String → Call F
  update_updated_rate : Option F → Call F
  increment_warning_threshold_violations : Call F
  increment_read_attempts : Bool → String → Call F
  reset_read_attempts : Bool → String → Call F
  increment_update_attempts : Call F
  reset_update_attempts : Call F
  set_protected : Call F
  increment_failed_database_updates : Call F

module _ (F : Type 0) where
  pub call : Call F → Stats F → Stats F
  call (update_read_rate found v l) s = Prometheus.update_read_rate F found v l s
  call (update_updated_rate v) s = Prometheus.update_updated_rate F v s
  call increment_warning_threshold_violations s =
      Prometheus.increment_warning_threshold_violations F s
  call (increment_read_attempts found l) s = Prometheus.increment_read_attempts F found l s
  call (reset_read_attempts found l) s = Prometheus.reset_read_attempts F found l s
  call increment_update_attempts s = Prometheus.increment_update_attempts F s
  call reset_update_attempts s = Prometheus.reset_update_attempts F s
  call set_protected s = Prometheus.set_protected F s
  call increment_failed_database_updates s = Prometheus.increment_failed_database_updates F s

  -- The calls, the first first.
  pub calls : List (Call F) → Stats F → Stats F
  calls [] s = s
  calls (c ∷ cs) s = calls cs (call c s)

  -- What the calls say: the last rate on chain that had a float, whether the service entered
  -- protected mode, how many warnings and database failures there were, and how many submissions
  -- failed since the last that succeeded.
  pub record View : Type 0 where
    pub last_rate : Option F
    pub protected : ℕ
    pub warnings : ℕ
    pub failed_writes : ℕ
    pub failed_submissions : ℕ

  abbrev pub say : Call F → View → View
  say (update_updated_rate (some v)) w = record w { last_rate = some v }
  say increment_warning_threshold_violations w = record w { warnings = suc w.warnings }
  say set_protected w = record w { protected = 1 }
  say increment_update_attempts w = record w { failed_submissions = suc w.failed_submissions }
  say reset_update_attempts w = record w { failed_submissions = 0 }
  say increment_failed_database_updates w = record w { failed_writes = suc w.failed_writes }
  say _ w = w

  abbrev pub told : List (Call F) → View → View
  told [] w = w
  told (c ∷ cs) w = told cs (say c w)

  abbrev pub silent : View
  silent = record {
    last_rate = none;
    protected = 0;
    warnings = 0;
    failed_writes = 0;
    failed_submissions = 0;
  }

  -- What a scrape shows of the rate on chain.
  abbrev pub shown : Option F → List (Option F)
  shown none = []
  shown (some v) = some v ∷ []

  -- The metrics say what the calls say, and the lock is not poisoned.
  record Agrees (w : View) (s : Stats F) : Type 0 where
    collected : collect F s.exchange_rate_updated ≡ shown w.last_rate
    lock : s.exchange_rate_updated.allow_collect ≢ poisoned
    protected : s.protected ≡ w.protected
    warnings : s.warning_threshold_violations ≡ w.warnings
    failed_writes : s.failed_database_updates ≡ w.failed_writes
    failed_submissions : s.update_attempts ≡ w.failed_submissions

  call-Agrees : (c : Call F) (w : View) (s : Stats F) → Agrees w s → Agrees (say c w) (call c s)
  unfolding call collect Prometheus.update_read_rate Prometheus.update_updated_rate
      Prometheus.increment_warning_threshold_violations Prometheus.increment_read_attempts
      Prometheus.reset_read_attempts Prometheus.increment_update_attempts
      Prometheus.reset_update_attempts Prometheus.set_protected
      Prometheus.increment_failed_database_updates
  call-Agrees (update_updated_rate none) w s a = ground arith
  call-Agrees _ w s a = ground arith

  calls-Agrees :
      (cs : List (Call F)) (w : View) (s : Stats F) → Agrees w s → Agrees (told cs w) (calls cs s)
  unfolding calls
  calls-Agrees [] w s a = a
  calls-Agrees (c ∷ cs) w s a = calls-Agrees cs (say c w) (call c s) (call-Agrees c w s a)

  initialize-Agrees : Agrees silent (initialize F)
  unfolding initialize collect
  initialize-Agrees = ground arith

  -- After any calls of the methods on fresh metrics, a scrape shows the rate on chain exactly if some
  -- update had a float value, and then the last such value; the protected gauge is 1 exactly if
  -- set_protected was called; the warnings and the failed database writes are counted one by one,
  -- and the failed submissions since the last reset.
  pub calls-initialize :
      (cs : List (Call F))
      → let s = calls cs (initialize F) in
        let w = told cs silent in
        (collect F s.exchange_rate_updated ≡ shown w.last_rate)
        × (s.protected ≡ w.protected)
        × (s.warning_threshold_violations ≡ w.warnings)
        × (s.failed_database_updates ≡ w.failed_writes)
        × (s.update_attempts ≡ w.failed_submissions)
  calls-initialize cs =
      let a = calls-Agrees cs silent (initialize F) initialize-Agrees in
      (a.collected, a.protected, a.warnings, a.failed_writes, a.failed_submissions)
