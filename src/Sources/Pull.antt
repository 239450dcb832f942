-- ===== src/Sources/Pull.antt =====
-- pull_exchange_rate of src/sources.rs: one round of its loop as a function of what the environment
-- answers in it, and the run of several rounds.
pub mod History
pub mod Positive
pub mod Stored
pub mod Outcome
pub mod Effect
pub mod Ending
use concordium_euro2ccd_serv.Base.{
  ℕ, ◌≡◌, refl, ◌⊎◌, inl, inr, Bool, true, false, Option, none, some, List, [], ◌∷◌, ◌++◌, String,
  Result, ok, err, length, drop, if◌then◌else◌, ltb,
}
use concordium_euro2ccd_serv.Config
use concordium_euro2ccd_serv.Rational.{Rational, Float}
use concordium_euro2ccd_serv.Prometheus
use concordium_euro2ccd_serv.Prometheus.{Stats}
use concordium_euro2ccd_serv.Database.{Database, Access, Fault, write_read_rate}
use concordium_euro2ccd_serv.Sources.{Source, RateHistory, RequestBuilder, fmt}
use concordium_euro2ccd_serv.Sources.Backoff.{Event, attempt, on_fail, sleep, request_with_backoff}
use concordium_euro2ccd_serv.Sources.Request.{Serde, Response, request_exchange_rate}

-- A task that runs on, or that a panic ended, with the state it leaves.
pub data Task (S : Type 0) : Type 0 where
  running : S → Task S
  panicked : S → Task S

pub running_state : {S : Type 0} {s t : S} → running s ≡ running t → s ≡ t
running_state h = cc

pub Task-cases :
    {S : Type 0} (t : Task S) → ((s : S) × (t ≡ running s)) ⊎ ((s : S) × (t ≡ panicked s))
Task-cases (running s) = inl (s, refl)
Task-cases (panicked s) = inr (s, refl)

-- The state that a task leaves, whether it runs on or not.
abbrev pub state_of : {S : Type 0} → Task S → S
state_of (running s) = s
state_of (panicked s) = s

-- The end of a round, under the history's lock: the new rate goes to the back, and the oldest is
-- dropped if there are more than max_rates_saved.
abbrev pub trim : {Q : Type 0} → ℕ → List Q → List Q
trim max_rates_saved rates = if ltb max_rates_saved (length rates) then drop 1 rates else rates

abbrev pub push_rate : {Q : Type 0} → ℕ → Q → ℕ → RateHistory Q → RateHistory Q
push_rate max_rates_saved rate now history = record {
  rates = trim max_rates_saved (history.rates ++ rate ∷ []);
  last_reading_timestamp = now;
}

module _ (num : Rational) (float : Float num) (serde : Serde float.F) where
  open num use {Q}
  open float use {F}

  -- What happens around one round: the answers to its requests, the fate of its write to the
  -- database and the time of that, the time at its end, and whether the metrics are found.
  pub record Round : Type 0 where
    pub send : ℕ → RequestBuilder → Result serde.Error (Response serde)
    pub access : Access
    pub written_at : ℕ
    pub now : ℕ
    pub found : Bool

  -- What the round reads and changes: the task's metrics and history, and the database.
  pub record Pulling : Type 0 where
    pub stats : Stats F
    pub rate_history : RateHistory Q
    pub db : Database F

  -- Every call of on_fail counts a failed read.
  pub count_fails : Bool → String → List Event → Stats F → Stats F
  count_fails found label [] stats = stats
  count_fails found label (attempt ∷ es) stats = count_fails found label es stats
  count_fails found label (sleep t ∷ es) stats = count_fails found label es stats
  count_fails found label (on_fail t ∷ es) stats =
      count_fails found label es (Prometheus.increment_read_attempts F found label stats)

  -- `if let Some(ref pool) = db_conn_pool { if let Err(e) = ... }`
  pub note_write : Result Fault (Database F) → Pulling → Pulling
  note_write (ok db) s = record s { db = db }
  note_write (err e) s = record s { stats = Prometheus.increment_failed_database_updates F s.stats }

  pub save_reading : Bool → Round → String → F → Pulling → Pulling
  unfolding note_write
  save_reading db_conn_pool r label raw_rate s =
      if db_conn_pool
      then note_write (write_read_rate r.access r.written_at raw_rate label s.db) s
      else s

  -- The inverse of the reading goes into the history; recip panics at zero.
  pub store_recip : ℕ → ℕ → Option Q → Pulling → Task Pulling
  store_recip max_rates_saved now none s = panicked s
  store_recip max_rates_saved now (some rate) s =
      running (record s { rate_history = push_rate max_rates_saved rate now s.rate_history })

  pub store_rational : ℕ → ℕ → Option Q → Pulling → Task Pulling
  unfolding store_recip
  store_rational max_rates_saved now none s = running s
  store_rational max_rates_saved now (some r) s = store_recip max_rates_saved now (num.recip r) s

  module _ (source : Source) (max_rates_saved : ℕ) (db_conn_pool : Bool) where
    abbrev pub request : Round → ℕ → Option F
    request r i = request_exchange_rate serde float.is_negative (r.send i) source

    -- The metrics and the database after a successful request.
    pub record_reading : Round → F → Pulling → Pulling
    unfolding save_reading
    record_reading r raw_rate s =
        let reset = record s {
          stats = Prometheus.reset_read_attempts F r.found (fmt source) s.stats;
        } in
        let saved = save_reading db_conn_pool r (fmt source) raw_rate reset in
        record saved {
          stats = Prometheus.update_read_rate F r.found raw_rate (fmt source) saved.stats;
        }

    pub take_reading : Round → Option F → Pulling → Task Pulling
    unfolding record_reading store_rational
    take_reading r none s =
        running
          (record s { stats = Prometheus.increment_read_attempts F r.found (fmt source) s.stats })
    take_reading r (some raw_rate) s =
        store_rational max_rates_saved r.now (float.from_float raw_rate)
          (record_reading r raw_rate s)

    -- One round of the loop.
    unfoldable pub pull_round : Round → Pulling → Task Pulling
    unfolding take_reading count_fails
    pull_round r s =
        let (result, events) =
          request_with_backoff (request r) Config.initial_retry_interval Config.max_retries in
        take_reading r result (record s { stats = count_fails r.found (fmt source) events s.stats })

    -- The loop over several rounds; a panic ends the task.
    unfoldable pub pull_exchange_rate : List Round → Pulling → Task Pulling
    pull_exchange_rate [] s = running s
    pull_exchange_rate (r ∷ rs) s = elim (pull_round r s) [
      | running s' ↦ pull_exchange_rate rs s'
      | panicked s' ↦ panicked s'
    ]
