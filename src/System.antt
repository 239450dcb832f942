-- ===== src/System.antt =====
-- The composition of src/main.rs and src/sources.rs: one task for each source and the main loop, which
-- share the histories, the metrics and the database, as a step relation over their interleavings.
pub mod Soundness
pub mod Silence
pub mod Stopped
pub mod Commute
pub mod EndToEnd
pub mod Changes
pub mod Progress
pub mod Restart
pub mod Program
pub mod FirstUpdate
pub mod Audit
pub mod Refinement
mod Tests
use concordium_euro2ccd_serv.Base.{
  ℕ, ℤ, ◌≡◌, ◌≢◌, Bool, true, false, Option, List, [], ◌∷◌, ◌++◌, map, String, length,
}
use concordium_euro2ccd_serv.Rational.{Rational, Float}
use concordium_euro2ccd_serv.Sources.{Source, RateHistory}
use concordium_euro2ccd_serv.Sources.Request.{Serde}
use concordium_euro2ccd_serv.Sources.Pull
use concordium_euro2ccd_serv.Sources.Pull.{Task, running, state_of, Round, Pulling, pull_round}
use concordium_euro2ccd_serv.Node.{Sdk, BlockItem}
use concordium_euro2ccd_serv.Main.Options.{App, chosen_sources}
use concordium_euro2ccd_serv.Main.Cycle.{
  Status, went_on, panicked, Thresholds, Service, Around, main_cycle,
}

module _ (num : Rational) (float : Float num) (gcd : ℤ → ℤ → ℕ) (sdk : Sdk)
    (serde : Serde float.F) where
  open num use {Q}

  -- A source's task with the history that it shares with the main loop. A task that panicked is not
  -- alive.
  pub record Worker : Type 0 where
    pub source : Source
    pub rate_history : RateHistory Q
    pub alive : Bool

  -- The tasks; the main loop's variables with the shared metrics and database; the histories that the
  -- cycle has read so far, each as it was under its lock; and what was sent, the first first.
  pub record System : Type 0 where
    pub workers : List Worker
    pub service : Service num float gcd sdk
    pub seen : List (RateHistory Q)
    pub items : List (BlockItem sdk)
    pub status : Status

  -- The closure `add_source`: a fresh history and a task.
  abbrev pub add_source : Source → Worker
  add_source source = record {
    source = source;
    rate_history = record { rates = []; last_reading_timestamp = 0 };
    alive = true;
  }

  -- The system as the main loop is entered.
  unfoldable pub spawn : (ℕ → String) → App → Service num float gcd sdk → System
  spawn test_label app service = record {
    workers = map add_source (chosen_sources test_label app);
    service = service;
    seen = [];
    items = [];
    status = went_on;
  }

  -- What a task's round reads and changes.
  abbrev pub pulling : Worker → Service num float gcd sdk → Pulling num float serde
  pulling w s = record { stats = s.stats; rate_history = w.rate_history; db = s.db }

  pub settle : Task (Pulling num float serde) → Worker → Worker
  settle (running p) w = record w { rate_history = p.rate_history }
  settle (Task.panicked p) w = record w { rate_history = p.rate_history; alive = false }

  abbrev pub share : Pulling num float serde → Service num float gcd sdk → Service num float gcd sdk
  share p s = record s { stats = p.stats; db = p.db }

  module _ (endpoint : List sdk.Endpoint) (thresholds : Thresholds num) (db_conn_pool : Bool)
      (max_rates_saved : ℕ) where
    abbrev pub round :
        Round num float serde → Worker → Service num float gcd sdk → Task (Pulling num float serde)
    round r w s = pull_round num float serde w.source max_rates_saved db_conn_pool r (pulling w s)

    -- After a round of one task.
    unfoldable pub pulled :
        Round num float serde → List Worker → Worker → List Worker → System → System
    unfolding settle
    pulled r before w after s =
        let t = round r w s.service in
        record s { workers = before ++ settle t w ∷ after; service = share (state_of t) s.service }

    -- After the main loop has taken the median of one more history.
    unfoldable pub looked : RateHistory Q → System → System
    looked history s = record s { seen = s.seen ++ history ∷ [] }

    -- After the rest of the cycle.
    unfoldable pub acted : Around num float gcd sdk → System → System
    acted a s =
        let t = main_cycle num float gcd sdk endpoint thresholds db_conn_pool a s.seen s.service in
        record s { service = t.service; seen = []; items = s.items ++ t.items; status = t.status }

    -- Any task takes a round, or the main loop reads the next history, or, after the last one, ends
    -- the cycle. A panic of the main loop ends all; a cycle that waits for a node lets the tasks run.
    pub data Step (s : System) : System → Type 0 where
      pull :
          (r : Round num float serde) (before : List Worker) (w : Worker) (after : List Worker)
          → s.workers ≡ before ++ w ∷ after
          → w.alive ≡ true
          → s.status ≢ panicked
          → Step s (pulled r before w after s)
      look :
          (before : List Worker) (w : Worker) (after : List Worker)
          → s.workers ≡ before ++ w ∷ after
          → length before ≡ length s.seen
          → s.status ≡ went_on
          → Step s (looked w.rate_history s)
      act :
          (a : Around num float gcd sdk)
          → length s.seen ≡ length s.workers
          → s.status ≡ went_on
          → Step s (acted a s)

    pub data Reach (s : System) : System → Type 0 where
      here : Reach s s
      next : {t u : System} → Reach s t → Step t u → Reach s u
