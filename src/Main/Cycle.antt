-- ===== src/Main/Cycle.antt =====
-- The main loop of src/main.rs: one cycle as a function of the histories that it reads and of what the
-- clock, the file system, the nodes and the database answer in it, and the run of several cycles.
pub mod Rate
pub mod Safety
pub mod Protected
pub mod Halt
pub mod Confirmed
pub mod Derive
pub mod Positive
pub mod Running
pub mod Frame
pub mod Allowed
pub mod Delivery
pub mod Changes
pub mod Locked
pub mod Signers
pub mod Recorded
pub mod Protocol
pub mod Tests
use concordium_euro2ccd_serv.Base.{
  ℕ, ℤ, Bool, true, false, ◌||◌, Option, none, some, List, [], ◌∷◌, ◌++◌, map, Result, ok, err, ltb,
  ◌==◌, if◌then◌else◌,
}
use concordium_euro2ccd_serv.Rational.{Rational, Float}
use concordium_euro2ccd_serv.Helpers.{
  ExchangeRate, compute_median, relative_change, convert_big_fraction_to_exchange_rate,
}
use concordium_euro2ccd_serv.Prometheus
use concordium_euro2ccd_serv.Prometheus.{Stats}
use concordium_euro2ccd_serv.Database.{Database, Access, Fault, write_update_rate}
use concordium_euro2ccd_serv.Sources.{RateHistory}
use concordium_euro2ccd_serv.Node.{
  Sdk, BlockItem, Tick, Progress, trying, gave_up, sent, Sending, send_update, get_node_client,
}
pub use concordium_euro2ccd_serv.Main.Cycle.Rate.{
  Verdict, halt, warn, fine, keep_some, collect, Thresholds, median_of_medians, in_micro,
}
unfoldable pub use concordium_euro2ccd_serv.Main.Cycle.Rate.{source_median, derive_rate, judge}

-- The result of waiting for an update to be finalized within the allowed time.
pub data Finality : Type 0 where
  finalized : Finality
  query_failed : Finality
  timed_out : Finality

-- Whether a cycle came to its end, still waits for the node, or panicked.
pub data Status : Type 0 where
  went_on waiting panicked : Status

-- The attempt to create the lock file: whether the file exists after it.
abbrev pub force_dry_run : (creates : Bool) → (exists : Bool) → Bool
force_dry_run creates exists = exists || creates

module _ (num : Rational) (float : Float num) (gcd : ℤ → ℤ → ℕ) (sdk : Sdk) where
  open num use {Q}
  open float use {F}
  open sdk use {UpdateSequenceNumber, Signer, Client, Endpoint}

  -- The variables of the main loop, the lock file, the metrics and the database.
  pub record Service : Type 0 where
    pub seq_number : UpdateSequenceNumber
    pub prev_rate : Q
    pub last_update_timestamp : ℕ
    pub signer : Option Signer
    pub node_client : Client
    pub stats : Stats F
    pub lock_file : Bool
    pub db : Database F

  -- One call of send_update, by the ticks that it sees, and the connections that are possible when a
  -- new node is looked for after it.
  pub record Visit : Type 0 where
    pub ticks : List (Tick sdk)
    pub connect : Endpoint → Option Client

  -- What happens around one cycle.
  pub record Around : Type 0 where
    pub now : ℕ
    pub creates_lock_file : Bool
    pub visits : List Visit
    pub finality : Finality
    pub access : Access
    pub written_at : ℕ

  -- A cycle's end: the variables, what was sent, and how it ended.
  pub record Turn : Type 0 where
    pub service : Service
    pub items : List (BlockItem sdk)
    pub status : Status

  abbrev pub turn : Status → Service → Turn
  turn status s = record { service = s; items = []; status = status }

  -- A turn and, if it came to its end, the rest of the loop.
  pub followed_by : Status → Turn → Turn → Turn
  followed_by went_on t rest = record rest { items = t.items ++ rest.items }
  followed_by waiting t rest = t
  followed_by panicked t rest = t

  pub data Submitted : Type 0 where
    pending : Submitted
    no_node : Submitted
    submitted : UpdateSequenceNumber → Submitted

  pub record Submission : Type 0 where
    pub outcome : Submitted
    pub service : Service
    pub items : List (BlockItem sdk)

  abbrev pub sent_before : List (BlockItem sdk) → Submission → Submission
  sent_before items s = record s { items = items ++ s.items }

  module _ (endpoint : List Endpoint) where
    -- What follows a call of send_update: the loop is left, or a new node is looked for.
    unfoldable pub after_send : Progress sdk → Visit → (Service → Submission) → Service → Submission
    after_send trying v again s = record { outcome = pending; service = s; items = [] }
    after_send (sent submission_id seq) v again s = record {
      outcome = submitted seq;
      service = s;
      items = [];
    }
    after_send gave_up v again s = elim (get_node_client sdk v.connect endpoint) [
      | none ↦ record { outcome = no_node; service = s; items = [] }
      | some client ↦ again (record s { node_client = client })
    ]

    -- The loop that sends the update, to a new node whenever one is given up.
    pub submit_loop : Signer → ExchangeRate → List Visit → Service → Submission
    submit_loop signer new_rate [] s = record { outcome = pending; service = s; items = [] }
    submit_loop signer new_rate (v ∷ vs) s =
        let sending = send_update sdk F signer new_rate s.seq_number v.ticks s.stats in
        sent_before sending.items (
          after_send sending.progress v (submit_loop signer new_rate vs)
            (record s { stats = sending.stats }))

    module _ (thresholds : Thresholds num) (db_conn_pool : Bool) where
      pub note_update : Result Fault (Database F) → Service → Service
      note_update (ok db) s = record s { db = db }
      note_update (err e) s = record s {
        stats = Prometheus.increment_failed_database_updates F s.stats;
      }

      -- The update is final: it becomes the previous rate.
      pub confirm : Around → Q → ExchangeRate → UpdateSequenceNumber → Service → Service
      unfolding note_update
      confirm a rate new_rate new_seq_number s =
          let updated = record s {
            seq_number = sdk.next new_seq_number;
            stats = Prometheus.update_updated_rate F (float.to_f64 rate) s.stats;
            prev_rate = rate;
          } in
          if db_conn_pool
          then note_update (write_update_rate a.access a.written_at new_rate updated.db) updated
          else updated

      pub after_finality :
          Finality → Around → Q → ExchangeRate → UpdateSequenceNumber → Service → Service
      unfolding confirm
      after_finality finalized a rate new_rate seq s = confirm a rate new_rate seq s
      after_finality query_failed a rate new_rate seq s = s
      after_finality timed_out a rate new_rate seq s = s

      pub after_submission : Submitted → Around → Q → ExchangeRate → Service → Service × Status
      unfolding after_finality
      after_submission pending a rate new_rate s = (s, waiting)
      after_submission no_node a rate new_rate s = (s, went_on)
      after_submission (submitted seq) a rate new_rate s =
          (after_finality a.finality a rate new_rate seq s, went_on)

      -- `if let Some(signer) = signer.as_ref() { ... } else { ... }`
      pub submit : Option Signer → Around → Q → ExchangeRate → Service → Turn
      unfolding after_submission submit_loop
      submit none a rate new_rate s = turn went_on s
      submit (some signer) a rate new_rate s =
          let submission = submit_loop signer new_rate a.visits s in
          let (s', status) =
            after_submission submission.outcome a rate new_rate submission.service in
          record { service = s'; items = submission.items; status = status }

      -- `none` stands for a conversion whose fuel ran out.
      pub submit_converted : Option ExchangeRate → Around → Q → Service → Turn
      unfolding submit
      submit_converted none a rate s = turn waiting s
      submit_converted (some new_rate) a rate s = submit s.signer a rate new_rate s

      -- force_dry_run, and the switch to the protected mode.
      pub protect : Around → Service → Service
      protect a s = record s {
        lock_file = force_dry_run a.creates_lock_file s.lock_file;
        signer = none;
        stats = Prometheus.set_protected F s.stats;
      }

      pub on_verdict : Verdict → Around → Q → Service → Turn
      unfolding protect
      on_verdict halt a rate s = turn went_on (protect a s)
      on_verdict warn a rate s =
          submit_converted (convert_big_fraction_to_exchange_rate gcd num rate) a rate
            (record s { stats = Prometheus.increment_warning_threshold_violations F s.stats })
      on_verdict fine a rate s =
          submit_converted (convert_big_fraction_to_exchange_rate gcd num rate) a rate s

      -- The division by a previous rate of zero panics.
      pub on_change : Option Q → Around → Q → Service → Turn
      unfolding on_verdict
      on_change none a rate s = turn panicked s
      on_change (some diff) a rate s =
          on_verdict (judge num thresholds s.prev_rate rate diff) a rate s

      pub on_rate : Option Q → Around → Service → Turn
      unfolding on_change
      on_rate none a s = turn went_on s
      on_rate (some rate) a s =
          on_change (relative_change num s.prev_rate rate) a rate
            (record s { last_update_timestamp = a.now })

      -- One cycle of the main loop.
      unfoldable pub main_cycle : Around → List (RateHistory Q) → Service → Turn
      unfolding on_rate submit_converted
      main_cycle a rate_histories s =
          on_rate (derive_rate num s.last_update_timestamp rate_histories) a s

      -- Several cycles; one that waits or panics is the last.
      unfoldable pub main_loop : List (Around × List (RateHistory Q)) → Service → Turn
      unfolding followed_by
      main_loop [] s = turn went_on s
      main_loop ((a, rate_histories) ∷ cycles) s =
          let t = main_cycle a rate_histories s in
          let rest = main_loop cycles t.service in followed_by t.status t rest
