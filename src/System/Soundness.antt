-- ===== src/System/Soundness.antt =====
-- src/main.rs and src/sources.rs together: an invariant of the histories, the previous rate, the status
-- of the main loop, and the items that a step sends.
use concordium_euro2ccd_serv.Base.{
  ℕ, ℤ, ◌≡◌, ◌≢◌, refl, sym, subst, Bool, some, List, [], ◌∷◌, ◌++◌, map, String, All, All-append,
  All-map, All-left, All-right, arith,
}
use mathlib.Core.List.{append-nil}
use concordium_euro2ccd_serv.Rational.{Rational, Float}
use concordium_euro2ccd_serv.Helpers.{convert_big_fraction_to_exchange_rate}
use concordium_euro2ccd_serv.Sources.{Source, RateHistory}
use concordium_euro2ccd_serv.Sources.Request.{Serde}
use concordium_euro2ccd_serv.Sources.Pull.{Task, running, state_of, Round, Pulling}
use concordium_euro2ccd_serv.Sources.Pull.Positive.{IsPositive}
use concordium_euro2ccd_serv.Sources.Pull.Outcome.{IsKept, pull_round-IsKept}
use concordium_euro2ccd_serv.Node.{Sdk, BlockItem}
use concordium_euro2ccd_serv.Main.Options.{App, chosen_sources}
use concordium_euro2ccd_serv.Main.Cycle.{panicked, Thresholds, Service, Around}
use concordium_euro2ccd_serv.Main.Cycle.Safety.{WithinHalt, main_cycle-IsJustified}
use concordium_euro2ccd_serv.Main.Cycle.Positive.{ArePositive, derive_rate-IsPositive}
use concordium_euro2ccd_serv.Main.Cycle.Running.{main_cycle-status, main_cycle-IsPositive}
use concordium_euro2ccd_serv.System.{
  Worker, System, add_source, spawn, pulling, settle, round, pulled, looked, acted, Step, pull,
  look, act, Reach, here, next,
}

module _ (num : Rational) (float : Float num) (gcd : ℤ → ℤ → ℕ) (sdk : Sdk) (serde : Serde float.F)
    (endpoint : List sdk.Endpoint) (thresholds : Thresholds num) (db_conn_pool : Bool)
    (max_rates_saved : ℕ) where
  open num use {Q}

  -- An item that carries the conversion of a positive rate within the halt thresholds of a given one.
  abbrev pub IsBounded : Q → BlockItem sdk → Type 0
  IsBounded prev item =
      (rate : Q) × IsPositive num rate
      × (convert_big_fraction_to_exchange_rate gcd num rate ≡ some item.micro_gtu_per_euro)
      × WithinHalt num thresholds prev rate

  -- What is sent between two states, bounded by the previous rate of the first.
  abbrev pub Sends : System num float gcd sdk serde → System num float gcd sdk serde → Type 0
  Sends s t =
      (new : List (BlockItem sdk)) × (t.items ≡ s.items ++ new)
      × All (IsBounded s.service.prev_rate) new

  abbrev pub IsKeptBy : Worker num float gcd sdk serde → Type 0
  IsKeptBy w = IsKept num float serde w.source max_rates_saved db_conn_pool w.rate_history

  pub record IsSound (s : System num float gcd sdk serde) : Type 0 where
    pub histories : All IsKeptBy s.workers
    pub seen : ArePositive num s.seen
    pub prev_rate : IsPositive num s.service.prev_rate
    pub status : s.status ≢ panicked

  settle-IsKeptBy :
      (t : Task (Pulling num float serde)) (w : Worker num float gcd sdk serde)
      → IsKept num float serde w.source max_rates_saved db_conn_pool (state_of t).rate_history
      → IsKeptBy (settle num float gcd sdk serde t w)
  unfolding settle
  settle-IsKeptBy (running p) w h = h
  settle-IsKeptBy (Task.panicked p) w h = h

  pulled-IsSound :
      (r : Round num float serde) (before : List (Worker num float gcd sdk serde))
      (w : Worker num float gcd sdk serde) (after : List (Worker num float gcd sdk serde))
      (s : System num float gcd sdk serde)
      → s.workers ≡ before ++ w ∷ after
      → IsSound s
      → IsSound (
          pulled num float gcd sdk serde endpoint thresholds db_conn_pool max_rates_saved r before w
            after s)
  unfolding pulled
  pulled-IsSound r before w after s e h =
      let all = subst (All IsKeptBy) e h.histories in
      let (kept, rest) = All-right IsKeptBy before (w ∷ after) all in
      record {
        histories = All-append IsKeptBy before _ (All-left IsKeptBy before (w ∷ after) all) (
          settle-IsKeptBy
              (round num float gcd sdk serde endpoint thresholds db_conn_pool max_rates_saved r w
                s.service)
              w
              (pull_round-IsKept num float serde w.source max_rates_saved db_conn_pool r
                (pulling num float gcd sdk serde w s.service) kept),
          rest,
        );
        seen = h.seen;
        prev_rate = h.prev_rate;
        status = h.status;
      }

  looked-IsSound :
      (before : List (Worker num float gcd sdk serde)) (w : Worker num float gcd sdk serde)
      (after : List (Worker num float gcd sdk serde)) (s : System num float gcd sdk serde)
      → s.workers ≡ before ++ w ∷ after
      → IsSound s
      → IsSound (
          looked num float gcd sdk serde endpoint thresholds db_conn_pool max_rates_saved
            w.rate_history s)
  unfolding looked
  looked-IsSound before w after s e h =
      let kept = All-right IsKeptBy before (w ∷ after) (subst (All IsKeptBy) e h.histories) in
      record {
        histories = h.histories;
        seen =
            All-append (λ (x : RateHistory Q). All (IsPositive num) x.rates) s.seen _ h.seen
              (kept.0.0, tt);
        prev_rate = h.prev_rate;
        status = h.status;
      }

  acted-IsSound :
      (a : Around num float gcd sdk) (s : System num float gcd sdk serde)
      → IsSound s
      → IsSound (acted num float gcd sdk serde endpoint thresholds db_conn_pool max_rates_saved a s)
  unfolding acted
  acted-IsSound a s h = record {
    histories = h.histories;
    seen = tt;
    prev_rate =
        main_cycle-IsPositive num float gcd sdk endpoint thresholds db_conn_pool a s.seen s.service
          h.prev_rate h.seen;
    status =
        main_cycle-status num float gcd sdk endpoint thresholds db_conn_pool a s.seen s.service
          h.prev_rate;
  }

  pub Step-IsSound :
      {s t : System num float gcd sdk serde}
      → Step num float gcd sdk serde endpoint thresholds db_conn_pool max_rates_saved s t
      → IsSound s
      → IsSound t
  Step-IsSound {s} (pull r before w after e alive up) h = pulled-IsSound r before w after s e h
  Step-IsSound {s} (look before w after e turn up) h = looked-IsSound before w after s e h
  Step-IsSound {s} (act a full up) h = acted-IsSound a s h

  pub Reach-IsSound :
      {s t : System num float gcd sdk serde}
      → Reach num float gcd sdk serde endpoint thresholds db_conn_pool max_rates_saved s t
      → IsSound s
      → IsSound t
  Reach-IsSound here h = h
  Reach-IsSound (next r st) h = Step-IsSound st (Reach-IsSound r h)

  add_source-IsKeptBy :
      (sources : List Source) → All IsKeptBy (map (add_source num float gcd sdk serde) sources)
  add_source-IsKeptBy [] = tt
  add_source-IsKeptBy (x ∷ xs) = ((tt, omega arith), add_source-IsKeptBy xs)

  Step-Sends :
      {s t : System num float gcd sdk serde}
      → Step num float gcd sdk serde endpoint thresholds db_conn_pool max_rates_saved s t
      → IsSound s
      → Sends s t
  unfolding pulled looked acted
  Step-Sends {s} (pull r before w after e alive up) h = ([], sym (append-nil s.items), tt)
  Step-Sends {s} (look before w after e turn up) h = ([], sym (append-nil s.items), tt)
  Step-Sends {s} (act a full up) h = (
    _,
    refl,
    All-map _ (IsBounded s.service.prev_rate) _
        (λ item (rate, derived, converted, within). (
          rate,
          derive_rate-IsPositive num s.service.last_update_timestamp s.seen rate h.seen derived,
          converted,
          within,
        ))
        (main_cycle-IsJustified num float gcd sdk endpoint thresholds db_conn_pool a s.seen
          s.service h.prev_rate),
  )

  pub spawned-IsSound :
      (test_label : ℕ → String) (app : App) (service : Service num float gcd sdk)
      (s : System num float gcd sdk serde)
      → IsPositive num service.prev_rate
      → Reach num float gcd sdk serde endpoint thresholds db_conn_pool max_rates_saved
          (spawn num float gcd sdk serde test_label app service)
          s
      → IsSound s
  unfolding spawn
  spawned-IsSound test_label app service s p r = Reach-IsSound r (record {
    histories = add_source-IsKeptBy (chosen_sources test_label app);
    seen = tt;
    prev_rate = p;
    status = λ e. cc;
  })

  -- However the tasks and the main loop interleave, from the start with a positive rate on chain: after
  -- every step all histories hold positive rates only, and no more than they may, the previous rate is
  -- positive, and the main loop has not panicked; and every block item that the step sent carries the
  -- conversion of a positive rate within the halt thresholds of the previous rate before the step.
  pub spawn-IsSound :
      (test_label : ℕ → String) (app : App) (service : Service num float gcd sdk)
      (s t : System num float gcd sdk serde)
      → IsPositive num service.prev_rate
      → Reach num float gcd sdk serde endpoint thresholds db_conn_pool max_rates_saved
          (spawn num float gcd sdk serde test_label app service)
          s
      → Step num float gcd sdk serde endpoint thresholds db_conn_pool max_rates_saved s t
      → IsSound t × Sends s t
  spawn-IsSound test_label app service s t p r st =
      let h = spawned-IsSound test_label app service s p r in (Step-IsSound st h, Step-Sends st h)
