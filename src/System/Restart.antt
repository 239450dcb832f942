-- ===== src/System/Restart.antt =====
-- src/main.rs and src/sources.rs together: a cycle that halts, what follows it, and a start after that.
use mathlib.Core.List.{append-nil}
use concordium_euro2ccd_serv.Base.{
  ℕ, ℤ, ◌≡◌, ap, ◌∙◌, inr, Bool, true, ◌||◌, none, some, List, [], ◌++◌, map, String, ok,
}
use concordium_euro2ccd_serv.Rational.{Rational, Float}
use concordium_euro2ccd_serv.Sources.Request.{Serde}
use concordium_euro2ccd_serv.Node.{Sdk}
use concordium_euro2ccd_serv.Main.Options.{App}
use concordium_euro2ccd_serv.Main.Cycle.{Thresholds, derive_rate, Service, Around}
use concordium_euro2ccd_serv.Main.Cycle.Safety.{WithinHalt}
use concordium_euro2ccd_serv.Main.Cycle.Halt.{main_cycle_protects}
use concordium_euro2ccd_serv.Main.Cycle.Locked.{main_cycle-lock_file}
use concordium_euro2ccd_serv.Main.Start.{Setup, thresholds_of, start}
use concordium_euro2ccd_serv.Main.Start.Restart.{start-IsProtected_iff}
use concordium_euro2ccd_serv.System.{
  System, spawn, pulled, looked, acted, Step, pull, look, act, Reach, here, next,
}
use concordium_euro2ccd_serv.System.Program.{is_some, Runs}
use concordium_euro2ccd_serv.System.Silence.{StaysQuiet, Reach-StaysQuiet}

module _ (num : Rational) (float : Float num) (gcd : ℤ → ℤ → ℕ) (sdk : Sdk) (serde : Serde float.F)
    (endpoint : List sdk.Endpoint) (thresholds : Thresholds num) (db_conn_pool : Bool)
    (max_rates_saved : ℕ) where
  open num use {Q, lt}

  -- The state after a cycle that halts.
  record Halted (s t : System num float gcd sdk serde) : Type 0 where
    quiet : StaysQuiet num float gcd sdk serde endpoint thresholds db_conn_pool max_rates_saved s t
    locked : t.service.lock_file ≡ true

  acted-Halted :
      (a : Around num float gcd sdk) (rate : Q) (s : System num float gcd sdk serde)
      → derive_rate num s.service.last_update_timestamp s.seen ≡ some rate
      → lt num.zero s.service.prev_rate ≡ true
      → ¬ WithinHalt num thresholds s.service.prev_rate rate
      → (s.service.lock_file || a.creates_lock_file) ≡ true
      → Halted s
          (acted num float gcd sdk serde endpoint thresholds db_conn_pool max_rates_saved a s)
  unfolding acted
  acted-Halted a rate s derived p outside locks =
      let (t, lock) =
        main_cycle_protects num float gcd sdk endpoint thresholds db_conn_pool a s.seen rate
          s.service derived p outside in
      record {
        quiet = record {
          protected = (t.signer, t.protected);
          items = ap (λ xs. s.items ++ xs) t.items ∙ append-nil s.items;
          prev_rate = t.prev_rate;
          seq_number = t.seq_number;
        };
        locked = lock ∙ locks;
      }

  Step-locked :
      {s t : System num float gcd sdk serde}
      → Step num float gcd sdk serde endpoint thresholds db_conn_pool max_rates_saved s t
      → s.service.signer ≡ none
      → s.service.lock_file ≡ true
      → t.service.lock_file ≡ true
  unfolding pulled looked acted
  Step-locked {s} (pull r before w after e alive up) n l = l
  Step-locked {s} (look before w after e turn up) n l = l
  Step-locked {s} (act a full up) n l =
      main_cycle-lock_file num float gcd sdk endpoint thresholds db_conn_pool a s.seen s.service n l

  Reach-Halted :
      {s t u : System num float gcd sdk serde}
      → Reach num float gcd sdk serde endpoint thresholds db_conn_pool max_rates_saved t u
      → Halted s t
      → Halted s u
  Reach-Halted here h = h
  Reach-Halted {s} {t} (next r st) h =
      let before = Reach-Halted r h in
      let q =
        Reach-StaysQuiet num float gcd sdk serde endpoint thresholds db_conn_pool max_rates_saved
          (next r st) h.quiet.protected in
      record {
        quiet = record {
          protected = q.protected;
          items = q.items ∙ h.quiet.items;
          prev_rate = q.prev_rate ∙ h.quiet.prev_rate;
          seq_number = q.seq_number ∙ h.quiet.seq_number;
        };
        locked = Step-locked st before.quiet.protected.0 before.locked;
      }

  -- If the rate of the histories that a cycle has read is outside the halt thresholds of a positive
  -- previous rate, and the lock file exists or can be created in that cycle, then from its end on,
  -- however the tasks and the main loop interleave, nothing is sent and the previous rate and the
  -- sequence number stay; and a service that is started with the lock file that is there at any later
  -- time, with any options and setup, and that then runs with the nodes, thresholds, database and number
  -- of rates of those options, enters the protected mode and sends nothing either, however its tasks
  -- and its main loop interleave.
  pub acted_restart :
      (test_label : ℕ → String) (a : Around num float gcd sdk) (rate : Q)
      (s t u : System num float gcd sdk serde) (app : App) (setup : Setup num float gcd sdk)
      (s' : Service num float gcd sdk)
      → derive_rate num s.service.last_update_timestamp s.seen ≡ some rate
      → lt num.zero s.service.prev_rate ≡ true
      → ¬ WithinHalt num thresholds s.service.prev_rate rate
      → (s.service.lock_file || a.creates_lock_file) ≡ true
      → Reach num float gcd sdk serde endpoint thresholds db_conn_pool max_rates_saved
          (acted num float gcd sdk serde endpoint thresholds db_conn_pool max_rates_saved a s)
          t
      → start num float gcd sdk test_label t.service.lock_file app setup ≡ ok s'
      → Runs num float gcd sdk serde test_label t.service.lock_file app setup s' u
      → StaysQuiet num float gcd sdk serde endpoint thresholds db_conn_pool max_rates_saved s t
        × StaysQuiet num float gcd sdk serde
            (map setup.endpoint app.endpoint)
            (thresholds_of num float gcd sdk app)
            (is_some app.database_url)
            app.max_rates_saved
            (spawn num float gcd sdk serde test_label app s')
            u
        × (u.items ≡ [])
  unfolding spawn
  acted_restart test_label a rate s t u app setup s' derived p outside locks r started r' =
      let halted = Reach-Halted r (acted-Halted a rate s derived p outside locks) in
      let nodes = map setup.endpoint app.endpoint in
      let bounds = thresholds_of num float gcd sdk app in
      let q =
        Reach-StaysQuiet num float gcd sdk serde nodes bounds (is_some app.database_url)
          app.max_rates_saved r'
          ((start-IsProtected_iff num float gcd sdk test_label nodes bounds
              (is_some app.database_url) t.service.lock_file app setup s' started).1
            (inr halted.locked)) in
      (halted.quiet, q, q.items)
