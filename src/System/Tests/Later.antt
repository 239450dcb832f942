-- ===== src/System/Tests/Later.antt =====
-- src/main.rs and src/sources.rs together, after a cycle, after a task's round, and after a halt with
-- a restart.
use concordium_euro2ccd_serv.Base.{ℕ, suc, ◌≡◌, refl, false, none, some, List, [], ◌∷◌, ◌++◌, ok}
use concordium_euro2ccd_serv.Rational.{Fraction, fractions, readings}
use concordium_euro2ccd_serv.Helpers.{compute_median}
use concordium_euro2ccd_serv.Helpers.Euclid.{euclid}
use concordium_euro2ccd_serv.Sources.Backoff.{request_with_backoff}
use concordium_euro2ccd_serv.Sources.Request.{request_exchange_rate, parse_response}
use concordium_euro2ccd_serv.Sources.Pull.{pull_round}
use concordium_euro2ccd_serv.Sources.Tests.{plain}
use concordium_euro2ccd_serv.Node.{BlockItem}
use concordium_euro2ccd_serv.Node.Retries.{last_seq}
use concordium_euro2ccd_serv.Node.Tests.{numbers}
use concordium_euro2ccd_serv.Main.Options.{chosen_sources}
use concordium_euro2ccd_serv.Main.Tests.{app}
use concordium_euro2ccd_serv.Main.Cycle.{went_on, derive_rate, source_median}
use concordium_euro2ccd_serv.Main.Cycle.Allowed.{Allowed}
use concordium_euro2ccd_serv.Main.Cycle.Tests.{
  int, thresholds, service, around, second_node, delivers, jump, jump_rate, jump_outside,
}
use concordium_euro2ccd_serv.Main.Start.{thresholds_of, start}
use concordium_euro2ccd_serv.Main.Start.Tests.{label, setup, locked_start, restarted}
use concordium_euro2ccd_serv.System.{
  System, spawn, pulled, looked, acted, Step, pull, look, act, here, next,
}
use concordium_euro2ccd_serv.System.Changes.{Came, spawn-Came}
use concordium_euro2ccd_serv.System.Progress.{Reads, all_read, spawn_progress}
use concordium_euro2ccd_serv.System.Program.{Runs}
use concordium_euro2ccd_serv.System.Restart.{acted_restart}
use concordium_euro2ccd_serv.System.Silence.{StaysQuiet}
use concordium_euro2ccd_serv.System.Tests.{task, begin, Reaches, good, cycle}

spawn-Came_example :
    Came fractions readings euclid.gcd numbers plain
      (3 ∷ [])
      thresholds
      false
      2
      (int 40000000)
      (cycle service).0
spawn-Came_example =
    spawn-Came fractions readings euclid.gcd numbers plain (3 ∷ []) thresholds false 2 (λ i. "test")
      app service (cycle service).0 refl (cycle service).1

-- A round has taken a rate in, which the main loop has not read yet.
abbrev rounded : System fractions readings euclid.gcd numbers plain
rounded =
    pulled fractions readings euclid.gcd numbers plain (3 ∷ []) thresholds false 2 good [] task []
      (begin service)

rounds : Reaches (begin service) rounded × (rounded.status ≡ went_on)
unfolding spawn pulled chosen_sources
rounds = (next here (pull good [] task [] refl refl (λ e. cc)), refl)

abbrev all_rounded : System fractions readings euclid.gcd numbers plain
all_rounded =
    all_read fractions readings euclid.gcd numbers plain (3 ∷ []) thresholds false 2 rounded

rounded_rate :
    (rate : Fraction) × (derive_rate fractions rounded.service.last_update_timestamp
        all_rounded.seen
      ≡ some rate)
    × Allowed fractions thresholds rounded.service.prev_rate rate
    × (rounded.service.signer ≡ some 5)
unfolding spawn pulled chosen_sources derive_rate source_median compute_median pull_round
    request_with_backoff request_exchange_rate parse_response
rounded_rate = (_, refl, refl, refl)

abbrev updated : System fractions readings euclid.gcd numbers plain
updated =
    acted fractions readings euclid.gcd numbers plain (3 ∷ []) thresholds false 2 second_node
      all_rounded

spawn_progress_example :
    Reads fractions readings euclid.gcd numbers plain
      (3 ∷ [])
      thresholds
      false
      2
      rounded
      all_rounded
    × Step fractions readings euclid.gcd numbers plain
        (3 ∷ [])
        thresholds
        false
        2
        all_rounded
        updated
    × (updated.status ≡ went_on)
    × (updated.service.prev_rate ≡ rounded_rate.0)
    × (seq : ℕ) × (sent : List (BlockItem numbers)) × (updated.items ≡ rounded.items ++ sent)
    × (last_seq numbers none sent ≡ some seq)
    × (updated.service.seq_number ≡ suc seq)
spawn_progress_example =
    spawn_progress fractions readings euclid.gcd numbers plain (3 ∷ []) thresholds false 2
      (λ i. "test") app service rounded second_node 5 rounded_rate.0 refl rounds.0 rounds.1
      rounded_rate.3 rounded_rate.1 rounded_rate.2 delivers refl

-- The cycle has read a history with a tenfold rate.
abbrev jumped : System fractions readings euclid.gcd numbers plain
jumped = record {
  workers = task ∷ [];
  service = service;
  seen = jump;
  items = [];
  status = went_on;
}

abbrev halted : System fractions readings euclid.gcd numbers plain
halted = acted fractions readings euclid.gcd numbers plain (3 ∷ []) thresholds false 2 around jumped

restarts :
    start fractions readings euclid.gcd numbers label halted.service.lock_file app setup
    ≡ ok locked_start.0
unfolding acted
restarts = restarted

-- The service that is started again, with its own options: a round, the read and the rest of a cycle.
runs_again :
    (u : System fractions readings euclid.gcd numbers plain) × Runs fractions readings euclid.gcd
      numbers plain label halted.service.lock_file app setup locked_start.0 u
unfolding spawn pulled looked chosen_sources pull_round request_with_backoff request_exchange_rate
    parse_response
runs_again = (
  _,
  next (next (next here (pull good [] task [] refl refl (λ e. cc))) (look [] _ [] refl refl refl))
      (act around refl refl),
)

acted_restart_example :
    StaysQuiet fractions readings euclid.gcd numbers plain (3 ∷ []) thresholds false 2 jumped halted
    × StaysQuiet fractions readings euclid.gcd numbers plain
        (3 ∷ [])
        (thresholds_of fractions readings euclid.gcd numbers app)
        false
        app.max_rates_saved
        (begin locked_start.0)
        runs_again.0
    × (runs_again.0.items ≡ [])
acted_restart_example =
    acted_restart fractions readings euclid.gcd numbers plain (3 ∷ []) thresholds false 2 label
      around jump_rate.0 jumped halted runs_again.0 app setup locked_start.0 jump_rate.1 refl
      jump_outside refl here restarts runs_again.1
