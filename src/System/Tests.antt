-- ===== src/System/Tests.antt =====
-- src/main.rs and src/sources.rs together, at one exchange and a concrete node.
pub mod Later
mod Program
use concordium_euro2ccd_serv.Base.{
  ℕ, suc, arith, ◌≡◌, refl, ◌≤◌, ◌⊎◌, true, false, none, some, [], ◌∷◌, length, get_elem?,
}
use concordium_euro2ccd_serv.Rational.{Fraction, fractions, readings}
use concordium_euro2ccd_serv.Helpers.{
  compute_median, relative_change, convert_big_fraction_to_exchange_rate, fit, to_u64,
}
use concordium_euro2ccd_serv.Helpers.Euclid.{euclid}
use concordium_euro2ccd_serv.Sources.{coin_gecko}
use concordium_euro2ccd_serv.Sources.Backoff.{request_with_backoff}
use concordium_euro2ccd_serv.Sources.Request.{request_exchange_rate, parse_response}
use concordium_euro2ccd_serv.Sources.Pull.{Round, pull_round}
use concordium_euro2ccd_serv.Sources.Tests.{plain, frac, reading, round, zero_read}
use concordium_euro2ccd_serv.Node.{send_update, is_unreachable, construct_block_item}
use concordium_euro2ccd_serv.Node.Tests.{numbers}
use concordium_euro2ccd_serv.Main.Options.{chosen_sources}
use concordium_euro2ccd_serv.Main.Tests.{app}
use concordium_euro2ccd_serv.Main.Cycle.{
  Service, main_cycle, derive_rate, source_median, judge, after_send,
}
use concordium_euro2ccd_serv.Main.Cycle.Tests.{
  int, thresholds, service, around, second_node, delivers,
}
use concordium_euro2ccd_serv.System.{
  Worker, System, add_source, spawn, pulled, looked, acted, Step, pull, look, act, Reach, here,
  next,
}
use concordium_euro2ccd_serv.Sources.Pull.History.{accepted}
use concordium_euro2ccd_serv.Node.Retries.{last_seq}
use concordium_euro2ccd_serv.Main.Cycle.{went_on}
use concordium_euro2ccd_serv.Main.Cycle.Allowed.{Allowed}
use concordium_euro2ccd_serv.Main.Cycle.Tests.{jump, jump_rate, jump_outside}
use concordium_euro2ccd_serv.Base.{ok}
use concordium_euro2ccd_serv.Main.Start.{start}
use concordium_euro2ccd_serv.Main.Start.Tests.{label, setup, locked_start, restarted}
use concordium_euro2ccd_serv.System.Restart.{acted_restart}
use concordium_euro2ccd_serv.System.Changes.{Came, spawn-Came}
use concordium_euro2ccd_serv.System.EndToEnd.{first_cycle, spawn_updates}
use concordium_euro2ccd_serv.System.Soundness.{IsSound, Sends, spawn-IsSound}
use concordium_euro2ccd_serv.System.Silence.{StaysQuiet, Reach-StaysQuiet}
use concordium_euro2ccd_serv.System.Stopped.{pulled-zero_stops}
use concordium_euro2ccd_serv.System.Commute.{acted-pulled}

-- One task, for Coin Gecko, and histories of at most two rates.
abbrev pub task : Worker fractions readings euclid.gcd numbers plain
task = add_source fractions readings euclid.gcd numbers plain coin_gecko

abbrev pub begin :
    Service fractions readings euclid.gcd numbers
    → System fractions readings euclid.gcd numbers plain
begin s = spawn fractions readings euclid.gcd numbers plain (λ i. "test") app s

abbrev pub Reaches :
    System fractions readings euclid.gcd numbers plain
    → System fractions readings euclid.gcd numbers plain
    → Type 0
Reaches = Reach fractions readings euclid.gcd numbers plain (3 ∷ []) thresholds false 2

-- A round at 1 / 42 Euro for a CCD, later than the last update.
abbrev pub good : Round fractions readings plain
good = record (round (reading 1 41)) { now = 160 }

-- The rest of the cycle.
abbrev ended :
    System fractions readings euclid.gcd numbers plain
    → System fractions readings euclid.gcd numbers plain
ended = acted fractions readings euclid.gcd numbers plain (3 ∷ []) thresholds false 2 around

abbrev Steps :
    System fractions readings euclid.gcd numbers plain
    → System fractions readings euclid.gcd numbers plain
    → Type 0
Steps = Step fractions readings euclid.gcd numbers plain (3 ∷ []) thresholds false 2

-- The task's round, then the main loop's read of the history; and the rest of its cycle.
ready :
    (s : Service fractions readings euclid.gcd numbers)
    → (t : System fractions readings euclid.gcd numbers plain) × Reaches (begin s) t
      × Steps t (ended t)
unfolding spawn pulled looked chosen_sources pull_round request_with_backoff request_exchange_rate
    parse_response
ready s = (
  _,
  next (next here (pull good [] task [] refl refl (λ e. cc))) (look [] _ [] refl refl refl),
  act around refl refl,
)

pub cycle :
    (s : Service fractions readings euclid.gcd numbers)
    → (t : System fractions readings euclid.gcd numbers plain) × Reaches (begin s) t
cycle s = let (t, reached, step) = ready s in (ended t, next reached step)

cycle_test : length (cycle service).0.items ≡ 2
unfolding cycle ready spawn pulled looked acted chosen_sources main_cycle derive_rate source_median
    compute_median relative_change judge convert_big_fraction_to_exchange_rate send_update fit
    to_u64 is_unreachable after_send construct_block_item pull_round request_with_backoff
    request_exchange_rate parse_response
cycle_test = refl

abbrev protected : Service fractions readings euclid.gcd numbers
protected = record service { signer = none; stats = record service.stats { protected = 1 } }

start_protected :
    ((begin protected).service.signer ≡ none) × ((begin protected).service.stats.protected ≡ 1)
unfolding spawn
start_protected = (refl, refl)

Reach-StaysQuiet_example :
    StaysQuiet fractions readings euclid.gcd numbers plain
      (3 ∷ [])
      thresholds
      false
      2
      (begin protected)
      (cycle protected).0
Reach-StaysQuiet_example =
    Reach-StaysQuiet fractions readings euclid.gcd numbers plain (3 ∷ []) thresholds false 2
      (cycle protected).1 start_protected

-- After the zero the main loop goes on alone.
abbrev pub stopped : System fractions readings euclid.gcd numbers plain
stopped =
    pulled fractions readings euclid.gcd numbers plain (3 ∷ []) thresholds false 2
      (round (reading 0 0)) [] task [] (begin service)

goes_on : (t : System fractions readings euclid.gcd numbers plain) × Reaches stopped t
unfolding spawn pulled looked acted chosen_sources pull_round request_with_backoff
    request_exchange_rate parse_response
goes_on = (_, next (next here (look [] _ [] refl refl refl)) (act around refl refl))

pulled-zero_stops_example :
    (get_elem? goes_on.0.workers 0 ≡ some (record task { alive = false }))
    × ((goes_on.0.service.last_update_timestamp ≤ 0)
        ⊎ (source_median fractions goes_on.0.service.last_update_timestamp task.rate_history
            ≡ none))
pulled-zero_stops_example =
    pulled-zero_stops fractions readings euclid.gcd numbers plain (3 ∷ []) thresholds false 2
      (round (reading 0 0)) [] task [] (begin service) goes_on.0 (reading 0 0) (frac 0 0) zero_read
      refl (refl, refl) goes_on.1

acted-pulled_example :
    acted fractions readings euclid.gcd numbers plain (3 ∷ []) thresholds true 2 around (
      pulled fractions readings euclid.gcd numbers plain
        (3 ∷ [])
        thresholds
        true
        2
        good
        []
        task
        []
        (ready service).0)
    ≡ pulled fractions readings euclid.gcd numbers plain
        (3 ∷ [])
        thresholds
        true
        2
        good
        []
        task
        []
        (acted fractions readings euclid.gcd numbers plain
          (3 ∷ [])
          thresholds
          true
          2
          around
          (ready service).0)
acted-pulled_example =
    acted-pulled fractions readings euclid.gcd numbers plain (3 ∷ []) thresholds true 2 around good
      [] task [] (ready service).0

good_rate :
    (rate : Fraction) × (accepted fractions readings plain coin_gecko 2 false good ≡ some rate)
    × Allowed fractions thresholds (int 40000000) (fractions.mul rate (int 1000000))
unfolding accepted request_exchange_rate parse_response
good_rate = (_, refl, refl)

one_source : chosen_sources (λ i. "test") app ≡ coin_gecko ∷ []
unfolding chosen_sources
one_source = refl

-- The same round, then a cycle in which the second node accepts.
abbrev good_cycle : System fractions readings euclid.gcd numbers plain
good_cycle =
    first_cycle fractions readings euclid.gcd numbers plain (3 ∷ []) thresholds false 2
      (λ i. "test") app coin_gecko good second_node service

spawn_updates_example :
    Reaches (begin service) good_cycle
    × (good_cycle.status ≡ went_on)
    × (good_cycle.service.prev_rate ≡ fractions.mul good_rate.0 (int 1000000))
    × (seq : ℕ) × (last_seq numbers none good_cycle.items ≡ some seq)
    × (good_cycle.service.seq_number ≡ suc seq)
spawn_updates_example =
    spawn_updates fractions readings euclid.gcd numbers plain (3 ∷ []) thresholds false 2
      (λ i. "test") app coin_gecko good good_rate.0 second_node 5 service one_source (omega arith)
      good_rate.1 (omega arith) (omega arith) refl refl good_rate.2 delivers refl
