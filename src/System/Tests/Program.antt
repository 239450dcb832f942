-- ===== src/System/Tests/Program.antt =====
-- src/main.rs as a whole, from a wet start with two key files.
use concordium_euro2ccd_serv.Base.{
  ℕ, suc, ◌<◌, ◌≡◌, refl, true, false, none, some, [], ◌∷◌, length, All, arith,
}
use concordium_euro2ccd_serv.Rational.{Fraction, fractions, readings}
use concordium_euro2ccd_serv.Helpers.{
  compute_median, relative_change, convert_big_fraction_to_exchange_rate, fit, to_u64,
}
use concordium_euro2ccd_serv.Helpers.Euclid.{euclid}
use concordium_euro2ccd_serv.Keys.{get_governance_from_file}
use concordium_euro2ccd_serv.Database.{write_read_rate, write_update_rate}
use concordium_euro2ccd_serv.Database.Tables.{establish_connection_pool, create_tables}
use concordium_euro2ccd_serv.Sources.Backoff.{request_with_backoff}
use concordium_euro2ccd_serv.Sources.Request.{request_exchange_rate, parse_response}
use concordium_euro2ccd_serv.Sources.Pull.{pull_round}
use concordium_euro2ccd_serv.Sources.Tests.{plain}
use concordium_euro2ccd_serv.Node.{
  send_update, is_unreachable, construct_block_item, get_node_client,
}
use concordium_euro2ccd_serv.Node.Tests.{numbers}
use concordium_euro2ccd_serv.Main.Options.{
  chosen_sources, check_thresholds, check_sources, choose_keys,
}
use concordium_euro2ccd_serv.Main.Cycle.{
  went_on, main_cycle, derive_rate, source_median, judge, after_send,
}
use concordium_euro2ccd_serv.Main.Cycle.Tests.{int, around, second_node, delivers}
use concordium_euro2ccd_serv.Main.Start.{
  ChainParameters, version, thresholds_of, initial_rate, start,
}
use concordium_euro2ccd_serv.Main.Start.Tests.{label, setup, wet_app, wet_start}
use concordium_euro2ccd_serv.Sources.{coin_gecko}
use concordium_euro2ccd_serv.Sources.Pull.History.{accepted}
use concordium_euro2ccd_serv.Node.Retries.{last_seq}
use concordium_euro2ccd_serv.Main.Cycle.Allowed.{Allowed}
use concordium_euro2ccd_serv.System.FirstUpdate.{first_update, program_updates}
use concordium_euro2ccd_serv.System.{
  System, spawn, pulled, looked, acted, Step, pull, look, act, here, next,
}
use concordium_euro2ccd_serv.System.Soundness.{IsSound, Sends}
use concordium_euro2ccd_serv.System.Program.{
  Runs, IsAuthorised, program-IsAuthorised, program-IsSound,
}
use concordium_euro2ccd_serv.System.Audit.{Audited, spawn-Audited}
use concordium_euro2ccd_serv.System.Refinement.{Protocol, program-Refines}
use concordium_euro2ccd_serv.System.Tests.{task, good}

abbrev States : System fractions readings euclid.gcd numbers plain → Type 0
States = Runs fractions readings euclid.gcd numbers plain label false wet_app setup wet_start.0

abbrev ended :
    System fractions readings euclid.gcd numbers plain
    → System fractions readings euclid.gcd numbers plain
ended =
    acted fractions readings euclid.gcd numbers plain (3 ∷ [])
      (thresholds_of fractions readings euclid.gcd numbers wet_app) true 60 around

-- A round of the task, and the main loop's read of its history.
ready :
    (t : System fractions readings euclid.gcd numbers plain) × States t
    × Step fractions readings euclid.gcd numbers plain
        (3 ∷ [])
        (thresholds_of fractions readings euclid.gcd numbers wet_app)
        true
        60
        t
        (ended t)
unfolding spawn pulled looked chosen_sources pull_round request_with_backoff request_exchange_rate
    parse_response
ready = (
  _,
  next (next here (pull good [] task [] refl refl (λ e. cc))) (look [] _ [] refl refl refl),
  act around refl refl,
)

-- Two items went out, and the update is recorded.
sends_test : (length (ended ready.0).items ≡ 2) × (length (ended ready.0).service.db.updates ≡ 1)
unfolding ready wet_start start initial_rate check_thresholds check_sources chosen_sources
    choose_keys get_node_client establish_connection_pool create_tables get_governance_from_file
    spawn pulled looked acted main_cycle derive_rate source_median compute_median relative_change
    judge convert_big_fraction_to_exchange_rate send_update fit to_u64 is_unreachable after_send
    construct_block_item pull_round request_with_backoff request_exchange_rate parse_response
    thresholds_of write_read_rate write_update_rate
sends_test = (refl, refl)

program-IsAuthorised_example :
    All
      (IsAuthorised fractions readings euclid.gcd numbers plain label false wet_app setup
        wet_start.0)
      (ended ready.0).items
program-IsAuthorised_example =
    program-IsAuthorised fractions readings euclid.gcd numbers plain label false wet_app setup
      wet_start.0 (ended ready.0) wet_start.1 (next ready.1 ready.2)

positive :
    (c : ℕ) (parameters : ChainParameters ℕ)
    → setup.parameters c ≡ some parameters
    → 0 < (version parameters).micro_ccd_per_euro.numerator
positive c parameters e = ground arith

program-IsSound_example :
    IsSound fractions readings euclid.gcd numbers plain
      (3 ∷ [])
      (thresholds_of fractions readings euclid.gcd numbers wet_app)
      true
      60
      (ended ready.0)
    × Sends fractions readings euclid.gcd numbers plain
        (3 ∷ [])
        (thresholds_of fractions readings euclid.gcd numbers wet_app)
        true
        60
        ready.0
        (ended ready.0)
program-IsSound_example =
    program-IsSound fractions readings euclid.gcd numbers plain label false wet_app setup
      wet_start.0 ready.0 (ended ready.0) positive wet_start.1 ready.1 ready.2

spawn-Audited_example :
    Audited fractions readings euclid.gcd numbers plain wet_start.0.db (ended ready.0)
spawn-Audited_example =
    spawn-Audited fractions readings euclid.gcd numbers plain (3 ∷ [])
      (thresholds_of fractions readings euclid.gcd numbers wet_app) true 60 label wet_app
      wet_start.0 (ended ready.0) (next ready.1 ready.2)

program-Refines_example :
    Protocol fractions euclid.gcd numbers
      (thresholds_of fractions readings euclid.gcd numbers wet_app)
      (record { signer = wet_start.0.signer; prev_rate = wet_start.0.prev_rate })
      (ended ready.0).items
      (record {
        signer = (ended ready.0).service.signer;
        prev_rate = (ended ready.0).service.prev_rate;
      })
program-Refines_example =
    program-Refines fractions readings euclid.gcd numbers plain label false wet_app setup
      wet_start.0 (ended ready.0) positive wet_start.1 (next ready.1 ready.2)

first_rate :
    (rate : Fraction) × (accepted fractions readings plain coin_gecko 60 true good ≡ some rate)
    × Allowed fractions
        (thresholds_of fractions readings euclid.gcd numbers wet_app)
        wet_start.0.prev_rate
        (fractions.mul rate (int 1000000))
unfolding wet_start start initial_rate check_thresholds check_sources chosen_sources choose_keys
    get_node_client establish_connection_pool create_tables get_governance_from_file thresholds_of
    accepted request_exchange_rate parse_response
first_rate = (_, refl, refl)

first_source : chosen_sources label wet_app ≡ coin_gecko ∷ []
unfolding chosen_sources
first_source = refl

-- A round at 1 / 42 Euro for a CCD, then a cycle in which the second node accepts.
abbrev first : System fractions readings euclid.gcd numbers plain
first =
    first_update fractions readings euclid.gcd numbers plain label false wet_app setup coin_gecko
      good second_node wet_start.0

program_updates_example :
    States first
    × (first.status ≡ went_on)
    × (first.service.prev_rate ≡ fractions.mul first_rate.0 (int 1000000))
    × (seq : ℕ) × (last_seq numbers none first.items ≡ some seq)
    × (first.service.seq_number ≡ suc seq)
program_updates_example =
    program_updates fractions readings euclid.gcd numbers plain label false wet_app setup
      wet_start.0 5 coin_gecko good first_rate.0 second_node positive wet_start.1 wet_start.2
      first_source (omega arith) first_rate.1 (omega arith) first_rate.2 delivers refl
