-- ===== src/System/Refinement.antt =====
-- src/main.rs as a whole, against the protocol of its updates.
use concordium_euro2ccd_serv.Base.{
  ℕ, ℤ, ◌<◌, ◌≡◌, Bool, true, some, List, [], ◌++◌, map, String, ok,
}
use concordium_euro2ccd_serv.Rational.{Rational, Float}
use concordium_euro2ccd_serv.Sources.Request.{Serde}
use concordium_euro2ccd_serv.Node.{Sdk, BlockItem}
use concordium_euro2ccd_serv.Main.Options.{App}
use concordium_euro2ccd_serv.Main.Cycle.{Thresholds, Service}
use concordium_euro2ccd_serv.Main.Cycle.Positive.{derive_rate-IsPositive}
use concordium_euro2ccd_serv.Main.Cycle.Protocol.{Published, Moves, published, main_cycle-Follows}
use concordium_euro2ccd_serv.Main.Start.{ChainParameters, version, Setup, thresholds_of, start}
use concordium_euro2ccd_serv.System.{
  System, spawn, pulled, looked, acted, Step, pull, look, act, Reach, here, next,
}
use concordium_euro2ccd_serv.System.Soundness.{IsSound, spawned-IsSound}
use concordium_euro2ccd_serv.System.Program.{is_some, Runs, start-IsPositive}

-- Runs of the protocol, with all that they send.
pub data Protocol (num : Rational) (gcd : ℤ → ℤ → ℕ) (sdk : Sdk) (thresholds : Thresholds num)
    (s : Published num gcd sdk thresholds)
    : List (BlockItem sdk) → Published num gcd sdk thresholds → Type 0 where
  begin : Protocol num gcd sdk thresholds s [] s
  then :
      {items new : List (BlockItem sdk)} {t u : Published num gcd sdk thresholds}
      → Protocol num gcd sdk thresholds s items t
      → Moves num gcd sdk thresholds t new u
      → Protocol num gcd sdk thresholds s (items ++ new) u

module _ (num : Rational) (float : Float num) (gcd : ℤ → ℤ → ℕ) (sdk : Sdk)
    (serde : Serde float.F) where
  open num use {Q, lt}

  module _ (endpoint : List sdk.Endpoint) (thresholds : Thresholds num) (db_conn_pool : Bool)
      (max_rates_saved : ℕ) where
    -- From a given state of the protocol, the system has run as it allows.
    abbrev Refines : Published num gcd sdk thresholds → System num float gcd sdk serde → Type 0
    Refines p s =
        Protocol num gcd sdk thresholds p s.items
          (published num float gcd sdk endpoint thresholds db_conn_pool s.service)

    Step-Refines :
        (p : Published num gcd sdk thresholds) {s t : System num float gcd sdk serde}
        → IsSound num float gcd sdk serde endpoint thresholds db_conn_pool max_rates_saved s
        → Step num float gcd sdk serde endpoint thresholds db_conn_pool max_rates_saved s t
        → Refines p s
        → Refines p t
    unfolding pulled looked acted
    Step-Refines p h (pull r before w after e alive up) run = run
    Step-Refines p h (look before w after e turn up) run = run
    Step-Refines p {s} h (act a full up) run = then run (
        main_cycle-Follows num float gcd sdk endpoint thresholds db_conn_pool a s.seen s.service
          h.prev_rate
          (λ rate e.
            derive_rate-IsPositive num s.service.last_update_timestamp s.seen rate h.seen e))

    spawn-Refines :
        (test_label : ℕ → String) (app : App) (service : Service num float gcd sdk)
        {s : System num float gcd sdk serde}
        → lt num.zero service.prev_rate ≡ true
        → Reach num float gcd sdk serde endpoint thresholds db_conn_pool max_rates_saved
            (spawn num float gcd sdk serde test_label app service)
            s
        → Refines (published num float gcd sdk endpoint thresholds db_conn_pool service) s
    unfolding spawn
    spawn-Refines test_label app service p here = begin
    spawn-Refines test_label app service p (next r st) =
        Step-Refines (published num float gcd sdk endpoint thresholds db_conn_pool service)
          (spawned-IsSound num float gcd sdk serde endpoint thresholds db_conn_pool max_rates_saved
            test_label app service _ p r)
          st (spawn-Refines test_label app service p r)

  -- If every node reports a rate with a positive numerator, then the program, from its start on and
  -- however its tasks and its main loop interleave, is a run of the protocol: from the signer and the
  -- rate that it starts with, it only ever sends items of the current signer that convert one positive
  -- rate, allowed from the last rate by the halt thresholds of the options; the last rate changes only
  -- to such a rate, when an item for it was sent; and the signer only ever goes away, at a rate that
  -- is not allowed.
  pub program-Refines :
      (test_label : ℕ → String) (lock_file : Bool) (app : App) (setup : Setup num float gcd sdk)
      (s : Service num float gcd sdk) (t : System num float gcd sdk serde)
      → ((c : sdk.Client) (parameters : ChainParameters setup.UpdateKeys)
          → setup.parameters c ≡ some parameters
          → 0 < (version parameters).micro_ccd_per_euro.numerator)
      → start num float gcd sdk test_label lock_file app setup ≡ ok s
      → Runs num float gcd sdk serde test_label lock_file app setup s t
      → Protocol num gcd sdk
          (thresholds_of num float gcd sdk app)
          (record { signer = s.signer; prev_rate = s.prev_rate })
          t.items
          (record { signer = t.service.signer; prev_rate = t.service.prev_rate })
  program-Refines test_label lock_file app setup s t positive started r =
      spawn-Refines (map setup.endpoint app.endpoint) (thresholds_of num float gcd sdk app)
        (is_some app.database_url) app.max_rates_saved test_label app s
        (start-IsPositive num float gcd sdk serde test_label lock_file app setup s positive started)
        r
