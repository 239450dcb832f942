-- ===== src/System/Changes.antt =====
-- src/main.rs and src/sources.rs together: how far the previous rate comes from the one on chain at the
-- start.
use concordium_euro2ccd_serv.Base.{
  ℕ, ℤ, suc, ◌≤◌, ◌≡◌, sym, subst, inl, inr, Bool, true, List, String, length, length-append, arith,
}
use concordium_euro2ccd_serv.Rational.{Rational, Float}
use concordium_euro2ccd_serv.Sources.Request.{Serde}
use concordium_euro2ccd_serv.Sources.Pull.Positive.{IsPositive}
use concordium_euro2ccd_serv.Node.{Sdk}
use concordium_euro2ccd_serv.Main.Options.{App}
use concordium_euro2ccd_serv.Main.Cycle.{Thresholds, Service, Around, main_cycle}
use concordium_euro2ccd_serv.Main.Cycle.Safety.{WithinHalt}
use concordium_euro2ccd_serv.Main.Cycle.Changes.{main_cycle-WithinHalt}
use concordium_euro2ccd_serv.System.{
  System, spawn, pulled, looked, acted, Step, pull, look, act, Reach, here, next,
}
use concordium_euro2ccd_serv.System.Soundness.{spawned-IsSound}

-- n changes of a rate, each within the halt thresholds of the rate before it.
pub data Changes (num : Rational) (t : Thresholds num) (start : num.Q) : num.Q → ℕ → Type 0 where
  none_yet : Changes num t start start 0
  one_more :
      {prev rate : num.Q} {n : ℕ}
      → Changes num t start prev n
      → WithinHalt num t prev rate
      → Changes num t start rate (suc n)

module _ (num : Rational) (float : Float num) (gcd : ℤ → ℤ → ℕ) (sdk : Sdk) (serde : Serde float.F)
    (endpoint : List sdk.Endpoint) (thresholds : Thresholds num) (db_conn_pool : Bool)
    (max_rates_saved : ℕ) where
  open num use {Q, lt}

  -- The previous rate came about by changes of the start, no more than there are sent items.
  abbrev pub Came : Q → System num float gcd sdk serde → Type 0
  Came start s = (n : ℕ) × Changes num thresholds start s.service.prev_rate n × (n ≤ length s.items)

  acted-Came :
      (a : Around num float gcd sdk) (start : Q) (s : System num float gcd sdk serde)
      → lt num.zero s.service.prev_rate ≡ true
      → Came start s
      → Came start
          (acted num float gcd sdk serde endpoint thresholds db_conn_pool max_rates_saved a s)
  unfolding acted
  acted-Came a start s p (n, came, few) =
      let t = main_cycle num float gcd sdk endpoint thresholds db_conn_pool a s.seen s.service in
      elim (main_cycle-WithinHalt num float gcd sdk endpoint thresholds db_conn_pool a s.seen
        s.service p) [
          | inl same ↦ (
            n,
            subst (λ q. Changes num thresholds start q n) (sym same) came,
            omega (arith, few, length-append s.items t.items),
          )
          | inr (within, sent) ↦
              (suc n, one_more came within, omega (arith, few, sent, length-append s.items t.items))
        ]

  Step-Came :
      {s t : System num float gcd sdk serde} (start : Q)
      → Step num float gcd sdk serde endpoint thresholds db_conn_pool max_rates_saved s t
      → lt num.zero s.service.prev_rate ≡ true
      → Came start s
      → Came start t
  unfolding pulled looked
  Step-Came {s} start (pull r before w after e alive up) p c = c
  Step-Came {s} start (look before w after e turn up) p c = c
  Step-Came {s} start (act a full up) p c = acted-Came a start s p c

  -- However the tasks and the main loop interleave, from the start with a positive rate on chain: the
  -- previous rate has come from the one on chain by some number of changes, each within the halt
  -- thresholds of the rate before it, and no more than there are sent block items.
  pub spawn-Came :
      (test_label : ℕ → String) (app : App) (service : Service num float gcd sdk)
      (s : System num float gcd sdk serde)
      → IsPositive num service.prev_rate
      → Reach num float gcd sdk serde endpoint thresholds db_conn_pool max_rates_saved
          (spawn num float gcd sdk serde test_label app service)
          s
      → Came service.prev_rate s
  unfolding spawn
  spawn-Came test_label app service s p here = (0, none_yet, omega arith)
  spawn-Came test_label app service s p (next r st) =
      let sound =
        spawned-IsSound num float gcd sdk serde endpoint thresholds db_conn_pool max_rates_saved
          test_label app service _ p r in
      Step-Came service.prev_rate st sound.prev_rate (spawn-Came test_label app service _ p r)
