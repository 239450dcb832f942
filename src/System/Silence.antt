-- ===== src/System/Silence.antt =====
-- src/main.rs and src/sources.rs together: the service with its tasks in the protected mode.
use concordium_euro2ccd_serv.Base.{ℕ, ℤ, ◌≡◌, refl, ap, ◌∙◌, Bool, List, ◌++◌}
use mathlib.Core.List.{append-nil}
use concordium_euro2ccd_serv.Rational.{Rational, Float}
use concordium_euro2ccd_serv.Sources.Request.{Serde}
use concordium_euro2ccd_serv.Sources.Pull.{Round}
use concordium_euro2ccd_serv.Sources.Pull.Effect.Steps.{Acts-pull_round}
use concordium_euro2ccd_serv.Prometheus.{Stats}
use concordium_euro2ccd_serv.Node.{Sdk}
use concordium_euro2ccd_serv.Main.Cycle.{Thresholds, Around}
use concordium_euro2ccd_serv.Main.Cycle.Protected.{IsProtected, main_cycle-Silent}
use concordium_euro2ccd_serv.System.{
  Worker, System, pulling, pulled, looked, acted, Step, pull, look, act, Reach, here, next,
}

module _ (num : Rational) (float : Float num) (gcd : ℤ → ℤ → ℕ) (sdk : Sdk) (serde : Serde float.F)
    (endpoint : List sdk.Endpoint) (thresholds : Thresholds num) (db_conn_pool : Bool)
    (max_rates_saved : ℕ) where
  abbrev IsQuiet : System num float gcd sdk serde → Type 0
  IsQuiet s = IsProtected num float gcd sdk endpoint thresholds db_conn_pool s.service

  -- Still protected, with nothing sent and the same previous rate and sequence number.
  pub record StaysQuiet (s t : System num float gcd sdk serde) : Type 0 where
    pub protected : IsQuiet t
    pub items : t.items ≡ s.items
    pub prev_rate : t.service.prev_rate ≡ s.service.prev_rate
    pub seq_number : t.service.seq_number ≡ s.service.seq_number

  pulled-StaysQuiet :
      (r : Round num float serde) (before : List (Worker num float gcd sdk serde))
      (w : Worker num float gcd sdk serde) (after : List (Worker num float gcd sdk serde))
      (s : System num float gcd sdk serde)
      → IsQuiet s
      → StaysQuiet s (
          pulled num float gcd sdk serde endpoint thresholds db_conn_pool max_rates_saved r before w
            after s)
  unfolding pulled
  pulled-StaysQuiet r before w after s h =
      let acts = Acts-pull_round num float serde w.source max_rates_saved db_conn_pool r in
      record {
        protected = (
          h.0,
          ap (λ (x : Stats float.F). x.protected)
                (acts.stats (pulling num float gcd sdk serde w s.service))
              ∙ h.1,
        );
        items = refl;
        prev_rate = refl;
        seq_number = refl;
      }

  looked-StaysQuiet :
      (w : Worker num float gcd sdk serde) (s : System num float gcd sdk serde)
      → IsQuiet s
      → StaysQuiet s (
          looked num float gcd sdk serde endpoint thresholds db_conn_pool max_rates_saved
            w.rate_history s)
  unfolding looked
  looked-StaysQuiet w s h = record {
    protected = h;
    items = refl;
    prev_rate = refl;
    seq_number = refl;
  }

  acted-StaysQuiet :
      (a : Around num float gcd sdk) (s : System num float gcd sdk serde)
      → IsQuiet s
      → StaysQuiet s
          (acted num float gcd sdk serde endpoint thresholds db_conn_pool max_rates_saved a s)
  unfolding acted
  acted-StaysQuiet a s h =
      let t =
        main_cycle-Silent num float gcd sdk endpoint thresholds db_conn_pool a s.seen s.service h in
      record {
        protected = (t.signer, t.protected);
        items = ap (λ xs. s.items ++ xs) t.items ∙ append-nil s.items;
        prev_rate = t.prev_rate;
        seq_number = t.seq_number;
      }

  Step-StaysQuiet :
      {s t : System num float gcd sdk serde}
      → Step num float gcd sdk serde endpoint thresholds db_conn_pool max_rates_saved s t
      → IsQuiet s
      → StaysQuiet s t
  Step-StaysQuiet {s} (pull r before w after e alive up) h = pulled-StaysQuiet r before w after s h
  Step-StaysQuiet {s} (look before w after e turn up) h = looked-StaysQuiet w s h
  Step-StaysQuiet {s} (act a full up) h = acted-StaysQuiet a s h

  -- From the protected mode, with no signer and the gauge set, no interleaving of the tasks and the
  -- main loop sends anything, leaves the protected mode, or changes the previous rate or the sequence
  -- number.
  pub Reach-StaysQuiet :
      {s t : System num float gcd sdk serde}
      → Reach num float gcd sdk serde endpoint thresholds db_conn_pool max_rates_saved s t
      → IsProtected num float gcd sdk endpoint thresholds db_conn_pool s.service
      → StaysQuiet s t
  Reach-StaysQuiet here h = record {
    protected = h;
    items = refl;
    prev_rate = refl;
    seq_number = refl;
  }
  Reach-StaysQuiet (next r st) h =
      let a = Reach-StaysQuiet r h in
      let b = Step-StaysQuiet st a.protected in
      record {
        protected = b.protected;
        items = b.items ∙ a.items;
        prev_rate = b.prev_rate ∙ a.prev_rate;
        seq_number = b.seq_number ∙ a.seq_number;
      }
