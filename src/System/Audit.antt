-- ===== src/System/Audit.antt =====
-- src/main.rs and src/sources.rs together: the updates that the database records, against what was sent.
use mathlib.Core.List.{append_assoc}
use concordium_euro2ccd_serv.Base.{
  ℕ, ℤ, refl, ap, ◌∙◌, Bool, List, [], ◌++◌, String, All-append, All-map, Any-left, Any-right,
}
use concordium_euro2ccd_serv.Rational.{Rational, Float}
use concordium_euro2ccd_serv.Database.{Database}
use concordium_euro2ccd_serv.Sources.Request.{Serde}
use concordium_euro2ccd_serv.Sources.Pull.Effect.Steps.{Acts-pull_round}
use concordium_euro2ccd_serv.Node.{Sdk, BlockItem}
use concordium_euro2ccd_serv.Main.Options.{App}
use concordium_euro2ccd_serv.Main.Cycle.{Thresholds, Service, Around, main_cycle}
use concordium_euro2ccd_serv.Main.Cycle.Recorded.{IsRowOf, Grown, Grown-none, IsSent}
use concordium_euro2ccd_serv.Main.Cycle.Recorded.Whole.{main_cycle-Records}
use concordium_euro2ccd_serv.System.{
  System, pulling, spawn, pulled, looked, acted, Step, pull, look, act, Reach, here, next,
}

module _ (num : Rational) (float : Float num) (gcd : ℤ → ℤ → ℕ) (sdk : Sdk)
    (serde : Serde float.F) where
  open num use {Q}
  open float use {F}

  -- The database has grown from an earlier one by rows of rates that were sent.
  abbrev pub Audited : Database F → System num float gcd sdk serde → Type 0
  Audited db s = Grown (IsSent sdk s.items) db s.service.db

  module _ (endpoint : List sdk.Endpoint) (thresholds : Thresholds num) (db_conn_pool : Bool)
      (max_rates_saved : ℕ) where
    acted-Audited :
        (db : Database F) (a : Around num float gcd sdk) (s : System num float gcd sdk serde)
        → Audited db s
        → Audited db
            (acted num float gcd sdk serde endpoint thresholds db_conn_pool max_rates_saved a s)
    unfolding acted
    acted-Audited db a s h =
        let t = main_cycle num float gcd sdk endpoint thresholds db_conn_pool a s.seen s.service in
        let g =
          main_cycle-Records num float gcd sdk endpoint thresholds db_conn_pool a s.seen
            s.service in
        record {
          rows = h.rows ++ g.rows;
          updates =
              g.updates ∙ ap (λ xs. xs ++ g.rows) h.updates ∙ append_assoc db.updates h.rows g.rows;
          each =
              All-append (IsSent sdk (s.items ++ t.items)) h.rows g.rows
                (All-map (IsSent sdk s.items) (IsSent sdk (s.items ++ t.items)) h.rows
                  (λ row.
                    Any-left (λ (item : BlockItem sdk). IsRowOf item.micro_gtu_per_euro row) s.items
                      t.items)
                  h.each)
                (All-map (IsSent sdk t.items) (IsSent sdk (s.items ++ t.items)) g.rows
                  (λ row.
                    Any-right (λ (item : BlockItem sdk). IsRowOf item.micro_gtu_per_euro row)
                      s.items t.items)
                  g.each);
        }

    Step-Audited :
        (db : Database F) {s t : System num float gcd sdk serde}
        → Step num float gcd sdk serde endpoint thresholds db_conn_pool max_rates_saved s t
        → Audited db s
        → Audited db t
    unfolding pulled looked
    Step-Audited db {s} (pull r before w after e alive up) h = record {
      rows = h.rows;
      updates =
          ap (λ (d : Database F). d.updates)
            ((Acts-pull_round num float serde w.source max_rates_saved db_conn_pool r).db
              (pulling num float gcd sdk serde w s.service))
          ∙ h.updates;
      each = h.each;
    }
    Step-Audited db {s} (look before w after e turn up) h = record {
      rows = h.rows;
      updates = h.updates;
      each = h.each;
    }
    Step-Audited db {s} (act a full up) h = acted-Audited db a s h

    Reach-Audited :
        (db : Database F) {s t : System num float gcd sdk serde}
        → Reach num float gcd sdk serde endpoint thresholds db_conn_pool max_rates_saved s t
        → Audited db s
        → Audited db t
    Reach-Audited db here h = h
    Reach-Audited db (next r st) h = Step-Audited db st (Reach-Audited db r h)

    -- However the tasks and the main loop interleave, the table of updates keeps the rows that it had at
    -- the start, in front, and every row after them has the numerator and the denominator of a block
    -- item that was sent.
    pub spawn-Audited :
        (test_label : ℕ → String) (app : App) (service : Service num float gcd sdk)
        (s : System num float gcd sdk serde)
        → Reach num float gcd sdk serde endpoint thresholds db_conn_pool max_rates_saved
            (spawn num float gcd sdk serde test_label app service)
            s
        → Audited service.db s
    unfolding spawn
    spawn-Audited test_label app service s r =
        Reach-Audited service.db r (Grown-none (IsSent sdk []) service.db service.db refl)
