-- ===== src/Prometheus.antt =====
-- src/prometheus.rs: the metrics of the service as a record of their values, the methods of Stats,
-- and the collector that hides its gauge until a first update. The HTTP server around it is not
-- modelled.
pub mod Collector
pub mod Server
mod Tests
use text.Mathlib.Text.{◌==◌ as str_eq}
use concordium_euro2ccd_serv.Base.{
  ℕ, suc, Bool, true, false, Option, none, some, List, [], ◌∷◌, String, if◌then◌else◌,
}
use concordium_euro2ccd_serv.Rational.{Rational, Float}

-- An RwLock over a Boolean: a read or write of a poisoned lock is an error.
pub data Lock : Type 0 where
  free : Bool → Lock
  poisoned : Lock

-- `lock.read().map(|a| *a).unwrap_or(false)`
abbrev pub read_or_false : Lock → Bool
read_or_false (free b) = b
read_or_false poisoned = false

-- `*lock.write() = true`, which does nothing to a poisoned lock.
abbrev pub write_true : Lock → Lock
write_true (free b) = free true
write_true poisoned = poisoned

-- A metric with one label: the values of the labels seen so far.
abbrev pub Labelled : Type 0 → Type 0
Labelled A = String → Option A

abbrev pub set_label : {A : Type 0} → String → A → Labelled A → Labelled A
set_label label v m = λ l. if str_eq l label then some v else m l

module _ (F : Type 0) where
  -- The gauge, `none` until it is first set, and whether it may be collected.
  pub record HidingGaugeCollector : Type 0 where
    pub gauge : Option F
    pub allow_collect : Lock

  -- What the collector hands to prometheus: nothing before the gauge may be collected.
  unfoldable pub collect : HidingGaugeCollector → List (Option F)
  collect c = if read_or_false c.allow_collect then c.gauge ∷ [] else []

  -- The counters are 64-bit in the library; they count failures, and are left unbounded here.
  pub record Stats : Type 0 where
    pub exchange_rate_read : Labelled F
    pub exchange_rate_updated : HidingGaugeCollector
    pub warning_threshold_violations : ℕ
    pub read_attempts : Labelled ℕ
    pub update_attempts : ℕ
    pub protected : ℕ
    pub failed_database_updates : ℕ

  -- The value of a counter that is created at its first use.
  abbrev pub value_or_zero : Option ℕ → ℕ
  value_or_zero none = 0
  value_or_zero (some n) = n

  -- In the methods with a label, `found` says whether the library found the metric of the label.
  unfoldable pub update_read_rate : Bool → F → String → Stats → Stats
  update_read_rate found rate label s =
      if found
      then record s { exchange_rate_read = set_label label rate s.exchange_rate_read }
      else s

  -- `rate_float` is the rate's to_f64.
  unfoldable pub update_updated_rate : Option F → Stats → Stats
  update_updated_rate none s = s
  update_updated_rate (some rate_float) s =
      let lock = s.exchange_rate_updated.allow_collect in
      record s {
        exchange_rate_updated = record {
          gauge = some rate_float;
          allow_collect = if read_or_false lock then lock else write_true lock;
        };
      }

  unfoldable pub increment_warning_threshold_violations : Stats → Stats
  increment_warning_threshold_violations s = record s {
    warning_threshold_violations = suc s.warning_threshold_violations;
  }

  unfoldable pub increment_read_attempts : Bool → String → Stats → Stats
  increment_read_attempts found label s =
      if found
      then record s {
        read_attempts =
            set_label label (suc (value_or_zero (s.read_attempts label))) s.read_attempts;
      }
      else s

  unfoldable pub reset_read_attempts : Bool → String → Stats → Stats
  reset_read_attempts found label s =
      if found then record s { read_attempts = set_label label 0 s.read_attempts } else s

  unfoldable pub increment_update_attempts : Stats → Stats
  increment_update_attempts s = record s { update_attempts = suc s.update_attempts }

  unfoldable pub reset_update_attempts : Stats → Stats
  reset_update_attempts s = record s { update_attempts = 0 }

  unfoldable pub set_protected : Stats → Stats
  set_protected s = record s { protected = 1 }

  unfoldable pub increment_failed_database_updates : Stats → Stats
  increment_failed_database_updates s = record s {
    failed_database_updates = suc s.failed_database_updates;
  }

  -- The metrics at the start. Registering them at the registry is the library's and can fail.
  unfoldable pub initialize : Stats
  initialize = record {
    exchange_rate_read = λ l. none;
    exchange_rate_updated = record { gauge = none; allow_collect = free false };
    warning_threshold_violations = 0;
    read_attempts = λ l. none;
    update_attempts = 0;
    protected = 0;
    failed_database_updates = 0;
  }
