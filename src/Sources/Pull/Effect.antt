-- ===== src/Sources/Pull/Effect.antt =====
-- Effects on the metrics and the database that the tasks of src/sources.rs share with the main loop, and
-- the functions that act on them by one.
pub mod Steps
use mathlib.Core.List.{append-nil, append_assoc}
use concordium_euro2ccd_serv.Base.{
  ℕ, suc, ◌+◌, ◌≡◌, refl, sym, ap, ◌∙◌, ◌⊎◌, inl, inr, Bool, true, false, Bool-cases, Option, none,
  some, List, [], ◌∷◌, ◌++◌, String, ok, err, arith,
}
use concordium_euro2ccd_serv.Config
use concordium_euro2ccd_serv.Rational.{Rational, Float}
use concordium_euro2ccd_serv.Prometheus
use concordium_euro2ccd_serv.Prometheus.{Stats, Labelled}
use concordium_euro2ccd_serv.Database.{
  ReadValue, Database, Access, Fault, run_statement, write_read_rate,
}
use concordium_euro2ccd_serv.Sources.{Source, fmt}
use concordium_euro2ccd_serv.Sources.Backoff.{Event, attempt, on_fail, sleep, request_with_backoff}
use concordium_euro2ccd_serv.Sources.Request.{Serde}
use concordium_euro2ccd_serv.Sources.Pull.{
  state_of, Round, Pulling, count_fails, note_write, save_reading, store_recip, store_rational,
  request, record_reading, take_reading, pull_round,
}

-- The readings and the failed reads change by labels, some writes failed, and rows were added.
pub record Effect (F : Type 0) : Type 0 where
  pub read : Labelled F → Labelled F
  pub attempts : Labelled ℕ → Labelled ℕ
  pub failures : ℕ
  pub rows : List (ReadValue F)

module _ {F : Type 0} where
  abbrev pub on_stats : Effect F → Stats F → Stats F
  on_stats e s = record s {
    exchange_rate_read = e.read s.exchange_rate_read;
    read_attempts = e.attempts s.read_attempts;
    failed_database_updates = e.failures + s.failed_database_updates;
  }

  abbrev pub on_db : Effect F → Database F → Database F
  on_db e db = record db { read_values = db.read_values ++ e.rows }

  abbrev pub idle : Effect F
  idle = record { read = λ m. m; attempts = λ m. m; failures = 0; rows = [] }

  abbrev after : Effect F → Effect F → Effect F
  after f e = record {
    read = λ m. f.read (e.read m);
    attempts = λ m. f.attempts (e.attempts m);
    failures = f.failures + e.failures;
    rows = e.rows ++ f.rows;
  }

  pub on_stats-idle : (s : Stats F) → s ≡ on_stats idle s
  on_stats-idle s =
      ap (λ n. record s { failed_database_updates = n })
        (let e : s.failed_database_updates ≡ 0 + s.failed_database_updates = omega arith in e)

  on_stats-after :
      (f e : Effect F) (s : Stats F) → on_stats f (on_stats e s) ≡ on_stats (after f e) s
  on_stats-after f e s =
      ap (λ n. record (on_stats (after f e) s) { failed_database_updates = n })
        (let q : f.failures + (e.failures + s.failed_database_updates)
              ≡ f.failures + e.failures + s.failed_database_updates =
            omega arith in
          q)

  pub on_db-idle : (db : Database F) → db ≡ on_db idle db
  on_db-idle db = ap (λ rows. record db { read_values = rows }) (sym (append-nil db.read_values))

  on_db-after : (f e : Effect F) (db : Database F) → on_db f (on_db e db) ≡ on_db (after f e) db
  on_db-after f e db =
      ap (λ rows. record db { read_values = rows }) (append_assoc db.read_values e.rows f.rows)

-- The statement runs whatever the row, or fails with one fault whatever the row.
pub run_statement-cases :
    {A : Type 0} (access : Access)
    → ((a : A) → run_statement access a ≡ ok a)
      ⊎ ((fault : Fault) × ((a : A) → run_statement access a ≡ err fault))
unfolding run_statement
run_statement-cases access = elim (Bool-cases access.gets_conn) [
  | inr g ↦ inr (Fault.get_conn, λ a. rw g)
  | inl g ↦ elim (Bool-cases access.preps) [
    | inr p ↦ inr (Fault.prep, λ a. rw (g, p))
    | inl p ↦ elim (Bool-cases access.execs) [
      | inr x ↦ inr (Fault.exec, λ a. rw (g, p, x))
      | inl x ↦ inl (λ a. rw (g, p, x))
    ]
  ]
]

module _ (num : Rational) (float : Float num) (serde : Serde float.F) where
  open num use {Q}
  open float use {F}

  -- A function acts on the shared state by an effect.
  pub record Acts (f : Pulling num float serde → Pulling num float serde) : Type 0 where
    pub effect : Effect F
    pub stats : (s : Pulling num float serde) → (f s).stats ≡ on_stats effect s.stats
    pub db : (s : Pulling num float serde) → (f s).db ≡ on_db effect s.db

  pub Acts-after :
      (f g : Pulling num float serde → Pulling num float serde)
      → Acts f
      → Acts g
      → Acts (λ s. g (f s))
  Acts-after f g p q = record {
    effect = after q.effect p.effect;
    stats = λ s.
        q.stats (f s)
        ∙ ap (on_stats q.effect) (p.stats s)
        ∙ on_stats-after q.effect p.effect s.stats;
    db = λ s. q.db (f s) ∙ ap (on_db q.effect) (p.db s) ∙ on_db-after q.effect p.effect s.db;
  }
