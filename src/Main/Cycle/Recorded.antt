-- ===== src/Main/Cycle/Recorded.antt =====
-- The main loop of src/main.rs: the rows that a cycle adds to the updates of the database.
pub mod Whole
use mathlib.Core.List.{append-nil}
use concordium_euro2ccd_serv.Base.{
  ℕ, ℤ, ◌≡◌, refl, sym, ap, ◌∙◌, subst, inl, inr, Bool, Bool-cases, Option, none, some,
  Option-cases, List, [], ◌∷◌, ◌++◌, ok, err, All, Any, Any-map, All-map,
}
use concordium_euro2ccd_serv.Rational.{Rational, Float}
use concordium_euro2ccd_serv.Helpers.{
  ExchangeRate, relative_change, convert_big_fraction_to_exchange_rate,
}
use concordium_euro2ccd_serv.Prometheus
use concordium_euro2ccd_serv.Database.{Database, Update, Access, run_statement, write_update_rate}
use concordium_euro2ccd_serv.Sources.{RateHistory}
use concordium_euro2ccd_serv.Sources.Pull.Effect.{run_statement-cases}
use concordium_euro2ccd_serv.Node.{
  Sdk, BlockItem, Progress, trying, gave_up, sent, send_update, get_node_client,
}
use concordium_euro2ccd_serv.Node.Retries.{last_seq}
use concordium_euro2ccd_serv.Main.Cycle.{
  Finality, finalized, query_failed, timed_out, Verdict, halt, warn, fine, Thresholds, derive_rate,
  judge, Service, Visit, Around, Turn, Submitted, pending, no_node, submitted, Submission,
  after_send, submit_loop, note_update, confirm, after_finality, after_submission, submit,
  submit_converted, protect, on_verdict, on_change, on_rate, main_cycle,
}
use concordium_euro2ccd_serv.Main.Cycle.Safety.{HasRate, submit_loop-HasRate}
use concordium_euro2ccd_serv.Main.Cycle.Confirmed.{submit_loop-Named}

-- A row has the numerator and the denominator of a rate.
abbrev pub IsRowOf : ExchangeRate → Update → Type 0
IsRowOf rate row = (row.numerator ≡ rate.numerator) × (row.denominator ≡ rate.denominator)

-- The rows that a database got.
pub record Grown {F : Type 0} (P : Update → Type 0) (before after : Database F) : Type 0 where
  pub rows : List Update
  pub updates : after.updates ≡ before.updates ++ rows
  pub each : All P rows

pub Grown-none :
    {F : Type 0} (P : Update → Type 0) (before after : Database F)
    → after.updates ≡ before.updates
    → Grown P before after
Grown-none P before after e = record {
  rows = [];
  updates = e ∙ sym (append-nil before.updates);
  each = tt;
}

-- A row of a rate that some of the items carries.
abbrev pub IsSent : (sdk : Sdk) → List (BlockItem sdk) → Update → Type 0
IsSent sdk items row = Any (λ item. IsRowOf item.micro_gtu_per_euro row) items

-- A list with a last sequence number has an item.
pub some_last :
    {sdk : Sdk} {seq : sdk.UpdateSequenceNumber} (P : BlockItem sdk → Type 0)
    (items : List (BlockItem sdk))
    → last_seq sdk none items ≡ some seq
    → All P items
    → Any P items
some_last P [] e h = let bad : none ≡ some _ = e in cc
some_last P (item ∷ items) e h = inl h.0

module _ (num : Rational) (float : Float num) (gcd : ℤ → ℤ → ℕ) (sdk : Sdk)
    (endpoint : List sdk.Endpoint) where
  open num use {Q}
  open float use {F}

  after_send-db :
      (p : Progress sdk) (v : Visit num float gcd sdk)
      (again : Service num float gcd sdk → Submission num float gcd sdk)
      (s : Service num float gcd sdk)
      → ((s' : Service num float gcd sdk) → (again s').service.db ≡ s'.db)
      → (after_send num float gcd sdk endpoint p v again s).service.db ≡ s.db
  unfolding after_send
  after_send-db trying v again s rest = refl
  after_send-db (sent h seq) v again s rest = refl
  after_send-db gave_up v again s rest =
      elim (Option-cases (get_node_client sdk v.connect endpoint)) [
        | inl e ↦ rw (e, after_send) refl
        | inr (c, e) ↦ rw (e, after_send) (rest (record s { node_client = c }))
      ]

  pub submit_loop-db :
      (signer : sdk.Signer) (new_rate : ExchangeRate) (vs : List (Visit num float gcd sdk))
      (s : Service num float gcd sdk)
      → (submit_loop num float gcd sdk endpoint signer new_rate vs s).service.db ≡ s.db
  unfolding submit_loop
  submit_loop-db signer new_rate [] s = refl
  submit_loop-db signer new_rate (v ∷ vs) s =
      let x = send_update sdk F signer new_rate s.seq_number v.ticks s.stats in
      after_send-db x.progress v (submit_loop num float gcd sdk endpoint signer new_rate vs)
        (record s { stats = x.stats }) (submit_loop-db signer new_rate vs)

  module _ (thresholds : Thresholds num) (db_conn_pool : Bool) where
    write-Grown :
        (access : Access) (now : ℕ) (new_rate : ExchangeRate) (s : Service num float gcd sdk)
        → Grown
            (IsRowOf new_rate)
            s.db
            (note_update num float gcd sdk endpoint thresholds db_conn_pool
              (write_update_rate access now new_rate s.db)
              s).db
    unfolding write_update_rate note_update
    write-Grown access now new_rate s =
        let row : Update = record {
          numerator = new_rate.numerator;
          denominator = new_rate.denominator;
          timestamp = now;
        } in
        let added : Database F = record s.db { updates = s.db.updates ++ row ∷ [] } in
        let after = note_update num float gcd sdk endpoint thresholds db_conn_pool in
        elim (run_statement-cases {A = Database F} access) [
          | inl runs ↦
              subst (λ w. Grown (IsRowOf new_rate) s.db (after w s).db) (sym (runs added))
                (record { rows = row ∷ []; updates = refl; each = ((refl, refl), tt) })
          | inr (fault, fails) ↦
              subst (λ w. Grown (IsRowOf new_rate) s.db (after w s).db) (sym (fails added))
                (Grown-none (IsRowOf new_rate) s.db s.db refl)
        ]

    pub after_finality-Grown :
        (f : Finality) (a : Around num float gcd sdk) (rate : Q) (new_rate : ExchangeRate)
        (seq : sdk.UpdateSequenceNumber) (s : Service num float gcd sdk)
        → Grown
            (IsRowOf new_rate)
            s.db
            (after_finality num float gcd sdk endpoint thresholds db_conn_pool f a rate new_rate seq
              s).db
    unfolding after_finality confirm
    after_finality-Grown finalized a rate new_rate seq s = elim (Bool-cases db_conn_pool) [
      | inl e ↦ rw e (
          write-Grown a.access a.written_at new_rate (record s {
            seq_number = sdk.next seq;
            stats = Prometheus.update_updated_rate F (float.to_f64 rate) s.stats;
            prev_rate = rate;
          }))
      | inr e ↦ rw e (Grown-none (IsRowOf new_rate) s.db s.db refl)
    ]
    after_finality-Grown query_failed a rate new_rate seq s =
        Grown-none (IsRowOf new_rate) s.db s.db refl
    after_finality-Grown timed_out a rate new_rate seq s =
        Grown-none (IsRowOf new_rate) s.db s.db refl
