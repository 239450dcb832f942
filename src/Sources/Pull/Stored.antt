-- ===== src/Sources/Pull/Stored.antt =====
-- What the rounds of pull_exchange_rate in src/sources.rs write to the database of src/database.rs.
use mathlib.Core.List.{append-nil, append_assoc}
use concordium_euro2ccd_serv.Base.{
  ℕ, ◌≡◌, refl, sym, ap, ◌∙◌, subst, inl, inr, Bool, true, false, Option, none, some, List, [], ◌∷◌,
  ◌++◌, All, All-append, String, Result, ok, err, arith,
}
use concordium_euro2ccd_serv.Rational.{Rational, Float}
use concordium_euro2ccd_serv.Database.{
  ReadValue, Database, Access, Fault, run_statement, write_read_rate,
}
use concordium_euro2ccd_serv.Sources.{Source, fmt}
use concordium_euro2ccd_serv.Sources.Request.{Serde}
use concordium_euro2ccd_serv.Sources.Pull.{
  state_of, Task, running, panicked, Task-cases, Round, Pulling, note_write, save_reading,
  store_recip, store_rational, record_reading, take_reading, pull_round, pull_exchange_rate,
}

run_statement-ok : {A : Type 0} (access : Access) (a b : A) → run_statement access a ≡ ok b → a ≡ b
unfolding run_statement
run_statement-ok access a b h = ground arith

module _ {F : Type 0} where
  -- A row of a reading under a label.
  abbrev pub HasLabel : String → ReadValue F → Type 0
  HasLabel label row = row.label ≡ label

  -- The readings grew by rows under the label, and the updates are the same.
  record Grown (label : String) (db db' : Database F) : Type 0 where
    rows : List (ReadValue F)
    grown : db'.read_values ≡ db.read_values ++ rows
    labels : All (HasLabel label) rows
    updates : db'.updates ≡ db.updates

  Grown-refl : (label : String) (db : Database F) → Grown label db db
  Grown-refl label db = record {
    rows = [];
    grown = sym (append-nil db.read_values);
    labels = tt;
    updates = refl;
  }

  Grown-trans :
      (label : String) (a b c : Database F) → Grown label a b → Grown label b c → Grown label a c
  Grown-trans label a b c h k = record {
    rows = h.rows ++ k.rows;
    grown = k.grown ∙ ap (λ xs. xs ++ k.rows) h.grown ∙ append_assoc a.read_values h.rows k.rows;
    labels = All-append (HasLabel label) h.rows k.rows h.labels k.labels;
    updates = k.updates ∙ h.updates;
  }

  write_read_rate-Grown :
      (access : Access) (now : ℕ) (v : F) (label : String) (db db' : Database F)
      → write_read_rate access now v label db ≡ ok db'
      → Grown label db db'
  unfolding write_read_rate
  write_read_rate-Grown access now v label db db' h =
      subst (Grown label db) (run_statement-ok access _ db' h)
        (record { rows = _; grown = refl; labels = (refl, tt); updates = refl })

module _ (num : Rational) (float : Float num) (serde : Serde float.F) where
  open float use {F}

  save_reading-Grown :
      (pool : Bool) (r : Round num float serde) (label : String) (v : F)
      (s : Pulling num float serde)
      → Grown label s.db (save_reading num float serde pool r label v s).db
  unfolding save_reading
  save_reading-Grown false r label v s = Grown-refl label s.db
  save_reading-Grown true r label v s =
      noted (write_read_rate r.access r.written_at v label s.db) refl
    where
      noted :
          (w : Result Fault (Database F))
          → write_read_rate r.access r.written_at v label s.db ≡ w
          → Grown label s.db (note_write num float serde w s).db
      noted (ok db) e = write_read_rate-Grown r.access r.written_at v label s.db db e
      noted (err e) _ = Grown-refl label s.db

  store_rational-db :
      (max now : ℕ) (o : Option num.Q) (s : Pulling num float serde)
      → (state_of (store_rational num float serde max now o s)).db ≡ s.db
  unfolding store_rational
  store_rational-db max now none s = refl
  store_rational-db max now (some q) s = stored (num.recip q)
    where
      stored : (o : Option num.Q) → (state_of (store_recip num float serde max now o s)).db ≡ s.db
      stored none = refl
      stored (some rate) = refl

  module _ (source : Source) (max : ℕ) (pool : Bool) where
    take_reading-Grown :
        (r : Round num float serde) (o : Option F) (s : Pulling num float serde)
        → Grown (fmt source) s.db (state_of (take_reading num float serde source max pool r o s)).db
    unfolding take_reading
    take_reading-Grown r none s = Grown-refl (fmt source) s.db
    take_reading-Grown r (some v) s =
        subst (Grown (fmt source) s.db)
          (sym (
            store_rational-db max r.now (float.from_float v)
              (record_reading num float serde source max pool r v s)))
          (save_reading-Grown pool r (fmt source) v _)

    pull_round-Grown :
        (r : Round num float serde) (s : Pulling num float serde)
        → Grown (fmt source) s.db (state_of (pull_round num float serde source max pool r s)).db
    unfolding pull_round
    pull_round-Grown r s = take_reading-Grown r _ _

    rounds-Grown :
        (rs : List (Round num float serde)) (s : Pulling num float serde)
        → Grown
            (fmt source)
            s.db
            (state_of (pull_exchange_rate num float serde source max pool rs s)).db
    unfolding pull_exchange_rate
    rounds-Grown [] s = Grown-refl (fmt source) s.db
    rounds-Grown (r ∷ rs) s = elim (Task-cases (pull_round num float serde source max pool r s)) [
      | inl (s', e) ↦
          rw (e, pull_exchange_rate)
            (Grown-trans (fmt source) s.db s'.db _ (after s' (running s') e refl)
              (rounds-Grown rs s'))
      | inr (s', e) ↦ rw (e, pull_exchange_rate) (after s' (panicked s') e refl)
    ]
      where
        after :
            (s' : Pulling num float serde) (t : Task (Pulling num float serde))
            → pull_round num float serde source max pool r s ≡ t
            → state_of t ≡ s'
            → Grown (fmt source) s.db s'.db
        after s' t e h =
            subst (λ (x : Pulling num float serde). Grown (fmt source) s.db x.db)
              (ap state_of e ∙ h) (pull_round-Grown r s)

    -- Any rounds, also those up to a panic, only add rows to the stored readings, at their end and
    -- each under the source's own label, and leave the stored updates as they are.
    pub pull_exchange_rate-stored :
        (rs : List (Round num float serde)) (s : Pulling num float serde)
        → let s' = state_of (pull_exchange_rate num float serde source max pool rs s) in
          (rows : List (ReadValue F)) × (s'.db.read_values ≡ s.db.read_values ++ rows)
          × All (HasLabel (fmt source)) rows
          × (s'.db.updates ≡ s.db.updates)
    pull_exchange_rate-stored rs s =
        let g = rounds-Grown rs s in (g.rows, g.grown, g.labels, g.updates)
