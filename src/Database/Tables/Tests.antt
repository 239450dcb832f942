-- ===== src/Database/Tables/Tests.antt =====
-- src/database.rs at a table from before the label column.
use text.Mathlib.Text.{◌==◌ as str_eq}
use concordium_euro2ccd_serv.Base.{
  ok_value, ◌≡◌, refl, sym, subst, inl, inr, Bool-cases, Bool, true, false, Option, none, some,
  List, [], ◌∷◌, map, String, if◌then◌else◌, Result, ok, err,
}
use concordium_euro2ccd_serv.Database.{default_label, Fault, query}
use concordium_euro2ccd_serv.Database.Tables.{
  create_tables_statement, add_label, PooledConn, label_column, create_tables,
}
use concordium_euro2ccd_serv.Database.Tables.Labelled.{View, Statements}

-- Whether the table and its label column are there, and the labels of its rows.
pub record Toy : Type 0 where
  pub table : Bool
  pub label : Bool
  pub rows : List (Option String)

abbrev created : Toy → Toy
created s = if s.table then s else record { table = true; label = true; rows = [] }

abbrev labelled : Toy → Toy
labelled s = record s { label = true; rows = map (λ l. some default_label) s.rows }

abbrev run : String → Toy → Result Fault Toy
run sql s =
    if str_eq sql create_tables_statement
    then ok (created s)
    else if str_eq sql add_label
    then ok (labelled s)
    else err query

abbrev pub toy : PooledConn Toy
toy = record { query_drop = run; query_first = λ sql s. ok (some (if s.label then 1 else 0)) }

abbrev pub view : View Toy
view = record { has_table = λ s. s.table; has_label = λ s. s.label; labels = λ s. s.rows }

created_lem :
    (s : Toy)
    → ((created s).table ≡ true)
      × ((created s).label ≡ (if s.table then s.label else true))
      × ((created s).rows ≡ (if s.table then s.rows else []))
created_lem s = elim (Bool-cases s.table) [
  | inl t ↦ rw t (refl, refl, refl)
  | inr t ↦ rw t (refl, refl, refl)
]

pub laws : Statements toy view
laws = record {
  creates = λ s s' h.
      subst
        (λ (t : Toy).
          (t.table ≡ true)
          × (t.label ≡ (if s.table then s.label else true))
          × (t.rows ≡ (if s.table then s.rows else [])))
        (ok_value h) (created_lem s);
  counts = λ s o h. sym (ok_value h);
  adds = λ s s' h.
      subst
        (λ (t : Toy).
          (t.table ≡ s.table) × (t.label ≡ true) × (t.rows ≡ map (λ l. some default_label) s.rows))
        (ok_value {x = labelled s} h) (refl, refl, refl);
}

-- Two readings of the first version, which had no labels.
abbrev pub old : Toy
old = record { table = true; label = false; rows = none ∷ none ∷ [] }

abbrev pub new : Toy
new = record { table = true; label = true; rows = some default_label ∷ some default_label ∷ [] }

migrates : create_tables toy old ≡ ok new
unfolding create_tables label_column
migrates = refl

migrates_again : create_tables toy new ≡ ok new
unfolding create_tables label_column
migrates_again = refl
