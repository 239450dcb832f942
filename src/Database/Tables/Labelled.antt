-- ===== src/Database/Tables/Labelled.antt =====
-- create_tables of src/database.rs: what it makes of the table of the readings.
use concordium_euro2ccd_serv.Base.{
  ok_bind, ℕ, ◌≡◌, refl, sym, ap, ◌∙◌, Bool, true, Bool-cases, inl, inr, Option, some, List, [],
  map, String, if◌then◌else◌, ok,
}
use concordium_euro2ccd_serv.Database.{default_label}
use concordium_euro2ccd_serv.Database.Tables.{
  create_tables_statement, check_for_label, add_label, PooledConn, label_column, create_tables,
}

-- The table of the readings as the service relies on it: whether it is there, whether it has the label
-- column, and the label of each row, `none` for a null.
pub record View (S : Type 0) : Type 0 where
  pub has_table : S → Bool
  pub has_label : S → Bool
  pub labels : S → List (Option String)

-- What MySQL documents of the three statements: CREATE TABLE IF NOT EXISTS makes an empty table with
-- its columns or leaves the one that is there; the query counts the label columns; ADD COLUMN with a
-- default gives every row the default.
pub record Statements {S : Type 0} (conn : PooledConn S) (view : View S) : Type 0 where
  pub creates :
      (s s' : S)
      → conn.query_drop create_tables_statement s ≡ ok s'
      → (view.has_table s' ≡ true)
        × (view.has_label s' ≡ (if view.has_table s then view.has_label s else true))
        × (view.labels s' ≡ (if view.has_table s then view.labels s else []))
  pub counts :
      (s : S) (o : Option ℕ)
      → conn.query_first check_for_label s ≡ ok o
      → o ≡ some (if view.has_label s then 1 else 0)
  pub adds :
      (s s' : S)
      → conn.query_drop add_label s ≡ ok s'
      → (view.has_table s' ≡ view.has_table s)
        × (view.has_label s' ≡ true)
        × (view.labels s' ≡ map (λ l. some default_label) (view.labels s))

module _ {S : Type 0} (view : View S) where
  -- The labels that the table should have: none without rows, the old ones if there is a column for
  -- them, and the default otherwise.
  abbrev pub labels_after : S → List (Option String)
  labels_after s =
      if view.has_table s
      then (if view.has_label s
          then view.labels s
          else map (λ l. some default_label) (view.labels s))
      else []

module _ {S : Type 0} (conn : PooledConn S) (view : View S) (laws : Statements conn view) where
  label_column-labels :
      (s s' : S) (o : Option ℕ)
      → o ≡ some (if view.has_label s then 1 else 0)
      → label_column conn o s ≡ ok s'
      → (view.has_table s' ≡ view.has_table s)
        × (view.has_label s' ≡ true)
        × (view.labels s' ≡ (
            if view.has_label s
            then view.labels s
            else map (λ l. some default_label) (view.labels s)))
  unfolding label_column
  label_column-labels s s' o e h = elim (Bool-cases (view.has_label s)) [
    | inl l ↦
        let same : ok s ≡ ok s' = rw (e, l, label_column) at h in
        let q : s ≡ s' = cc in
        (ap view.has_table (sym q), ap view.has_label (sym q) ∙ l, rw l (ap view.labels (sym q)))
    | inr l ↦
        let added : conn.query_drop add_label s ≡ ok s' = rw (e, l, label_column) at h in
        let (table, label, rows) = laws.adds s s' added in (table, label, rw l rows)
  ]

  -- If create_tables succeeds, then the table of the readings is there with its label column; its rows
  -- have the labels that they had, or, if the column was missing, the default label.
  pub create_tables-labels :
      (s s' : S)
      → create_tables conn s ≡ ok s'
      → (view.has_table s' ≡ true)
        × (view.has_label s' ≡ true)
        × (view.labels s' ≡ labels_after view s)
  unfolding create_tables
  create_tables-labels s s' h =
      let (c, created, h1) = ok_bind (conn.query_drop create_tables_statement s) _ s' h in
      let (o, counted, h2) = ok_bind (conn.query_first check_for_label c) _ s' h1 in
      let (table, label, rows) = laws.creates s c created in
      let (table', label', rows') = label_column-labels c s' o (laws.counts c o counted) h2 in
      (
        table' ∙ table,
        label',
        rows' ∙ elim (Bool-cases (view.has_table s)) [
          | inl t ↦ rw (label, rows, t) refl
          | inr t ↦ rw (label, rows, t) refl
        ],
      )

  -- If create_tables succeeds twice, as when the service is restarted, then the second run changes no
  -- label.
  pub create_tables_again :
      (s s' s'' : S)
      → create_tables conn s ≡ ok s'
      → create_tables conn s' ≡ ok s''
      → view.labels s'' ≡ view.labels s'
  create_tables_again s s' s'' first second =
      let (table, label, rows) = create_tables-labels s s' first in
      (create_tables-labels s' s'' second).2 ∙ rw (table, label) refl
