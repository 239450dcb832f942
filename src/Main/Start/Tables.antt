-- ===== src/Main/Start/Tables.antt =====
-- src/main.rs with src/database.rs: the tables that the main loop is entered with.
use concordium_euro2ccd_serv.Base.{
  ok_bind, ℕ, ℤ, ◌≡◌, sym, ap, ◌∙◌, Bool, true, Option, some, String, ok,
}
use concordium_euro2ccd_serv.Rational.{Rational, Float}
use concordium_euro2ccd_serv.Database.Tables.{PooledConn, establish_connection_pool, create_tables}
use concordium_euro2ccd_serv.Database.Tables.Labelled.{
  View, Statements, labels_after, create_tables-labels,
}
use concordium_euro2ccd_serv.Node.{Sdk}
use concordium_euro2ccd_serv.Main.Options.{App}
use concordium_euro2ccd_serv.Main.Cycle.{Service}
use concordium_euro2ccd_serv.Main.Start.{Setup, open_database, start}
use concordium_euro2ccd_serv.Main.Start.Entry.{start-Started, enter-fresh}

module _ (num : Rational) (float : Float num) (gcd : ℤ → ℤ → ℕ) (sdk : Sdk) where
  -- An opened database has run create_tables over a connection of its pool.
  open_database-creates :
      (setup : Setup num float gcd sdk) (url : String) (tables : setup.Tables)
      → open_database num float gcd sdk setup (some url) ≡ ok tables
      → (pool : setup.Pool) × (main_conn : PooledConn setup.Tables) × (setup.get_conn pool
          ≡ ok main_conn)
        × (create_tables main_conn setup.tables ≡ ok tables)
  unfolding open_database
  open_database-creates setup url tables h =
      let (pool, _, h1) =
        ok_bind (establish_connection_pool setup.from_url setup.new_pool url) _ tables h in
      let (main_conn, got, h2) = ok_bind (setup.get_conn pool) _ tables h1 in
      (pool, main_conn, got, h2)

  opened :
      (setup : Setup num float gcd sdk) {o : Option String} {url : String} {tables : setup.Tables}
      → o ≡ some url
      → open_database num float gcd sdk setup o ≡ ok tables
      → open_database num float gcd sdk setup (some url) ≡ ok tables
  opened setup e h = ap (open_database num float gcd sdk setup) (sym e) ∙ h

  -- If a service starts with the URL of a database, whose connections treat the three statements as
  -- MySQL documents, then the main loop is entered with the table of the readings there, with its
  -- label column, and with the labels that its rows had before, or, if the column was missing, the
  -- default label.
  pub start-labels :
      (test_label : ℕ → String) (lock_file : Bool) (app : App) (setup : Setup num float gcd sdk)
      (s : Service num float gcd sdk) (url : String) (view : View setup.Tables)
      (laws : (pool : setup.Pool) (conn : PooledConn setup.Tables)
        → setup.get_conn pool ≡ ok conn
        → Statements conn view)
      → app.database_url ≡ some url
      → start num float gcd sdk test_label lock_file app setup ≡ ok s
      → (tables : setup.Tables) × (s.db ≡ setup.rows tables)
        × (view.has_table tables ≡ true)
        × (view.has_label tables ≡ true)
        × (view.labels tables ≡ labels_after view setup.tables)
  start-labels test_label lock_file app setup s url view laws has h =
      let w = start-Started num float gcd sdk test_label lock_file app setup s h in
      let (pool, conn, got, created) =
        open_database-creates setup url w.found.tables (opened setup has w.opened) in
      let (_, _, fresh) =
        enter-fresh num float gcd sdk setup lock_file w.source w.found s w.entered in
      let (table, label, labels) =
        create_tables-labels conn view (laws pool conn got) setup.tables w.found.tables created in
      (w.found.tables, ap (λ (t : Service num float gcd sdk). t.db) fresh, table, label, labels)
