-- ===== src/Database/Tables.antt =====
-- src/database.rs at the start of the service: the pool and the tables. The connection is the library's
-- and stands as a parameter; the statements are those of the source.
pub mod Labelled
pub mod Tests
use Prim.Native.String.{◌++◌}
use concordium_euro2ccd_serv.Base.{
  ℕ, Option, none, some, String, if◌then◌else◌, Result, ok, err, ◌>>=◌, ◌==◌,
}
use concordium_euro2ccd_serv.Database.{default_label, Fault, no_count}

abbrev pub create_tables_statement : String
create_tables_statement =
    "CREATE TABLE IF NOT EXISTS read_values (value DOUBLE NOT NULL, timestamp DATETIME NOT NULL, label VARCHAR(15)); CREATE TABLE IF NOT EXISTS updates (numerator BIGINT UNSIGNED NOT NULL, denominator BIGINT UNSIGNED NOT NULL, timestamp DATETIME NOT NULL);"

abbrev pub check_for_label : String
check_for_label =
    "SELECT count(*) FROM information_schema.columns WHERE table_name = 'read_values' AND column_name = 'label' and table_schema = DATABASE();"

abbrev pub add_label : String
add_label =
    "ALTER TABLE read_values ADD COLUMN label VARCHAR(15) DEFAULT '" ++ default_label ++ "';"

-- `Pool::new(Opts::from_url(url)?)`
unfoldable pub establish_connection_pool :
    {Url Pool : Type 0}
    → (from_url : String → Result Fault Url) → (new : Url → Result Fault Pool) → String
    → Result Fault Pool
establish_connection_pool from_url new url = from_url url >>= new

-- A connection to a database in a state of S.
pub record PooledConn (S : Type 0) : Type 0 where
  pub query_drop : String → S → Result Fault S
  pub query_first : String → S → Result Fault (Option ℕ)

module _ {S : Type 0} (conn : PooledConn S) where
  -- `match conn.query_first(CHECK_FOR_LABEL)? { ... }`
  pub label_column : Option ℕ → S → Result Fault S
  label_column none s = err no_count
  label_column (some n) s = if n == 0 then conn.query_drop add_label s else ok s

  unfoldable pub create_tables : S → Result Fault S
  unfolding label_column
  create_tables s = do
    created ← conn.query_drop create_tables_statement s
    count ← conn.query_first check_for_label created
    label_column count created
