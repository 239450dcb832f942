-- ===== src/Database.antt =====
-- src/database.rs: the tables of readings and updates, and the statements that create and fill them.
-- The connection is the library's: whether each of its calls succeeds is a parameter. Database.Tables has
-- what is done once at the start.
pub mod Tables
use concordium_euro2ccd_serv.Base.{
  ℕ, Bool, true, false, Option, none, some, List, [], ◌∷◌, ◌++◌, String, if◌then◌else◌, Result, ok,
  err, ◌>>=◌, ◌==◌,
}
use concordium_euro2ccd_serv.Helpers.{ExchangeRate}

abbrev pub default_label : String
default_label = "bitfinex(v1)"

-- A row of read_values, and one of updates. Times are seconds since the epoch.
pub record ReadValue (F : Type 0) : Type 0 where
  pub value : F
  pub timestamp : ℕ
  pub label : String

pub record Update : Type 0 where
  pub numerator : ℕ
  pub denominator : ℕ
  pub timestamp : ℕ

pub record Database (F : Type 0) : Type 0 where
  pub read_values : List (ReadValue F)
  pub updates : List Update

-- The fault of a call of the library.
pub data Fault : Type 0 where
  get_conn prep exec : Fault
  query : Fault
  no_count : Fault

-- Which calls of the connection succeed during one write.
pub record Access : Type 0 where
  pub gets_conn : Bool
  pub preps : Bool
  pub execs : Bool

abbrev pub need : Bool → Fault → Result Fault (Unit {0})
need true fault = ok tt
need false fault = err fault

-- The statement runs only when all of the calls succeed.
unfoldable pub run_statement : {A : Type 0} → Access → A → Result Fault A
run_statement access row = do
  _ ← need access.gets_conn get_conn
  _ ← need access.preps prep
  _ ← need access.execs exec
  ok row

module _ {F : Type 0} where
  unfoldable pub write_read_rate :
      Access → (now : ℕ) → F → (label : String) → Database F → Result Fault (Database F)
  unfolding run_statement
  write_read_rate access now value label db = run_statement access (record db {
    read_values = db.read_values ++ record { value = value; timestamp = now; label = label } ∷ [];
  })

  unfoldable pub write_update_rate :
      Access → (now : ℕ) → ExchangeRate → Database F → Result Fault (Database F)
  unfolding run_statement
  write_update_rate access now value db = run_statement access (record db {
    updates =
        db.updates
        ++ record { numerator = value.numerator; denominator = value.denominator; timestamp = now }
          ∷ [];
  })
