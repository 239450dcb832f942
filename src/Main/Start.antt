-- ===== src/Main/Start.antt =====
-- The start of src/main.rs, from the checks of the options to the variables of the main loop.
pub mod Entry
pub mod Signing
pub mod Tables
pub mod Success
pub mod Restart
pub mod Tests
use concordium_euro2ccd_serv.Base.{
  ℕ, ℤ, Bool, true, false, Option, none, some, List, map, String, Result, ok, err, ◌>>=◌, map_err,
}
use concordium_euro2ccd_serv.Rational.{Rational, Float}
use concordium_euro2ccd_serv.Helpers.{ExchangeRate}
use concordium_euro2ccd_serv.Prometheus.{initialize, set_protected}
use concordium_euro2ccd_serv.Database.{Database, Fault}
use concordium_euro2ccd_serv.Database.Tables.{PooledConn, establish_connection_pool, create_tables}
use concordium_euro2ccd_serv.Keys.{KeyError, get_governance_from_aws, get_governance_from_file}
use concordium_euro2ccd_serv.Node.{Sdk, get_node_client}
use concordium_euro2ccd_serv.Main.Options.{
  App, Refusal, check_thresholds, check_sources, KeySource, dry, aws, files, choose_keys,
}
use concordium_euro2ccd_serv.Main.Cycle.{Thresholds, Service}

-- What the program reads of the chain parameters: the rate and the keys that may update it.
pub record Parameters (UpdateKeys : Type 0) : Type 0 where
  pub micro_ccd_per_euro : ExchangeRate
  pub common_update_keys : UpdateKeys

-- The chain parameters of the protocol versions.
pub data ChainParameters (UpdateKeys : Type 0) : Type 0 where
  v0 v1 v2 v3 : Parameters UpdateKeys → ChainParameters UpdateKeys

abbrev pub version : {UpdateKeys : Type 0} → ChainParameters UpdateKeys → Parameters UpdateKeys
version (v0 params) = params
version (v1 params) = params
version (v2 params) = params
version (v3 params) = params

-- Why the service does not start; `zero_denominator` is the panic of BigRational::new.
pub data StartFault : Type 0 where
  refused : Refusal → StartFault
  database : Fault → StartFault
  metrics no_client query zero_denominator could_not_obtain_keys no_signer : StartFault

abbrev pub demand : Bool → StartFault → Result StartFault (Unit {0})
demand true fault = ok tt
demand false fault = err fault

abbrev pub ok_or : {A : Type 0} → Option A → StartFault → Result StartFault A
ok_or none fault = err fault
ok_or (some a) fault = ok a

module _ (num : Rational) (float : Float num) (gcd : ℤ → ℤ → ℕ) (sdk : Sdk) where
  open num use {Q, from_integer, checked_div}

  unfoldable pub thresholds_of : App → Thresholds num
  thresholds_of app = record {
    warning_increase_threshold = from_integer app.warning_increase_threshold;
    halt_increase_threshold = from_integer app.halt_increase_threshold;
    warning_decrease_threshold = from_integer app.warning_decrease_threshold;
    halt_decrease_threshold = from_integer app.halt_decrease_threshold;
  }

  -- What the libraries answer during the start: MySQL, the registration of the metrics, the nodes with
  -- their chain parameters and next sequence number, AWS, the files and the decoding of the keys.
  pub record Setup : Type 1 where
    pub Url : Type 0
    pub Pool : Type 0
    -- the state of the database, and the rows in it
    pub Tables : Type 0
    pub from_url : String → Result Fault Url
    pub new_pool : Url → Result Fault Pool
    pub get_conn : Pool → Result Fault (PooledConn Tables)
    pub tables : Tables
    pub rows : Tables → Database float.F
    pub starts_metrics : Bool
    pub endpoint : String → sdk.Endpoint
    pub connect : sdk.Endpoint → Option sdk.Client
    pub UpdateKeys : Type 0
    pub parameters : sdk.Client → Option (ChainParameters UpdateKeys)
    pub next_seq : sdk.Client → Option sdk.UpdateSequenceNumber
    pub UpdateKeyPair : Type 0
    pub File : Type 0
    pub Error : Type 0
    -- by the region and the name of the secret
    pub get_secret_value : String → String → Result Error (Option String)
    pub from_str : String → Result Error UpdateKeyPair
    pub open_file : String → Result Error File
    pub from_reader : File → Result Error UpdateKeyPair
    pub construct_update_signer : UpdateKeys → List UpdateKeyPair → Option sdk.Signer

  -- The pool is only opened, and the tables created, if there is a URL.
  pub open_database : (setup : Setup) → Option String → Result Fault setup.Tables
  open_database setup none = ok setup.tables
  open_database setup (some url) = do
    pool ← establish_connection_pool setup.from_url setup.new_pool url
    main_conn ← setup.get_conn pool
    create_tables main_conn setup.tables

  -- What the start has read before it chooses the mode.
  pub record Found (setup : Setup) : Type 0 where
    pub tables : setup.Tables
    pub client : sdk.Client
    pub parameters : ChainParameters setup.UpdateKeys
    pub seq_number : sdk.UpdateSequenceNumber
    pub prev_rate : Q

  -- BigRational::new of the rate on the chain.
  unfoldable pub initial_rate : {UpdateKeys : Type 0} → ChainParameters UpdateKeys → Option Q
  initial_rate parameters =
      let rate = (version parameters).micro_ccd_per_euro in
      checked_div (from_integer rate.numerator) (from_integer rate.denominator)

  -- The variables of the main loop, before the mode is chosen.
  abbrev pub fresh_service : (setup : Setup) → Bool → Found setup → Service num float gcd sdk
  fresh_service setup lock_file found = record {
    seq_number = found.seq_number;
    prev_rate = found.prev_rate;
    last_update_timestamp = 1;
    signer = none;
    node_client = found.client;
    stats = initialize float.F;
    lock_file = lock_file;
    db = setup.rows found.tables;
  }

  -- The signer from the loaded keys.
  pub sign :
      (setup : Setup)
      → Bool
      → Found setup
      → Result (KeyError setup.Error) (List setup.UpdateKeyPair)
      → Result StartFault (Service num float gcd sdk)
  sign setup lock_file found loaded = do
    secret_keys ← map_err (λ e. could_not_obtain_keys) loaded
    signer ←
        ok_or
          (setup.construct_update_signer (version found.parameters).common_update_keys secret_keys)
          no_signer
    ok (record (fresh_service setup lock_file found) { signer = some signer })

  -- The choice between a dry and a wet run.
  pub enter :
      (setup : Setup)
      → Bool
      → KeySource
      → Found setup
      → Result StartFault (Service num float gcd sdk)
  unfolding sign
  enter setup lock_file dry found = ok (record (fresh_service setup lock_file found) {
    stats = set_protected float.F (initialize float.F);
  })
  enter setup lock_file (aws region secret_names) found =
      sign setup lock_file found
        (get_governance_from_aws (setup.get_secret_value region) setup.from_str secret_names)
  enter setup lock_file (files local_keys) found =
      sign setup lock_file found
        (get_governance_from_file setup.open_file setup.from_reader local_keys)

  -- Everything before the main loop. `lock_file` is whether the lock file exists.
  unfoldable pub start :
      (test_label : ℕ → String) → Bool → App → Setup → Result StartFault (Service num float gcd sdk)
  unfolding open_database enter
  start test_label lock_file app setup = do
    _ ← map_err refused (check_thresholds app)
    tables ← map_err database (open_database setup app.database_url)
    _ ← demand setup.starts_metrics metrics
    client ← ok_or (get_node_client sdk setup.connect (map setup.endpoint app.endpoint)) no_client
    parameters ← ok_or (setup.parameters client) query
    seq_number ← ok_or (setup.next_seq client) query
    prev_rate ← ok_or (initial_rate parameters) zero_denominator
    _ ← map_err refused (check_sources test_label app)
    source ← map_err refused (choose_keys lock_file app)
    enter setup lock_file source (record {
      tables = tables;
      client = client;
      parameters = parameters;
      seq_number = seq_number;
      prev_rate = prev_rate;
    })
