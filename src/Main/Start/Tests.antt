-- ===== src/Main/Start/Tests.antt =====
-- The start of src/main.rs with the default options, at a concrete node, and again after a halt.
use concordium_euro2ccd_serv.Base.{
  ok_value, ℕ, ◌≡◌, length, subst, List, ◌==◌, if◌then◌else◌, none, refl, ap, ◌∙◌, ◌↔◌, ◌⊎◌, inl,
  arith, true, false, some, [], ◌∷◌, String, ok,
}
use concordium_euro2ccd_serv.Rational.{fractions, readings}
use concordium_euro2ccd_serv.Helpers.Euclid.{euclid}
use concordium_euro2ccd_serv.Node.{get_node_client}
use concordium_euro2ccd_serv.Node.Tests.{numbers}
use concordium_euro2ccd_serv.Main.Options.{
  App, check_thresholds, check_sources, chosen_sources, choose_keys,
}
use concordium_euro2ccd_serv.Main.Cycle.{Service, main_cycle}
use concordium_euro2ccd_serv.Main.Cycle.Tests.{
  thresholds, service, around, jump, jump_rate, jump_outside,
}
use concordium_euro2ccd_serv.Main.Cycle.Protected.{IsProtected}
use concordium_euro2ccd_serv.Main.Cycle.Halt.{main_loop_protects}
use concordium_euro2ccd_serv.Main.Tests.{app}
use concordium_euro2ccd_serv.Keys.{get_governance_from_file}
use concordium_euro2ccd_serv.Database.Tables.{establish_connection_pool, create_tables}
use concordium_euro2ccd_serv.Database.Tables.Labelled.{Statements, labels_after}
use concordium_euro2ccd_serv.Database.Tables.Tests.{Toy, toy, view, old, new, laws}
use concordium_euro2ccd_serv.Main.Start.{
  ChainParameters, version, v3, Setup, open_database, initial_rate, start,
}
use concordium_euro2ccd_serv.Main.Start.Signing.{OptionKeys, start-signer}
use concordium_euro2ccd_serv.Main.Start.Success.{start_wet}
use concordium_euro2ccd_serv.Main.Start.Tables.{start-labels}
use concordium_euro2ccd_serv.Main.Start.Restart.{start-IsProtected_iff}

abbrev pub label : ℕ → String
label i = "test"

-- A database from before the label column; key pairs are their texts, and so are secrets and files.
abbrev pub setup : Setup fractions readings euclid.gcd numbers
setup = record {
  Url = String;
  Pool = String;
  Tables = Toy;
  from_url = ok;
  new_pool = ok;
  get_conn = λ pool. ok toy;
  tables = old;
  rows = λ t. record { read_values = []; updates = [] };
  starts_metrics = true;
  endpoint = λ url. 3;
  connect = λ e. some 1;
  UpdateKeys = ℕ;
  parameters = λ c. some (
      v3 (record {
        micro_ccd_per_euro = record { numerator = 40000000; denominator = 1 };
        common_update_keys = 2;
      }));
  next_seq = λ c. some 9;
  UpdateKeyPair = String;
  File = String;
  Error = Unit {0};
  get_secret_value = λ region name. ok (some name);
  from_str = ok;
  open_file = ok;
  from_reader = ok;
  construct_update_signer = λ keys kps. if length kps == keys then some 5 else none;
}

-- With the lock file, the start needs no keys.
pub locked_start :
    (s : Service fractions readings euclid.gcd numbers) × (start fractions readings euclid.gcd
        numbers label true app setup
      ≡ ok s)
unfolding start initial_rate check_thresholds check_sources chosen_sources choose_keys
    get_node_client
locked_start = (_, refl)

start-IsProtected_iff_example :
    IsProtected fractions readings euclid.gcd numbers (3 ∷ []) thresholds false locked_start.0
    ↔ ((false ≡ true) ⊎ (true ≡ true))
start-IsProtected_iff_example =
    start-IsProtected_iff fractions readings euclid.gcd numbers label (3 ∷ []) thresholds false true
      app setup locked_start.0 locked_start.1

pub restarted :
    start fractions readings euclid.gcd numbers label
      (main_cycle fractions readings euclid.gcd numbers
        (3 ∷ [])
        thresholds
        false
        around
        jump
        service).service.lock_file
      app
      setup
    ≡ ok locked_start.0
restarted =
    ap (λ lock. start fractions readings euclid.gcd numbers label lock app setup)
      (main_loop_protects fractions readings euclid.gcd numbers (3 ∷ []) thresholds false around
        jump jump_rate.0 [] service jump_rate.1 refl jump_outside).1
    ∙ locked_start.1

-- With two key files, the start is wet; the database has the rows of the first version.
abbrev pub wet_app : App
wet_app = record app { local_keys = "a" ∷ "b" ∷ []; database_url = some "mysql://localhost" }

unfoldable pub wet_start :
    (s : Service fractions readings euclid.gcd numbers) × (start fractions readings euclid.gcd
        numbers label false wet_app setup
      ≡ ok s)
    × (s.signer ≡ some 5)
unfolding start initial_rate check_thresholds check_sources chosen_sources choose_keys
    get_node_client establish_connection_pool create_tables get_governance_from_file
wet_start = (_, refl, refl)

start-signer_example :
    (false ≡ false)
    × (false ≡ false)
    × (get_node_client numbers setup.connect (3 ∷ []) ≡ some wet_start.0.node_client)
    × (setup.next_seq wet_start.0.node_client ≡ some wet_start.0.seq_number)
    × (parameters : ChainParameters ℕ) × (kps : List String) × (setup.parameters
          wet_start.0.node_client
        ≡ some parameters)
    × (initial_rate fractions readings euclid.gcd numbers parameters ≡ some wet_start.0.prev_rate)
    × OptionKeys fractions readings euclid.gcd numbers wet_app setup kps
    × (setup.construct_update_signer (version parameters).common_update_keys kps ≡ some 5)
start-signer_example =
    start-signer fractions readings euclid.gcd numbers wet_app setup label false wet_start.0 5
      wet_start.1 wet_start.2

start-labels_example :
    (tables : Toy) × (wet_start.0.db ≡ setup.rows tables)
    × (view.has_table tables ≡ true)
    × (view.has_label tables ≡ true)
    × (view.labels tables ≡ labels_after view old)
start-labels_example =
    start-labels fractions readings euclid.gcd numbers label false wet_app setup wet_start.0
      "mysql://localhost" view (λ pool conn e. subst (λ c. Statements c view) (ok_value e) laws)
      refl wet_start.1

opens :
    open_database fractions readings euclid.gcd numbers setup (some "mysql://localhost") ≡ ok new
unfolding open_database establish_connection_pool create_tables
opens = refl

start_wet_example :
    (s : Service fractions readings euclid.gcd numbers) × (start fractions readings euclid.gcd
        numbers label false wet_app setup
      ≡ ok s)
    × (s.signer ≡ some 5)
    × (s.node_client ≡ 1)
    × (s.seq_number ≡ 9)
unfolding chosen_sources get_node_client
start_wet_example =
    start_wet fractions readings euclid.gcd numbers wet_app setup label new 1
      (v3 (record {
        micro_ccd_per_euro = record { numerator = 40000000; denominator = 1 };
        common_update_keys = 2;
      }))
      9 ("a" ∷ "b" ∷ []) 5 (λ e. cc) (omega arith) (omega arith) (omega arith) (omega arith) opens
      refl refl refl refl (omega arith) (λ e. cc) refl (inl ((λ e. cc), (refl, (refl, tt)))) refl
