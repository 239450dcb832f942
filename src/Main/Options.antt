-- ===== src/Main/Options.antt =====
-- The options of src/main.rs, the checks of them that stop the service, and the sources that they add.
use concordium_euro2ccd_serv.Base.{
  ℕ, suc, ◌≤◌, ◌<◌, ◌≡◌, ◌≢◌, ◌↔◌, ◌⊎◌, Bool, true, false, ◌&&◌, Option, none, some, List, [], ◌∷◌,
  ◌++◌, String, Result, ok, err, ◌>>=◌, leb, ltb, if◌then◌else◌, arith,
}
use concordium_euro2ccd_serv.Config
use concordium_euro2ccd_serv.Sources.{
  Source, bitfinex, test, coin_gecko, live_coin_watch, coin_market_cap,
}

-- The options. URLs, paths, the log level and the node's endpoints are texts; thresholds are in percent.
pub record App : Type 0 where
  pub endpoint : List String
  pub secret_names : List String
  pub region : String
  pub update_interval : ℕ
  pub pull_interval : ℕ
  pub log_level : String
  pub warning_increase_threshold : ℕ
  pub halt_increase_threshold : ℕ
  pub warning_decrease_threshold : ℕ
  pub halt_decrease_threshold : ℕ
  pub prometheus_port : ℕ
  pub max_rates_saved : ℕ
  pub test_sources : List String
  pub local_keys : List String
  pub dry_run : Bool
  pub database_url : Option String
  pub coin_gecko : Bool
  pub coin_market_cap : Option String
  pub live_coin_watch : Option String
  pub bitfinex : Bool

-- The options when the command line and the environment give none.
abbrev pub defaults : App
defaults = record {
  endpoint = "http://localhost:10000" ∷ [];
  secret_names = [];
  region = Config.aws_region;
  update_interval = 1800;
  pull_interval = 60;
  log_level = "info";
  warning_increase_threshold = 30;
  halt_increase_threshold = 100;
  warning_decrease_threshold = 15;
  halt_decrease_threshold = 50;
  prometheus_port = 8112;
  max_rates_saved = 60;
  test_sources = [];
  local_keys = [];
  dry_run = false;
  database_url = none;
  coin_gecko = false;
  coin_market_cap = none;
  live_coin_watch = none;
  bitfinex = false;
}

-- The failures of the checks before the main loop.
pub data Refusal : Type 0 where
  no_node : Refusal
  increase_thresholds : Refusal
  halt_decrease_range : Refusal
  decrease_thresholds : Refusal
  no_source : Refusal
  no_keys : Refusal

abbrev pub ensure : Bool → Refusal → Result Refusal (Unit {0})
ensure true refusal = ok tt
ensure false refusal = err refusal

abbrev pub is_empty {ℓ} : {A : Type ℓ} → List A → Bool
is_empty [] = true
is_empty (x ∷ xs) = false

abbrev pub is_nonempty {ℓ} : {A : Type ℓ} → List A → Bool
is_nonempty [] = false
is_nonempty (x ∷ xs) = true

-- The four checks of the nodes and the thresholds, in order.
unfoldable pub check_thresholds : App → Result Refusal (Unit {0})
check_thresholds app = do
  _ ← ensure (is_nonempty app.endpoint) no_node
  _ ← ensure (ltb app.warning_increase_threshold app.halt_increase_threshold) increase_thresholds
  _ ←
      ensure (leb 1 app.halt_decrease_threshold && leb app.halt_decrease_threshold 100)
        halt_decrease_range
  ensure (ltb app.warning_decrease_threshold app.halt_decrease_threshold) decrease_thresholds

-- The checks pass exactly if there is a node, each warning threshold is below its halt threshold, and
-- the halt threshold of a decrease is between 1 and 100 percent.
pub check_thresholds-ok_iff :
    (app : App)
    → (check_thresholds app ≡ ok tt) ↔ (
        (app.endpoint ≢ [])
        × (app.warning_increase_threshold < app.halt_increase_threshold)
        × (1 ≤ app.halt_decrease_threshold)
        × (app.halt_decrease_threshold ≤ 100)
        × (app.warning_decrease_threshold < app.halt_decrease_threshold))
unfolding check_thresholds
check_thresholds-ok_iff app = ground arith

-- Test sources are numbered from i; `show` prints a number.
module _ (test_label : ℕ → String) where
  pub test_sources_from : ℕ → List String → List Source
  test_sources_from i [] = []
  test_sources_from i (url ∷ urls) = test url (test_label i) ∷ test_sources_from (suc i) urls

  abbrev pub with_key : (String → Source) → Option String → List Source
  with_key source none = []
  with_key source (some api_key) = source api_key ∷ []

  -- The sources in the order in which main adds them, each with a history and a task of its own.
  unfoldable pub chosen_sources : App → List Source
  unfolding test_sources_from
  chosen_sources app =
      (if app.coin_gecko then coin_gecko ∷ [] else [])
      ++ ((if app.bitfinex then bitfinex ∷ [] else [])
          ++ (with_key coin_market_cap app.coin_market_cap
              ++ (with_key live_coin_watch app.live_coin_watch
                  ++ test_sources_from 0 app.test_sources)))

  -- `ensure!(!rate_histories.is_empty(), ...)`
  unfoldable pub check_sources : App → Result Refusal (Unit {0})
  unfolding chosen_sources
  check_sources app = ensure (is_nonempty (chosen_sources app)) no_source

-- Where the service gets its keys from, or none in a dry run.
pub data KeySource : Type 0 where
  dry : KeySource
  aws : String → List String → KeySource
  files : List String → KeySource

-- `is_dry_run_forced` is whether the lock file exists.
unfoldable pub choose_keys : (forced_dry_run : Bool) → App → Result Refusal KeySource
choose_keys forced_dry_run app =
    if (if app.dry_run then true else forced_dry_run)
    then ok dry
    else if is_empty app.local_keys
    then (ensure (is_nonempty app.secret_names) no_keys >>= λ _.
        ok (aws app.region app.secret_names))
    else ok (files app.local_keys)

-- A dry run is chosen exactly if the option asks for it or the lock file exists, whatever the other
-- options say about keys.
pub choose_keys-dry_iff :
    (forced_dry_run : Bool) (app : App)
    → (choose_keys forced_dry_run app ≡ ok dry) ↔ ((app.dry_run ≡ true) ⊎ (forced_dry_run ≡ true))
unfolding choose_keys
choose_keys-dry_iff forced_dry_run app = ground arith
