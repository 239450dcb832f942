-- ===== src/Config.antt =====
-- src/config.rs: the constants of the service, in seconds, and its addresses.
use concordium_euro2ccd_serv.Base.{ℕ, String}

abbrev pub max_time_check_submission : ℕ
max_time_check_submission = 120

abbrev pub max_retries : ℕ
max_retries = 5

abbrev pub initial_retry_interval : ℕ
initial_retry_interval = 10

abbrev pub bitfinex_url : String
bitfinex_url = "https://api-pub.bitfinex.com/v2/calc/fx"

abbrev pub livecoinwatch_url : String
livecoinwatch_url = "https://api.livecoinwatch.com/coins/single"

abbrev pub coingecko_url : String
coingecko_url = "https://api.coingecko.com/api/v3/simple/price?ids=concordium&vs_currencies=eur"

abbrev pub coinmarketcap_url : String
coinmarketcap_url =
    "https://pro-api.coinmarketcap.com/v2/cryptocurrency/quotes/latest?convert=EUR&slug=concordium&aux=tags"

abbrev pub forced_dry_run_file : String
forced_dry_run_file = "update.lockfile"

abbrev pub retry_submission_interval : ℕ
retry_submission_interval = 10

abbrev pub update_expiry_offset : ℕ
update_expiry_offset = 100

abbrev pub aws_region : String
aws_region = "eu-central-1"
