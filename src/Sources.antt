-- ===== src/Sources.antt =====
-- src/sources.rs: the exchanges as sources of rates, the request to each and the reading of its
-- answer, the retries with exponential backoff, and the task that keeps a source's history.
pub mod Backoff
pub mod Request
pub mod Pull
pub mod Tests
mod UnitTests
use concordium_euro2ccd_serv.Base.{ℕ, Bool, false, List, [], ◌∷◌, String}
use concordium_euro2ccd_serv.Config

-- The readings of one source, the oldest first, and when the last came, in seconds since the epoch.
pub record RateHistory (Q : Type 0) : Type 0 where
  pub rates : List Q
  pub last_reading_timestamp : ℕ

-- A URL of the library; `String` is an API key.
pub data Source : Type 0 where
  bitfinex : Source
  test : String → String → Source
  coin_gecko : Source
  live_coin_watch : String → Source
  coin_market_cap : String → Source

-- The label of a source.
unfoldable pub fmt : Source → String
fmt bitfinex = "bitfinex"
fmt (live_coin_watch _) = "live_coin_watch"
fmt (coin_market_cap _) = "coin_market_cap"
fmt coin_gecko = "coin_gecko"
fmt (test url label) = label

pub data Method : Type 0 where
  get post : Method

-- The JSON values that the program writes.
pub data Json : Type 0 where
  text : String → Json
  boolean : Bool → Json

-- What the program asks of reqwest's RequestBuilder: method, URL, the fields of a JSON body (none
-- if there is no body), and headers.
pub record RequestBuilder : Type 0 where
  pub method : Method
  pub url : String
  pub json : List (String × Json)
  pub headers : List (String × String)

unfoldable pub get_request : Source → RequestBuilder
get_request bitfinex = record {
  method = post;
  url = Config.bitfinex_url;
  json = ("ccy1", text "CCD") ∷ ("ccy2", text "EUR") ∷ [];
  headers = [];
}
get_request (live_coin_watch api_key) = record {
  method = post;
  url = Config.livecoinwatch_url;
  json = ("currency", text "EUR") ∷ ("code", text "CCD") ∷ ("meta", boolean false) ∷ [];
  headers = ("x-api-key", api_key) ∷ [];
}
get_request (coin_market_cap api_key) = record {
  method = get;
  url = Config.coinmarketcap_url;
  json = [];
  headers = ("X-CMC_PRO_API_KEY", api_key) ∷ [];
}
get_request coin_gecko = record {
  method = get;
  url = Config.coingecko_url;
  json = [];
  headers = [];
}
get_request (test url label) = record { method = get; url = url; json = []; headers = [] }
