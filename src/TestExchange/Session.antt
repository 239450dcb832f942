-- ===== src/TestExchange/Session.antt =====
-- The test exchange of test_exchange/src/main.rs as the source of a task of src/sources.rs: every request
-- of the task is answered by the route of the rate.
pub mod Roundtrip
use concordium_euro2ccd_serv.Base.{ℕ, zero, suc, Bool, true, Option, List, [], ◌∷◌, Result, ok}
use concordium_euro2ccd_serv.Config
use concordium_euro2ccd_serv.Rational.{Rational, Float}
use concordium_euro2ccd_serv.Database.{Access}
use concordium_euro2ccd_serv.Sources.{Source}
use concordium_euro2ccd_serv.Sources.Backoff.{attempts, request_with_backoff}
use concordium_euro2ccd_serv.Sources.Request.{Serde, Response}
use concordium_euro2ccd_serv.Sources.Pull.{
  Task, running, panicked, Round, Pulling, request, pull_round,
}
use concordium_euro2ccd_serv.TestExchange.{Exchange, serve_rate}

-- What happens around a round besides the exchange.
pub record Nearby : Type 0 where
  pub access : Access
  pub written_at : ℕ
  pub now : ℕ
  pub found : Bool

module _ (num : Rational) (float : Float num) (serde : Serde float.F) {Value : Type 0}
    (json : float.F → Value) (to_json : List Value → serde.Bytes) where
  -- `warp::reply::json`, which answers with a success.
  abbrev pub reply : List Value → Response serde
  reply values = record { is_success = true; bytes = ok (to_json values) }

  -- The answer to request i from now, and the exchange after n requests.
  pub served : Exchange json → ℕ → List Value
  served e zero = (serve_rate json e).0
  served e (suc i) = served (serve_rate json e).1 i

  pub polled : ℕ → Exchange json → Exchange json
  polled zero e = e
  polled (suc n) e = polled n (serve_rate json e).1

  abbrev pub asking : Nearby → Exchange json → Round num float serde
  asking near e = record {
    send = λ i b. ok (reply (served e i));
    access = near.access;
    written_at = near.written_at;
    now = near.now;
    found = near.found;
  }

  module _ (source : Source) (max_rates_saved : ℕ) (db_conn_pool : Bool) where
    -- The exchange after the requests of one round.
    abbrev pub asked : Nearby → Exchange json → Exchange json
    asked near e =
        let asks = request num float serde source max_rates_saved db_conn_pool (asking near e) in
        polled
          (attempts (request_with_backoff asks Config.initial_retry_interval Config.max_retries).1)
          e

    -- The task's rounds against the exchange.
    pub session :
        List Nearby
        → Exchange json
        → Pulling num float serde
        → Task (Pulling num float serde) × Exchange json
    session [] e s = (running s, e)
    session (near ∷ nears) e s =
        elim (pull_round num float serde source max_rates_saved db_conn_pool (asking near e) s) [
          | running s' ↦ session nears (asked near e) s'
          | panicked s' ↦ (panicked s', asked near e)
        ]
