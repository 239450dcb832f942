-- ===== src/Sources/Tests.antt =====
-- src/sources.rs at concrete exchanges: the body of an answer is the value in it.
use concordium_euro2ccd_serv.Base.{
  ℕ, zero, ◌+◌, ◌*◌, ◌^◌, ◌≤◌, ◌≡◌, refl, suc, true, false, Option, none, some, List, [], ◌∷◌, ◌++◌,
  Result, ok, err, All, length, arith,
}
use concordium_euro2ccd_serv.Config
use concordium_euro2ccd_serv.Rational.{Fraction, fractions, Reading, finite, below_zero, readings}
use concordium_euro2ccd_serv.Prometheus.{initialize}
use concordium_euro2ccd_serv.Sources.{bitfinex, coin_gecko, RequestBuilder}
use concordium_euro2ccd_serv.Sources.Backoff.{
  request_with_backoff, first_success, attempts, on_fails, slept,
  request_with_backoff-first_success, request_with_backoff-slept,
}
use concordium_euro2ccd_serv.Sources.Request.{
  Serde, Response, parse_response, request_exchange_rate, request_exchange_rate-some_iff,
}
use concordium_euro2ccd_serv.Sources.Pull.{
  state_of, Round, Pulling, running, pull_exchange_rate, pull_round, request,
}
use concordium_euro2ccd_serv.Sources.Pull.History.{last_n, accepted_rates, pull_exchange_rate-rates}
use concordium_euro2ccd_serv.Database.{ReadValue}
use concordium_euro2ccd_serv.Sources.{fmt}
use concordium_euro2ccd_serv.Sources.Pull.Stored.{HasLabel, pull_exchange_rate-stored}
use concordium_euro2ccd_serv.Sources.Pull.Positive.{IsPositive, pull_exchange_rate-IsPositive}

-- Attempts 0 and 1 fail, attempt 2 yields 42.
abbrev third : ℕ → Option ℕ
third zero = none
third (suc zero) = none
third (suc (suc i)) = some 42

third_test : (request_with_backoff third 10 5).0 ≡ some 42
unfolding request_with_backoff
third_test = refl

request_with_backoff-first_success_example :
    let (result, events) = request_with_backoff third 10 5 in
    (result ≡ some 42) × (attempts events ≡ suc (on_fails events)) × (on_fails events ≤ 5)
request_with_backoff-first_success_example = request_with_backoff-first_success third 10 5

request_with_backoff-slept_example :
    let events = (request_with_backoff third 10 5).1 in slept events + 10 ≡ 10 * 2 ^ on_fails events
request_with_backoff-slept_example = request_with_backoff-slept third 10 5 (omega arith)

abbrev pub plain : Serde Reading
plain = record {
  Bytes = Reading;
  Error = Unit {0};
  vec_f64 = λ b. ok (b ∷ []);
  live_coin_watch_response = λ b. ok (record { rate = b });
  coin_market_cap_response = λ b. err tt;
  coin_gecko_response = λ b. ok (record { concordium = record { eur = b } });
}

-- n / (d + 1).
abbrev pub frac : ℕ → ℕ → Fraction
frac n d = record { num = n; den = suc d; den_pos = omega arith }

abbrev pub reading : ℕ → ℕ → Reading
reading n d = finite (frac n d)

abbrev answer : Reading → RequestBuilder → Result (Unit {0}) (Response plain)
answer v request = ok (record { is_success = true; bytes = ok v })

request_exchange_rate-some_iff_example :
    request_exchange_rate plain readings.is_negative (answer (reading 1 19)) bitfinex
    ≡ some (reading 1 19)
unfolding parse_response
request_exchange_rate-some_iff_example =
    (request_exchange_rate-some_iff plain readings.is_negative (answer (reading 1 19)) bitfinex
        (reading 1 19)).1
      (
        record { is_success = true; bytes = ok (reading 1 19) },
        reading 1 19,
        refl,
        refl,
        refl,
        refl,
        refl,
      )

-- A round in which every attempt is answered with one value.
abbrev pub round : Reading → Round fractions readings plain
round v = record {
  send = λ i. answer v;
  access = record { gets_conn = true; preps = true; execs = true };
  written_at = 50;
  now = 60;
  found = true;
}

abbrev pub start : Pulling fractions readings plain
start = record {
  stats = initialize Reading;
  rate_history = record { rates = []; last_reading_timestamp = 0 };
  db = record { read_values = []; updates = [] };
}

-- Three good readings and a negative one, into a history of two.
abbrev rounds : List (Round fractions readings plain)
rounds = round (reading 1 19) ∷ round (reading 1 24) ∷ round below_zero ∷ round (reading 1 49) ∷ []

rounds_test :
    (s' : Pulling fractions readings plain) × (pull_exchange_rate fractions readings plain
        coin_gecko 2 false rounds start
      ≡ running s')
    × (length s'.rate_history.rates ≡ 2)
unfolding pull_exchange_rate pull_round request_with_backoff request_exchange_rate parse_response
rounds_test = (_, refl, refl)

pull_exchange_rate-rates_example :
    rounds_test.0.rate_history.rates
    ≡ last_n 2 ([] ++ accepted_rates fractions readings plain coin_gecko 2 false rounds)
pull_exchange_rate-rates_example =
    pull_exchange_rate-rates fractions readings plain coin_gecko 2 false rounds start rounds_test.0
      (omega arith) rounds_test.1

pull_exchange_rate-IsPositive_example : All (IsPositive fractions) rounds_test.0.rate_history.rates
pull_exchange_rate-IsPositive_example =
    pull_exchange_rate-IsPositive fractions readings plain coin_gecko 2 false rounds start
      rounds_test.0 tt rounds_test.1

pub zero_read :
    first_success
      (request fractions readings plain coin_gecko 2 false (round (reading 0 0)))
      0
      Config.max_retries
    ≡ some (reading 0 0)
unfolding request_exchange_rate parse_response
zero_read = refl

-- All four rounds with a database that answers.
pull_exchange_rate-stored_example :
    let s' =
      state_of (pull_exchange_rate fractions readings plain coin_gecko 2 true rounds start) in
    (rows : List (ReadValue Reading)) × (s'.db.read_values ≡ [] ++ rows)
    × All (HasLabel (fmt coin_gecko)) rows
    × (s'.db.updates ≡ [])
pull_exchange_rate-stored_example =
    pull_exchange_rate-stored fractions readings plain coin_gecko 2 true rounds start
