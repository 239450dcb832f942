-- ===== src/TestExchange/Tests.antt =====
-- test_exchange/src/main.rs at a session whose values are numbers.
use concordium_euro2ccd_serv.Base.{ℕ, ◌≡◌, refl, true, some, List, [], ◌∷◌, arith}
use concordium_euro2ccd_serv.Rational.{Fraction, fractions, Reading, below_zero, readings}
use concordium_euro2ccd_serv.Sources.{test}
use concordium_euro2ccd_serv.Sources.Pull.{Pulling, running}
use concordium_euro2ccd_serv.Sources.Tests.{plain, reading, start as empty}
use concordium_euro2ccd_serv.Sources.Pull.History.{converted}
use concordium_euro2ccd_serv.TestExchange.Session.{Nearby, session}
use concordium_euro2ccd_serv.TestExchange.Session.Roundtrip.{Posted, values, session_roundtrip}
use concordium_euro2ccd_serv.TestExchange.{
  Exchange, reset, add, update_resort, serve, start, add_rates,
}
use concordium_euro2ccd_serv.TestExchange.Queue.{polls, serve_session}

abbrev json : ℕ → ℕ
json x = x

abbrev old : Exchange json
old = record { rates = 9 ∷ []; resort_value = 8 }

serve_session_example :
    let (answers, last) =
      serve json (reset ∷ add (1 ∷ []) ∷ add (2 ∷ 3 ∷ []) ∷ update_resort 5 ∷ polls json 4) old in
    (answers ≡ (1 ∷ []) ∷ (2 ∷ []) ∷ (3 ∷ []) ∷ (5 ∷ []) ∷ [])
    × (last.rates ≡ [])
    × (last.resort_value ≡ 5)
serve_session_example = serve_session json 4 (1 ∷ []) (2 ∷ 3 ∷ []) 5 old

-- The JSON of a reading is the reading, and that of a list is its first item.
abbrev to_json : List Reading → Reading
to_json [] = below_zero
to_json (v ∷ vs) = v

-- 1 / 20, which is 20 CCD for a Euro, and 1 / 25.
twenty : (q : Fraction) × (converted fractions readings plain (some (reading 1 19)) ≡ some q)
twenty = (_, refl)

twenty_five : (q : Fraction) × (converted fractions readings plain (some (reading 1 24)) ≡ some q)
twenty_five = (_, refl)

abbrev posted : List (Posted Reading Reading Fraction)
posted =
    record { value = reading 1 19; reading = reading 1 19; rate = twenty.0 }
    ∷ record { value = reading 1 24; reading = reading 1 24; rate = twenty_five.0 }
    ∷ []

abbrev near : Nearby
near = record {
  access = record { gets_conn = true; preps = true; execs = true };
  written_at = 50;
  now = 60;
  found = true;
}

session_roundtrip_example :
    (s' : Pulling fractions readings plain) × (last : Exchange {Value = Reading} (λ x. x))
    × (session fractions readings plain
          (λ x. x)
          to_json
          (test "http://localhost:8111/rate" "test0")
          2
          true
          (near ∷ near ∷ [])
          (add_rates
            (λ x. x)
            (below_zero ∷ [])
            (add_rates
              (λ x. x)
              (values fractions readings plain (λ x. x) to_json posted)
              (start (λ x. x) (record { port = 8111; resort_value = reading 1 1 }))))
          empty
        ≡ (running s', last))
    × (s'.rate_history.rates ≡ twenty.0 ∷ twenty_five.0 ∷ [])
    × (last.rates ≡ below_zero ∷ [])
session_roundtrip_example =
    session_roundtrip fractions readings plain (λ x. x) to_json "http://localhost:8111/rate" "test0"
      2 true (record { port = 8111; resort_value = reading 1 1 }) (near ∷ near ∷ []) posted
      (below_zero ∷ []) empty refl ((refl, refl, twenty.1), ((refl, refl, twenty_five.1), tt))
      (omega arith)
