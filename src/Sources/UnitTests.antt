-- ===== src/Sources/UnitTests.antt =====
-- The unit tests of request_with_backoff in src/sources.rs; the time that passes is the time slept.
use concordium_euro2ccd_serv.Base.{ℕ, ◌≡◌, refl, Bool, true, Option, none, leb}
use concordium_euro2ccd_serv.Sources.Backoff.{request_with_backoff, slept}

abbrev dummy_req : ℕ → Option (Unit {0})
dummy_req i = none

abbrev test_backoff_lower_bound : Bool
test_backoff_lower_bound = leb (slept (request_with_backoff dummy_req 10 1).1) 30

backoff_lower_bound_passes : test_backoff_lower_bound ≡ true
unfolding request_with_backoff
backoff_lower_bound_passes = refl

abbrev test_backoff_upper_bound : Bool
test_backoff_upper_bound = leb 30 (slept (request_with_backoff dummy_req 10 2).1)

backoff_upper_bound_passes : test_backoff_upper_bound ≡ true
unfolding request_with_backoff
backoff_upper_bound_passes = refl
