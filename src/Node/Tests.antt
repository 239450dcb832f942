-- ===== src/Node/Tests.antt =====
-- src/node.rs at a concrete node, whose clients, endpoints, sequence numbers, keys and hashes are
-- numbers.
use concordium_euro2ccd_serv.Base.{ℕ, suc, ◌≡◌, refl, false, none, some, List, [], ◌∷◌, All}
use concordium_euro2ccd_serv.Helpers.{ExchangeRate}
use concordium_euro2ccd_serv.Prometheus.{Stats, initialize}
use concordium_euro2ccd_serv.Node.{
  Sdk, Tick, trying, sent, accepted, call_error, rpc_error, other, unavailable, send_update,
  is_unreachable, send_loop, on_tick, after_answer,
}
use concordium_euro2ccd_serv.Node.Retries.{Carries, last_seq, Reports, send_update_sound}
use concordium_euro2ccd_serv.Node.Waiting.{AllGoOn, send_update-trying_iff}

abbrev pub numbers : Sdk
numbers = record {
  Client = ℕ;
  Endpoint = ℕ;
  UpdateSequenceNumber = ℕ;
  next = suc;
  Signer = ℕ;
  TransactionHash = ℕ;
}

-- A rate, and metrics whose values are numbers.
abbrev rate : ExchangeRate
rate = record { numerator = 1; denominator = 100 }

abbrev fresh : Stats ℕ
fresh = initialize ℕ

-- A failed call, then an accepted item under a new sequence number.
abbrev pub retry_ticks : List (Tick numbers)
retry_ticks =
    record { new_seq = none; now = 1000; answer = call_error (other 4) }
    ∷ record { new_seq = some 8; now = 1010; answer = accepted 99 }
    ∷ []

-- Two failures that do not end the loop.
abbrev failing_ticks : List (Tick numbers)
failing_ticks =
    record { new_seq = none; now = 1000; answer = call_error (other 4) }
    ∷ record { new_seq = some 8; now = 1010; answer = rpc_error }
    ∷ []

retry_test : (send_update numbers ℕ 5 rate 7 retry_ticks fresh).progress ≡ sent 99 8
unfolding send_update send_loop on_tick after_answer is_unreachable
retry_test = refl

unavailable_test :
    (send_update numbers ℕ 5 rate 7
      (record { new_seq = none; now = 1000; answer = call_error unavailable } ∷ retry_ticks)
      fresh).items
    ≡ (send_update numbers ℕ 5 rate 7
        (record { new_seq = none; now = 1000; answer = call_error unavailable } ∷ [])
        fresh).items
unfolding send_update send_loop on_tick after_answer is_unreachable
unavailable_test = refl

send_update_sound_example :
    let s = send_update numbers ℕ 5 rate 7 retry_ticks fresh in
    All (Carries numbers 5 rate) s.items
    × Reports numbers s.progress (last_seq numbers none s.items) s.stats.update_attempts
send_update_sound_example = send_update_sound numbers ℕ 5 rate 7 retry_ticks fresh

failing : AllGoOn numbers false failing_ticks
unfolding is_unreachable
failing = (refl, ((λ h. cc), refl, tt))

send_update-trying_iff_example :
    (send_update numbers ℕ 5 rate 7 failing_ticks fresh).progress ≡ trying
send_update-trying_iff_example =
    (send_update-trying_iff numbers ℕ 5 rate 7 failing_ticks fresh).1 failing
