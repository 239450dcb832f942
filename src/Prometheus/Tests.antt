-- ===== src/Prometheus/Tests.antt =====
-- src/prometheus.rs at one run of calls and one scrape.
use concordium_euro2ccd_serv.Base.{
  ℕ, zero, suc, ◌≡◌, refl, some, List, [], ◌∷◌, String, Result, ok, err,
}
use concordium_euro2ccd_serv.Prometheus.Server.{
  success, internal_server_error, handle_metrics, serve_metrics,
}
use concordium_euro2ccd_serv.Prometheus.{collect, initialize}
use concordium_euro2ccd_serv.Prometheus.Collector.{
  Call, update_updated_rate, increment_update_attempts, set_protected, calls, calls-initialize,
}

abbrev four_calls : List (Call ℕ)
four_calls =
    increment_update_attempts
    ∷ update_updated_rate (some 3)
    ∷ set_protected
    ∷ increment_update_attempts
    ∷ []

calls-initialize_example :
    let s = calls ℕ four_calls (initialize ℕ) in
    (collect ℕ s.exchange_rate_updated ≡ some 3 ∷ [])
    × (s.protected ≡ 1)
    × (s.warning_threshold_violations ≡ 0)
    × (s.failed_database_updates ≡ 0)
    × (s.update_attempts ≡ 2)
calls-initialize_example = calls-initialize ℕ four_calls

-- Metrics that are a number, which encode as it unless it is zero.
abbrev encode : ℕ → Result ℕ ℕ
encode zero = err 7
encode (suc n) = ok n

abbrev from_utf8 : ℕ → Result ℕ String
from_utf8 zero = err 8
from_utf8 (suc n) = ok "in_protected_mode 1"

serves_metrics :
    serve_metrics (λ x. x) encode from_utf8 2
    ≡ record { body = "in_protected_mode 1"; status = success }
unfolding serve_metrics handle_metrics
serves_metrics = refl

gathers_nothing :
    serve_metrics (λ x. x) encode from_utf8 0
    ≡ record { body = "cannot gather metrics.\n"; status = internal_server_error }
unfolding serve_metrics handle_metrics
gathers_nothing = refl
