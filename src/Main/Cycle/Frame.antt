-- ===== src/Main/Cycle/Frame.antt =====
-- The main loop of src/main.rs beside the tasks: what a task does to the shared metrics and database,
-- before or after a submission. Frame.Whole has the rest of the cycle.
pub mod Confirm
pub mod Whole
use concordium_euro2ccd_serv.Base.{
  ℕ, ℤ, suc, ◌+◌, ◌≡◌, refl, sym, ap, ◌∙◌, inl, inr, Bool, Bool-cases, Option, none, some,
  Option-cases, List, [], ◌∷◌, ◌++◌, Result, if◌then◌else◌, arith,
}
use concordium_euro2ccd_serv.Rational.{Rational, Float}
use concordium_euro2ccd_serv.Helpers.{
  ExchangeRate, relative_change, convert_big_fraction_to_exchange_rate,
}
use concordium_euro2ccd_serv.Prometheus
use concordium_euro2ccd_serv.Prometheus.{Stats}
use concordium_euro2ccd_serv.Database.{Database, Fault, Access, write_update_rate}
use concordium_euro2ccd_serv.Sources.{RateHistory}
use concordium_euro2ccd_serv.Sources.Pull.Effect.{Effect, on_stats, on_db, run_statement-cases}
use concordium_euro2ccd_serv.Node.{
  Sdk, Progress, trying, gave_up, sent, Sending, send_update, get_node_client,
}
use concordium_euro2ccd_serv.Main.Cycle.{
  Finality, finalized, query_failed, timed_out, Verdict, halt, warn, fine, Status, went_on,
  Thresholds, derive_rate, judge, Service, Visit, Around, Turn, Submitted, pending, no_node,
  submitted, Submission, sent_before, after_send, submit_loop, note_update, confirm, after_finality,
  after_submission, submit, submit_converted, protect, on_verdict, on_change, on_rate, main_cycle,
}
use concordium_euro2ccd_serv.Node.Frame.{send_update-frame}

module _ (num : Rational) (float : Float num) (gcd : ℤ → ℤ → ℕ) (sdk : Sdk) (e : Effect float.F)
    (endpoint : List sdk.Endpoint) where
  open num use {Q}

  abbrev pub on_service : Service num float gcd sdk → Service num float gcd sdk
  on_service s = record s { stats = on_stats e s.stats; db = on_db e s.db }

  abbrev on_submission : Submission num float gcd sdk → Submission num float gcd sdk
  on_submission m = record m { service = on_service m.service }

  abbrev pub on_turn : Turn num float gcd sdk → Turn num float gcd sdk
  on_turn t = record t { service = on_service t.service }

  after_send-frame :
      (p : Progress sdk) (v : Visit num float gcd sdk)
      (again : Service num float gcd sdk → Submission num float gcd sdk)
      (s : Service num float gcd sdk)
      → ((s : Service num float gcd sdk) → again (on_service s) ≡ on_submission (again s))
      → after_send num float gcd sdk endpoint p v again (on_service s)
        ≡ on_submission (after_send num float gcd sdk endpoint p v again s)
  unfolding after_send
  after_send-frame trying v again s rest = refl
  after_send-frame (sent h seq) v again s rest = refl
  after_send-frame gave_up v again s rest =
      elim (Option-cases (get_node_client sdk v.connect endpoint)) [
        | inl n ↦ rw (n, after_send) refl
        | inr (c, n) ↦ rw (n, after_send) (rest (record s { node_client = c }))
      ]

  -- A submission after a call of send_update.
  abbrev resume :
      Visit num float gcd sdk
      → (Service num float gcd sdk → Submission num float gcd sdk)
      → Service num float gcd sdk
      → Sending sdk float.F
      → Submission num float gcd sdk
  resume v again s x =
      sent_before num float gcd sdk x.items
        (after_send num float gcd sdk endpoint x.progress v again (record s { stats = x.stats }))

  pub submit_loop-frame :
      (signer : sdk.Signer) (new_rate : ExchangeRate) (vs : List (Visit num float gcd sdk))
      (s : Service num float gcd sdk)
      → submit_loop num float gcd sdk endpoint signer new_rate vs (on_service s)
        ≡ on_submission (submit_loop num float gcd sdk endpoint signer new_rate vs s)
  unfolding submit_loop
  submit_loop-frame signer new_rate [] s = refl
  submit_loop-frame signer new_rate (v ∷ vs) s =
      let again = submit_loop num float gcd sdk endpoint signer new_rate vs in
      let x = send_update sdk float.F signer new_rate s.seq_number v.ticks s.stats in
      ap (resume v again (on_service s))
        (send_update-frame sdk float.F e signer new_rate s.seq_number v.ticks s.stats)
      ∙ ap (sent_before num float gcd sdk x.items) (
          after_send-frame x.progress v again (record s { stats = x.stats })
            (submit_loop-frame signer new_rate vs))
