-- ===== src/System/EndToEnd.antt =====
-- The way of a rate from an exchange to the chain, through a task of src/sources.rs and a cycle of the
-- main loop of src/main.rs.
use concordium_euro2ccd_serv.Base.{
  ℕ, ℤ, ◌≤◌, ◌<◌, ◌≡◌, refl, ap, ◌∙◌, Bool, true, some, none, List, [], ◌∷◌, map, String,
  Bool-cases, ltb, arith, inl, inr, ltb→lt,
}
use concordium_euro2ccd_serv.Rational.{Rational, Float}
use concordium_euro2ccd_serv.Sources.{Source, RateHistory}
use concordium_euro2ccd_serv.Sources.Request.{Serde}
use concordium_euro2ccd_serv.Sources.Pull.{Round}
use concordium_euro2ccd_serv.Sources.Pull.History.{accepted, received}
use concordium_euro2ccd_serv.Sources.Pull.Outcome.{pull_round-accepted}
use concordium_euro2ccd_serv.Node.{Sdk}
use concordium_euro2ccd_serv.Node.Retries.{last_seq}
use concordium_euro2ccd_serv.Main.Options.{App, chosen_sources}
use concordium_euro2ccd_serv.Main.Cycle.{
  finalized, went_on, Thresholds, Service, Around, derive_rate, main_cycle,
}
use concordium_euro2ccd_serv.Main.Cycle.Derive.{derive_rate-one}
use concordium_euro2ccd_serv.Main.Cycle.Delivery.{Delivers, Updates, main_cycle-Updates}
use concordium_euro2ccd_serv.Main.Cycle.Allowed.{Allowed}
use concordium_euro2ccd_serv.System.{
  Worker, System, add_source, spawn, pulling, settle, round, pulled, looked, acted, pull, look, act,
  Reach, here, next,
}

module _ (num : Rational) (float : Float num) (gcd : ℤ → ℤ → ℕ) (sdk : Sdk) (serde : Serde float.F)
    (endpoint : List sdk.Endpoint) (thresholds : Thresholds num) (db_conn_pool : Bool)
    (max_rates_saved : ℕ) where
  open num use {Q, lt, from_integer, mul}

  -- The history of one rate.
  abbrev one_rate : Q → ℕ → RateHistory Q
  one_rate rate now = record { rates = rate ∷ []; last_reading_timestamp = now }

  received-one :
      (now : ℕ) (rate : Q)
      → 1 ≤ max_rates_saved
      → received max_rates_saved now (some rate) (record { rates = []; last_reading_timestamp = 0 })
        ≡ one_rate rate now
  received-one now rate le = elim (Bool-cases (ltb max_rates_saved 1)) [
    | inl l ↦ absurd (omega (arith, ltb→lt _ _ l, le))
    | inr l ↦ rw l refl
  ]

  module _ (r : Round num float serde) (source : Source) (rate : Q) (enough : 1 ≤ max_rates_saved)
      (reads : accepted num float serde source max_rates_saved db_conn_pool r ≡ some rate) where
    -- The source's task after its first round.
    settle-first :
        (s : Service num float gcd sdk)
        → settle num float gcd sdk serde
            (round num float gcd sdk serde endpoint thresholds db_conn_pool max_rates_saved r
              (add_source num float gcd sdk serde source)
              s)
            (add_source num float gcd sdk serde source)
          ≡ record (add_source num float gcd sdk serde source) {
            rate_history = one_rate rate r.now;
          }
    unfolding settle
    settle-first s =
        let w = add_source num float gcd sdk serde source in
        let (p, runs, history) =
          pull_round-accepted num float serde source max_rates_saved db_conn_pool r rate
            (pulling num float gcd sdk serde w s) reads in
        ap (λ t. settle num float gcd sdk serde t w) runs
        ∙ ap (λ (h : RateHistory Q). record w { rate_history = h })
            (history ∙ received-one r.now rate enough)

  -- The state after a round r of the source's task, the read of its history and the rest of the cycle,
  -- with the environment a.
  abbrev pub first_cycle :
      (ℕ → String)
      → App
      → Source
      → Round num float serde
      → Around num float gcd sdk
      → Service num float gcd sdk
      → System num float gcd sdk serde
  first_cycle test_label app source r a service =
      let w = add_source num float gcd sdk serde source in
      let w' =
        settle num float gcd sdk serde
          (round num float gcd sdk serde endpoint thresholds db_conn_pool max_rates_saved r w
            service)
          w in
      acted num float gcd sdk serde endpoint thresholds db_conn_pool max_rates_saved a (
        looked num float gcd sdk serde endpoint thresholds db_conn_pool max_rates_saved
          w'.rate_history
          (pulled num float gcd sdk serde endpoint thresholds db_conn_pool max_rates_saved r [] w []
            (spawn num float gcd sdk serde test_label app service)))

  -- A service with one source, a signer and a positive rate on chain comes, by a given round of the
  -- source's task that takes a rate in, the read of the history that this round leaves, and the rest
  -- of the cycle in a given environment, to exactly the state that these three steps compute, and in
  -- that state the main loop goes on, a million times that rate is the previous rate, something was
  -- sent, and the sequence number is the one after that of the last block item sent; provided that
  -- the reading is later than time zero and not older than the last update, the halt thresholds allow
  -- the rate, and in that environment some node, after others that are lost, accepts the update,
  -- which is reported finalized.
  pub spawn_updates :
      (test_label : ℕ → String) (app : App) (source : Source) (r : Round num float serde) (rate : Q)
      (a : Around num float gcd sdk) (signer : sdk.Signer) (service : Service num float gcd sdk)
      → chosen_sources test_label app ≡ source ∷ []
      → 1 ≤ max_rates_saved
      → accepted num float serde source max_rates_saved db_conn_pool r ≡ some rate
      → 0 < r.now
      → service.last_update_timestamp ≤ r.now
      → service.signer ≡ some signer
      → lt num.zero service.prev_rate ≡ true
      → Allowed num thresholds service.prev_rate (mul rate (from_integer 1000000))
      → Delivers num float gcd sdk endpoint a.visits
      → a.finality ≡ finalized
      → let t = first_cycle test_label app source r a service in
        Reach num float gcd sdk serde endpoint thresholds db_conn_pool max_rates_saved
          (spawn num float gcd sdk serde test_label app service)
          t
        × (t.status ≡ went_on)
        × (t.service.prev_rate ≡ mul rate (from_integer 1000000))
        × (seq : sdk.UpdateSequenceNumber) × (last_seq sdk none t.items ≡ some seq)
        × (t.service.seq_number ≡ sdk.next seq)
  unfolding spawn pulled looked acted
  spawn_updates test_label app source r rate a signer service one enough reads late fresh signs p
        allowed delivers final =
      let w = add_source num float gcd sdk serde source in
      let x =
        round num float gcd sdk serde endpoint thresholds db_conn_pool max_rates_saved r w
          service in
      let w' = settle num float gcd sdk serde x w in
      let start = spawn num float gcd sdk serde test_label app service in
      let s1 =
        pulled num float gcd sdk serde endpoint thresholds db_conn_pool max_rates_saved r [] w []
          start in
      let updates : Updates num float gcd sdk endpoint (mul rate (from_integer 1000000)) (
          main_cycle num float gcd sdk endpoint thresholds db_conn_pool a (w'.rate_history ∷ [])
            s1.service) =
        main_cycle-Updates num float gcd sdk endpoint thresholds db_conn_pool a delivers final
          (w'.rate_history ∷ []) signer (mul rate (from_integer 1000000)) s1.service signs
          (ap
              (λ (v : Worker num float gcd sdk serde).
                derive_rate num service.last_update_timestamp (v.rate_history ∷ []))
              (settle-first r source rate enough reads service)
            ∙ derive_rate-one num service.last_update_timestamp r.now rate late fresh)
          p allowed in
      let (status, prev_rate, seq, last, next_seq) = updates in
      (
        next
            (next
              (next here
                (pull r [] w [] (ap (map (add_source num float gcd sdk serde)) one) refl (λ e. cc)))
              (look [] w' [] refl refl refl))
            (act a refl refl),
        status,
        prev_rate,
        seq,
        last,
        next_seq,
      )
