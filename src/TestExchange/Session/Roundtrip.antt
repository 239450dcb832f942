-- ===== src/TestExchange/Session/Roundtrip.antt =====
-- The way of a value from the routes of test_exchange/src/main.rs into the history of a task of
-- src/sources.rs.
use mathlib.Core.List.{append_assoc, append-nil}
use concordium_euro2ccd_serv.Base.{
  ℕ, ◌≤◌, ◌≡◌, refl, sym, ap, ◌∙◌, subst, Bool, false, Option, some, List, [], ◌∷◌, ◌++◌, map,
  String, ok, All, length, arith,
}
use concordium_euro2ccd_serv.Config
use concordium_euro2ccd_serv.Rational.{Rational, Float}
use concordium_euro2ccd_serv.Sources.{RateHistory, test}
use concordium_euro2ccd_serv.Sources.Backoff.{
  Event, attempt, attempts, request_with_backoff, request_with_backoff_at_once,
  request_with_backoff-first_success,
}
use concordium_euro2ccd_serv.Sources.Request.{Serde, parse_response, request_exchange_rate-some_iff}
use concordium_euro2ccd_serv.Sources.Pull.{running, Round, Pulling, request}
use concordium_euro2ccd_serv.Sources.Pull.History.{
  converted, accepted, received-rates, length-received, last_n, last_n_all, last_n-append,
}
use concordium_euro2ccd_serv.Sources.Pull.Outcome.{pull_round-accepted}
use concordium_euro2ccd_serv.TestExchange.{Exchange, Options, start, serve_rate, add_rates}
use concordium_euro2ccd_serv.TestExchange.Session.{
  Nearby, reply, served, polled, asking, asked, session,
}

-- A value given to the exchange, the float that a source reads in the answer with it, and the rate
-- that it becomes.
pub record Posted (Value F Q : Type 0) : Type 0 where
  pub value : Value
  pub reading : F
  pub rate : Q

module _ (num : Rational) (float : Float num) (serde : Serde float.F) {Value : Type 0}
    (json : float.F → Value) (to_json : List Value → serde.Bytes) where
  open num use {Q}
  open float use {F}

  -- The answer with the value parses to the reading, which is not negative and has the inverse rate.
  abbrev pub IsUsable : Posted Value F Q → Type 0
  IsUsable p =
      (serde.vec_f64 (to_json (p.value ∷ [])) ≡ ok (p.reading ∷ []))
      × (float.is_negative p.reading ≡ false)
      × (converted num float serde (some p.reading) ≡ some p.rate)

  abbrev pub values : List (Posted Value F Q) → List Value
  values ps = map (λ p. p.value) ps

  abbrev pub rates : List (Posted Value F Q) → List Q
  rates ps = map (λ p. p.rate) ps

  module _ (url label : String) (max : ℕ) (pool : Bool) where
    asking-reads :
        (near : Nearby) (p : Posted Value F Q) (vs : List Value) (r : F)
        → IsUsable p
        → request num float serde
            (test url label)
            max
            pool
            (asking num float serde json to_json near
              (record { rates = p.value ∷ vs; resort_value = r }))
            0
          ≡ some p.reading
    unfolding serve_rate served parse_response
    asking-reads near p vs r (parsed, nonneg, rate) =
        (request_exchange_rate-some_iff serde float.is_negative
            ((asking num float serde json to_json near
                (record { rates = p.value ∷ vs; resort_value = r })).send
              0)
            (test url label) p.reading).1
          (
            reply num float serde json to_json (p.value ∷ []),
            to_json (p.value ∷ []),
            refl,
            refl,
            refl,
            rw parsed refl,
            nonneg,
          )

    module _ (near : Nearby) (p : Posted Value F Q) (vs : List Value) (r : F)
        (usable : IsUsable p) where
      queue : Exchange json
      queue = record { rates = p.value ∷ vs; resort_value = r }

      asks : ℕ → Option F
      asks =
          request num float serde (test url label) max pool
            (asking num float serde json to_json near queue)

      at_once :
          request_with_backoff asks Config.initial_retry_interval Config.max_retries
          ≡ (some p.reading, attempt ∷ [])
      unfolding asks queue
      at_once =
          request_with_backoff_at_once asks Config.initial_retry_interval Config.max_retries
            p.reading (asking-reads near p vs r usable)

      accepted-rate :
          accepted num float serde
            (test url label)
            max
            pool
            (asking num float serde json to_json near queue)
          ≡ some p.rate
      unfolding accepted asks
      accepted-rate =
          ap (converted num float serde) (
            sym
              (request_with_backoff-first_success asks Config.initial_retry_interval
                Config.max_retries).0
            ∙ ap (λ (x : Option F × List Event). x.0) at_once)
          ∙ usable.2

      asked-queue :
          asked num float serde json to_json (test url label) max pool near queue
          ≡ record { rates = vs; resort_value = r }
      unfolding queue asks polled serve_rate
      asked-queue =
          ap
            (λ (x : Option F × List Event).
              polled num float serde json to_json (attempts x.1) queue)
            at_once

    session-rates :
        (nears : List Nearby) (ps : List (Posted Value F Q)) (rest : List Value) (r : F)
        (s : Pulling num float serde)
        → length nears ≡ length ps
        → All IsUsable ps
        → length s.rate_history.rates ≤ max
        → (s' : Pulling num float serde) × (session num float serde json to_json
              (test url label)
              max
              pool
              nears
              (record { rates = values ps ++ rest; resort_value = r })
              s
            ≡ (running s', record { rates = rest; resort_value = r }))
          × (s'.rate_history.rates ≡ last_n max (s.rate_history.rates ++ rates ps))
    unfolding session queue
    session-rates [] [] rest r s same all le =
        (s, refl, sym (rw append-nil (last_n_all max s.rate_history.rates le)))
    session-rates [] (p ∷ ps) rest r s same all le = absurd (omega (arith, same))
    session-rates (near ∷ nears) [] rest r s same all le = absurd (omega (arith, same))
    session-rates (near ∷ nears) (p ∷ ps) rest r s same (usable, all) le =
        let vs = values ps ++ rest in
        let round : Round num float serde =
          asking num float serde json to_json near (queue near p vs r usable) in
        let (s₁, runs, history) =
          pull_round-accepted num float serde (test url label) max pool round p.rate s
            (accepted-rate near p vs r usable) in
        let kept : length s₁.rate_history.rates ≤ max =
          subst (λ (h : RateHistory Q). length h.rates ≤ max) (sym history)
            (length-received max near.now (some p.rate) s.rate_history le) in
        let (s', ends, all_rates) =
          session-rates nears ps rest r s₁ (omega (arith, same)) all kept in
        (
          s',
          rw (runs, session) (rw (asked-queue near p vs r usable) ends),
          all_rates
              ∙ ap (λ (h : RateHistory Q). last_n max (h.rates ++ rates ps)) history
              ∙ ap (λ xs. last_n max (xs ++ rates ps))
                  (received-rates max near.now (some p.rate) s.rate_history le)
              ∙ last_n-append max (s.rate_history.rates ++ p.rate ∷ []) (rates ps)
              ∙ ap (last_n max) (append_assoc s.rate_history.rates (p.rate ∷ []) (rates ps)),
        )

    -- If the test exchange starts, is given usable values and then any others, and a task for it takes
    -- as many rounds as there are usable values, from a history of at most max rates: the task runs
    -- on, its history holds the last max of the old rates followed by the rates of the usable values in
    -- their order, each once, and the exchange has exactly the other values left.
    pub session_roundtrip :
        (opt : Options F) (nears : List Nearby) (ps : List (Posted Value F Q)) (rest : List Value)
        (s : Pulling num float serde)
        → length nears ≡ length ps
        → All IsUsable ps
        → length s.rate_history.rates ≤ max
        → (s' : Pulling num float serde) × (last : Exchange json) × (session num float serde json
              to_json
              (test url label)
              max
              pool
              nears
              (add_rates json rest (add_rates json (values ps) (start json opt)))
              s
            ≡ (running s', last))
          × (s'.rate_history.rates ≡ last_n max (s.rate_history.rates ++ rates ps))
          × (last.rates ≡ rest)
    unfolding add_rates
    session_roundtrip opt nears ps rest s same all le =
        let (s', ends, history) = session-rates nears ps rest opt.resort_value s same all le in
        (s', record { rates = rest; resort_value = opt.resort_value }, ends, history, refl)
