-- ===== src/System/Stopped.antt =====
-- src/main.rs and src/sources.rs together: what becomes of a source whose task has panicked.
use concordium_euro2ccd_serv.Base.{
  ℕ, ℤ, zero, suc, ◌≤◌, ◌⊎◌, Bool-cases, ltb, ltb→lt, ltb→ge, ◌≡◌, refl, sym, ap, ◌∙◌, subst, inl,
  inr, Bool, true, false, none, some, List, [], ◌∷◌, ◌++◌, length, get_elem?,
}
use concordium_euro2ccd_serv.Config
use concordium_euro2ccd_serv.Rational.{Rational, Float, Same}
use concordium_euro2ccd_serv.Sources.Backoff.{first_success}
use concordium_euro2ccd_serv.Sources.Request.{Serde}
use concordium_euro2ccd_serv.Sources.Pull.{Task, Round, Pulling, request}
use concordium_euro2ccd_serv.Sources.Pull.Positive.{pull_round-zero}
use concordium_euro2ccd_serv.Node.{Sdk}
use concordium_euro2ccd_serv.Main.Cycle.{Thresholds, source_median}
use concordium_euro2ccd_serv.Main.Cycle.Derive.{source_median-none_iff}
use concordium_euro2ccd_serv.System.{
  Worker, System, pulling, settle, round, pulled, looked, acted, Step, pull, look, act, Reach, here,
  next,
}

-- Two lists that relate place by place.
abbrev Each : {A : Type 0} → (A → A → Type 0) → List A → List A → Type 0
Each R [] [] = Unit {0}
Each R [] (y ∷ ys) = ⊥
Each R (x ∷ xs) [] = ⊥
Each R (x ∷ xs) (y ∷ ys) = R x y × Each R xs ys

module _ {A : Type 0} (R : A → A → Type 0) (refl_ : (x : A) → R x x) where
  Each-refl : (xs : List A) → Each R xs xs
  Each-refl [] = tt
  Each-refl (x ∷ xs) = (refl_ x, Each-refl xs)

  -- One place changes.
  Each-one : (xs : List A) (x y : A) (ys : List A) → R x y → Each R (xs ++ x ∷ ys) (xs ++ y ∷ ys)
  Each-one [] x y ys r = (r, Each-refl ys)
  Each-one (z ∷ xs) x y ys r = (refl_ z, Each-one xs x y ys r)

  Each-get_elem? :
      (i : ℕ) (xs ys : List A) (x : A)
      → Each R xs ys
      → get_elem? xs i ≡ some x
      → (y : A) × (get_elem? ys i ≡ some y) × R x y
  Each-get_elem? i [] [] x h e = cc
  Each-get_elem? i [] (y ∷ ys) x h e = absurd h
  Each-get_elem? i (z ∷ xs) [] x h e = absurd h
  Each-get_elem? zero (z ∷ xs) (y ∷ ys) x h e = (y, refl, subst (λ a. R a y) (cc) h.0)
  Each-get_elem? (suc i) (z ∷ xs) (y ∷ ys) x h e = Each-get_elem? i xs ys x h.1 e

get_elem?-middle :
    {A : Type 0} (xs : List A) (x : A) (ys : List A) → get_elem? (xs ++ x ∷ ys) (length xs) ≡ some x
get_elem?-middle [] x ys = refl
get_elem?-middle (z ∷ xs) x ys = get_elem?-middle xs x ys

module _ (num : Rational) (float : Float num) (gcd : ℤ → ℤ → ℕ) (sdk : Sdk) (serde : Serde float.F)
    (endpoint : List sdk.Endpoint) (thresholds : Thresholds num) (db_conn_pool : Bool)
    (max_rates_saved : ℕ) where
  open num use {Q}

  -- A task that has stopped does not change.
  abbrev Follows : Worker num float gcd sdk serde → Worker num float gcd sdk serde → Type 0
  Follows w w' = w.alive ≡ false → w' ≡ w

  Step-Follows :
      {s t : System num float gcd sdk serde}
      → Step num float gcd sdk serde endpoint thresholds db_conn_pool max_rates_saved s t
      → Each Follows s.workers t.workers
  unfolding pulled looked acted
  Step-Follows {s} (pull r before w after e alive up) =
      let w' =
        settle num float gcd sdk serde
          (round num float gcd sdk serde endpoint thresholds db_conn_pool max_rates_saved r w
            s.service)
          w in
      subst (λ ws. Each Follows ws (before ++ w' ∷ after)) (sym e)
        (Each-one Follows (λ x h. refl) before w w' after
          (λ dead. let bad : true ≡ false = sym alive ∙ dead in cc))
  Step-Follows {s} (look before w after e turn up) = Each-refl Follows (λ x h. refl) s.workers
  Step-Follows {s} (act a full up) = Each-refl Follows (λ x h. refl) s.workers

  stays_stopped :
      {s t : System num float gcd sdk serde} (i : ℕ) (w : Worker num float gcd sdk serde)
      → Reach num float gcd sdk serde endpoint thresholds db_conn_pool max_rates_saved s t
      → get_elem? s.workers i ≡ some w
      → w.alive ≡ false
      → get_elem? t.workers i ≡ some w
  stays_stopped i w here e dead = e
  stays_stopped i w (next {t} {u} r st) e dead =
      let (w', there, same) =
        Each-get_elem? Follows (λ x h. refl) i t.workers u.workers w (Step-Follows st)
          (stays_stopped i w r e dead) in
      there ∙ ap some (same dead)

  settle-stops :
      (task : Task (Pulling num float serde)) (p : Pulling num float serde)
      (w : Worker num float gcd sdk serde)
      → task ≡ Task.panicked p
      → p.rate_history ≡ w.rate_history
      → settle num float gcd sdk serde task w ≡ record w { alive = false }
  unfolding settle
  settle-stops task p w e h =
      ap (λ x. settle num float gcd sdk serde x w) e
      ∙ ap (λ x. record w { rate_history = x; alive = false }) h

  pulled-stops :
      (r : Round num float serde) (before : List (Worker num float gcd sdk serde))
      (w : Worker num float gcd sdk serde) (after : List (Worker num float gcd sdk serde))
      (s : System num float gcd sdk serde) (v : float.F) (q : Q)
      → first_success
          (request num float serde w.source max_rates_saved db_conn_pool r)
          0
          Config.max_retries
        ≡ some v
      → float.from_float v ≡ some q
      → Same num.lt q num.zero
      → get_elem?
          (pulled num float gcd sdk serde endpoint thresholds db_conn_pool max_rates_saved r before
            w after s).workers
          (length before)
        ≡ some (record w { alive = false })
  unfolding pulled
  pulled-stops r before w after s v q got e z =
      let (p, stop, same) =
        pull_round-zero num float serde w.source max_rates_saved db_conn_pool r v q
          (pulling num float gcd sdk serde w s.service) got e z in
      get_elem?-middle before _ after ∙ ap some (settle-stops _ p w stop same)

  -- If a task's round reads a value that converts to zero, then in every later state, whatever the
  -- other tasks, the exchanges and the main loop do, that task has stopped with the history that it
  -- had; and once the last update is later than that history's last reading, the main loop takes no
  -- median of it.
  pub pulled-zero_stops :
      (r : Round num float serde) (before : List (Worker num float gcd sdk serde))
      (w : Worker num float gcd sdk serde) (after : List (Worker num float gcd sdk serde))
      (s t : System num float gcd sdk serde) (v : float.F) (q : Q)
      → first_success
          (request num float serde w.source max_rates_saved db_conn_pool r)
          0
          Config.max_retries
        ≡ some v
      → float.from_float v ≡ some q
      → Same num.lt q num.zero
      → Reach num float gcd sdk serde endpoint thresholds db_conn_pool max_rates_saved
          (pulled num float gcd sdk serde endpoint thresholds db_conn_pool max_rates_saved r before
            w after s)
          t
      → (get_elem? t.workers (length before) ≡ some (record w { alive = false }))
        × ((t.service.last_update_timestamp ≤ w.rate_history.last_reading_timestamp)
            ⊎ (source_median num t.service.last_update_timestamp w.rate_history ≡ none))
  pulled-zero_stops r before w after s t v q got e z reach = (
    stays_stopped (length before) (record w { alive = false }) reach
        (pulled-stops r before w after s v q got e z) refl,
    elim (Bool-cases (ltb w.rate_history.last_reading_timestamp t.service.last_update_timestamp)) [
      | inl late ↦ inr (
          (source_median-none_iff num t.service.last_update_timestamp w.rate_history).1
            (inr (inl (ltb→lt _ _ late))))
      | inr early ↦ inl (ltb→ge _ _ early)
    ],
  )
