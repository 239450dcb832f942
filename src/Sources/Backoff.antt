-- ===== src/Sources/Backoff.antt =====
-- request_with_backoff of src/sources.rs: which attempt it returns, how often it tries, and how long
-- it sleeps. The outcome of attempt number i is a parameter.
use native.Mathlib.Nat.{pow-suc, mul-le-mul_left}
use concordium_euro2ccd_serv.Base.{
  ℕ, zero, suc, ◌+◌, ◌*◌, ◌%◌, ◌^◌, ◌≤◌, ◌<◌, ◌≡◌, refl, ap, inl, inr, Option, none, some,
  Option-cases, List, [], ◌∷◌, arith,
}

-- What the loop does besides, in order.
pub data Event : Type 0 where
  attempt : Event
  on_fail : ℕ → Event
  sleep : ℕ → Event

module _ {T : Type 0} (request_fn : ℕ → Option T) where
  -- The loop, before attempt number i. The delay is a u64.
  pub backoff_loop : ℕ → ℕ → ℕ → Option T × List Event
  backoff_loop i timeout zero = elim (request_fn i) [
    | some v ↦ (some v, attempt ∷ [])
    | none ↦ (none, attempt ∷ [])
  ]
  backoff_loop i timeout (suc retries) =
      let rest = backoff_loop (suc i) (timeout * 2 % 2 ^ 64) retries in
      elim (request_fn i) [
        | some v ↦ (some v, attempt ∷ [])
        | none ↦ (rest.0, attempt ∷ on_fail timeout ∷ sleep timeout ∷ rest.1)
      ]

  unfoldable pub request_with_backoff : ℕ → ℕ → Option T × List Event
  unfolding backoff_loop
  request_with_backoff initial_delay max_retries = backoff_loop 0 initial_delay max_retries

-- The first success among attempts i, ..., i + retries.
abbrev pub first_success : {T : Type 0} → (ℕ → Option T) → ℕ → ℕ → Option T
first_success request_fn i zero = request_fn i
first_success request_fn i (suc retries) =
    let rest = first_success request_fn (suc i) retries in
    elim (request_fn i) [ some v ↦ some v | none ↦ rest ]

-- Attempts made, and seconds slept.
abbrev pub attempts : List Event → ℕ
attempts [] = 0
attempts (attempt ∷ es) = suc (attempts es)
attempts (on_fail t ∷ es) = attempts es
attempts (sleep t ∷ es) = attempts es

abbrev pub on_fails : List Event → ℕ
on_fails [] = 0
on_fails (attempt ∷ es) = on_fails es
on_fails (on_fail t ∷ es) = suc (on_fails es)
on_fails (sleep t ∷ es) = on_fails es

abbrev pub slept : List Event → ℕ
slept [] = 0
slept (attempt ∷ es) = slept es
slept (on_fail t ∷ es) = slept es
slept (sleep t ∷ es) = t + slept es

pow_pos : (k : ℕ) → 1 ≤ 2 ^ k
pow_pos zero = omega arith
pow_pos (suc k) = rw pow-suc (omega (arith, pow_pos k))

doubled : (t k : ℕ) → t * 2 ^ suc k < 2 ^ 64 → t * 2 % 2 ^ 64 ≡ t * 2
doubled t k h =
    omega
      (arith, pow-suc 2 k, ap (λ (x : ℕ). t * x) (pow-suc 2 k), mul-le-mul_left (t * 2) (pow_pos k))

less : (t k : ℕ) → t * 2 ^ suc k < 2 ^ 64 → t * 2 % 2 ^ 64 * 2 ^ k < 2 ^ 64
less t k h = rw (doubled t k h) (omega (arith, ap (λ (x : ℕ). t * x) (pow-suc 2 k)))

doubled_sum :
    (t t' slept k : ℕ) → t' ≡ t * 2 → slept + t' ≡ t' * 2 ^ k → t + slept + t ≡ t * 2 ^ suc k
doubled_sum t t' slept k e h =
    omega (arith, ap (λ (x : ℕ). t * x) (pow-suc 2 k), ap (λ (x : ℕ). x * 2 ^ k) e)

module _ {T : Type 0} (request_fn : ℕ → Option T) where
  loop_result :
      (i timeout retries : ℕ)
      → (backoff_loop request_fn i timeout retries).0 ≡ first_success request_fn i retries
  unfolding backoff_loop
  loop_result i timeout zero = ground arith
  loop_result i timeout (suc retries) =
      ground (arith, loop_result (suc i) (timeout * 2 % 2 ^ 64) retries)

  loop_attempts :
      (i timeout retries : ℕ)
      → let events = (backoff_loop request_fn i timeout retries).1 in
        (attempts events ≡ suc (on_fails events)) × (on_fails events ≤ retries)
  unfolding backoff_loop
  loop_attempts i timeout zero = ground arith
  loop_attempts i timeout (suc retries) =
      ground (arith, loop_attempts (suc i) (timeout * 2 % 2 ^ 64) retries)

  -- The delays double, so their sum stays below the next one.
  loop_slept :
      (i timeout retries : ℕ)
      → timeout * 2 ^ retries < 2 ^ 64
      → let events = (backoff_loop request_fn i timeout retries).1 in
        slept events + timeout ≡ timeout * 2 ^ on_fails events
  unfolding backoff_loop
  loop_slept i timeout zero h = elim (Option-cases (request_fn i)) [
    | inl e ↦ rw (e, backoff_loop) (omega arith)
    | inr (v, e) ↦ rw (e, backoff_loop) (omega arith)
  ]
  loop_slept i timeout (suc retries) h = elim (Option-cases (request_fn i)) [
    | inl e ↦
        rw (e, backoff_loop)
          (doubled_sum timeout (timeout * 2 % 2 ^ 64) _ _ (doubled timeout retries h)
            (loop_slept (suc i) (timeout * 2 % 2 ^ 64) retries (less timeout retries h)))
    | inr (v, e) ↦ rw (e, backoff_loop) (omega arith)
  ]

  -- The wrapper returns the first success among the first 1 + max_retries attempts, and `none` if
  -- they all fail. It makes one attempt more than it calls on_fail, and calls on_fail at most
  -- max_retries times.
  pub request_with_backoff-first_success :
      (initial_delay max_retries : ℕ)
      → let (result, events) = request_with_backoff request_fn initial_delay max_retries in
        (result ≡ first_success request_fn 0 max_retries)
        × (attempts events ≡ suc (on_fails events))
        × (on_fails events ≤ max_retries)
  unfolding request_with_backoff
  request_with_backoff-first_success initial_delay max_retries =
      let (a, b) = loop_attempts 0 initial_delay max_retries in
      (loop_result 0 initial_delay max_retries, a, b)

  -- If initial_delay * 2 ^ max_retries is below 2 ^ 64, then the time slept is
  -- initial_delay * (2 ^ k - 1), where k is the number of calls of on_fail.
  pub request_with_backoff-slept :
      (initial_delay max_retries : ℕ)
      → initial_delay * 2 ^ max_retries < 2 ^ 64
      → let events = (request_with_backoff request_fn initial_delay max_retries).1 in
        slept events + initial_delay ≡ initial_delay * 2 ^ on_fails events
  unfolding request_with_backoff
  request_with_backoff-slept initial_delay max_retries h = loop_slept 0 initial_delay max_retries h

  -- A first attempt that succeeds is the only one.
  pub request_with_backoff_at_once :
      (initial_delay max_retries : ℕ) (v : T)
      → request_fn 0 ≡ some v
      → request_with_backoff request_fn initial_delay max_retries ≡ (some v, attempt ∷ [])
  unfolding request_with_backoff backoff_loop
  request_with_backoff_at_once initial_delay zero v h =
      rw (h, request_with_backoff, backoff_loop) refl
  request_with_backoff_at_once initial_delay (suc n) v h =
      rw (h, request_with_backoff, backoff_loop) refl
