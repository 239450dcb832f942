-- ===== src/TestExchange/Queue.antt =====
-- test_exchange/src/main.rs: what a client that polls the rate sees.
use concordium_euro2ccd_serv.Base.{ℕ, zero, suc, ◌≡◌, refl, ap, List, [], ◌∷◌, ◌++◌, drop}
use concordium_euro2ccd_serv.TestExchange.{
  Exchange, serve_rate, add_rates, change_resort, reset_rates, Request, get_rate, reset, add,
  update_resort, serve,
}

-- n copies of x.
abbrev pub copies {ℓ} : {A : Type ℓ} → ℕ → A → List A
copies zero x = []
copies (suc n) x = x ∷ copies n x

module _ {Value F : Type 0} (json : F → Value) where
  -- n requests for the rate.
  abbrev pub polls : ℕ → List (Request json)
  polls n = copies n get_rate

  -- The next n answers: the queue's values in order, then the value to resort to.
  abbrev pub expected : ℕ → List Value → Value → List (List Value)
  expected zero vs r = []
  expected (suc n) [] r = (r ∷ []) ∷ expected n [] r
  expected (suc n) (v ∷ vs) r = (v ∷ []) ∷ expected n vs r

  queue : List Value → F → Exchange json
  queue vs r = record { rates = vs; resort_value = r }

  serve-polls :
      (n : ℕ) (vs : List Value) (r : F)
      → serve json (polls n) (queue vs r) ≡ (expected n vs (json r), queue (drop n vs) r)
  unfolding serve serve_rate queue
  serve-polls zero vs r = refl
  serve-polls (suc n) [] r = rw (serve-polls n [] r, drop-nil n) refl
    where
      drop-nil : (n : ℕ) → drop n (◌++◌ {A = Value} [] []) ≡ []
      drop-nil zero = refl
      drop-nil (suc n) = refl
  serve-polls (suc n) (v ∷ vs) r = rw (serve-polls n vs r) refl

  -- After a reset, two additions and a new value to resort to, n polls see the values added, in their
  -- order and each once, and after them the value to resort to, whatever the exchange held before;
  -- the queue keeps the values that were not polled.
  pub serve_session :
      (n : ℕ) (xs ys : List Value) (r : F) (e : Exchange json)
      → let (answers, last) = serve json (reset ∷ add xs ∷ add ys ∷ update_resort r ∷ polls n) e in
        (answers ≡ expected n (xs ++ ys) (json r))
        × (last.rates ≡ drop n (xs ++ ys))
        × (last.resort_value ≡ r)
  unfolding serve reset_rates add_rates change_resort queue
  serve_session n xs ys r e =
      let h = serve-polls n (xs ++ ys) r in
      (
        ap (λ (p : List (List Value) × Exchange json). p.0) h,
        ap (λ (p : List (List Value) × Exchange json). p.1.rates) h,
        ap (λ (p : List (List Value) × Exchange json). p.1.resort_value) h,
      )
