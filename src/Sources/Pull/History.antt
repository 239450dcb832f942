-- ===== src/Sources/Pull/History.antt =====
-- What a source's history holds after any rounds of pull_exchange_rate in src/sources.rs.
pub mod Window
use mathlib.Core.List.{append_assoc, append-nil}
use concordium_euro2ccd_serv.Base.{
  ℕ, zero, suc, ◌+◌, ◌-◌, ◌≤◌, ◌≡◌, refl, sym, ap, ◌∙◌, subst, Bool, true, false, Option, none,
  some, List, [], ◌∷◌, ◌++◌, length, drop, length-append, length-drop, drop-append, ltb, arith,
  Bool-cases, inl, inr, Result, ok, err, String,
}
use concordium_euro2ccd_serv.Config
use concordium_euro2ccd_serv.Rational.{Rational, Float}
use concordium_euro2ccd_serv.Database.{Database, Fault, write_read_rate}
use concordium_euro2ccd_serv.Sources.{Source, RateHistory, fmt}
use concordium_euro2ccd_serv.Sources.Backoff.{first_success, request_with_backoff-first_success}
use concordium_euro2ccd_serv.Sources.Request.{Serde}
use concordium_euro2ccd_serv.Sources.Pull.{
  running, panicked, running_state, Task-cases, trim, push_rate, Round, Pulling, note_write,
  save_reading, record_reading, store_recip, store_rational, request, take_reading, pull_round,
  pull_exchange_rate,
}
pub use concordium_euro2ccd_serv.Sources.Pull.History.Window.{
  last_n, last_n_all, last_n-append, received, received-rates, length-received, length-last_n,
  to_list,
}
unfoldable pub use concordium_euro2ccd_serv.Sources.Pull.History.Window.{rates_of}

module _ (num : Rational) (float : Float num) (serde : Serde float.F) where
  open num use {Q}
  open float use {F}

  -- The rate that a reading stands for: its inverse as a rational.
  abbrev pub inverse : Option Q → Option Q
  inverse none = none
  inverse (some r) = num.recip r

  abbrev pub converted : Option F → Option Q
  converted none = none
  converted (some raw_rate) = inverse (float.from_float raw_rate)

  save_reading-history :
      (pool : Bool) (r : Round num float serde) (label : String) (v : F)
      (s : Pulling num float serde)
      → (save_reading num float serde pool r label v s).rate_history ≡ s.rate_history
  unfolding save_reading
  save_reading-history false r label v s = refl
  save_reading-history true r label v s = noted (write_read_rate r.access r.written_at v label s.db)
    where
      noted :
          (w : Result Fault (Database F))
          → (note_write num float serde w s).rate_history ≡ s.rate_history
      noted (ok db) = refl
      noted (err e) = refl

  history_of : Pulling num float serde → RateHistory Q
  history_of s = s.rate_history

  store_recip-history :
      (max now : ℕ) (q : Option Q) (s s' : Pulling num float serde)
      → store_recip num float serde max now q s ≡ running s'
      → s'.rate_history ≡ received max now q s.rate_history
  unfolding store_recip history_of
  store_recip-history max now none s s' h = cc
  store_recip-history max now (some q) s s' h = ap history_of (sym (running_state h))

  store_rational-history :
      (max now : ℕ) (q : Option Q) (s s' : Pulling num float serde)
      → store_rational num float serde max now q s ≡ running s'
      → s'.rate_history ≡ received max now (inverse q) s.rate_history
  unfolding store_rational history_of
  store_rational-history max now none s s' h = ap history_of (sym (running_state h))
  store_rational-history max now (some q) s s' h = store_recip-history max now (num.recip q) s s' h

  module _ (source : Source) (max : ℕ) (pool : Bool) where
    pub record_reading-history :
        (r : Round num float serde) (v : F) (s : Pulling num float serde)
        → (record_reading num float serde source max pool r v s).rate_history ≡ s.rate_history
    unfolding record_reading
    record_reading-history r v s = save_reading-history pool r (fmt source) v _

    take_reading-history :
        (r : Round num float serde) (v : Option F) (s s' : Pulling num float serde)
        → take_reading num float serde source max pool r v s ≡ running s'
        → s'.rate_history ≡ received max r.now (converted v) s.rate_history
    unfolding take_reading history_of
    take_reading-history r none s s' h = ap history_of (sym (running_state h))
    take_reading-history r (some v) s s' h =
        store_rational-history max r.now (float.from_float v)
          (record_reading num float serde source max pool r v s) s' h
        ∙ ap (received max r.now (converted (some v))) (record_reading-history r v s)

    -- The rate that a round takes in: that of its first successful request, if it has a rational.
    unfoldable pub accepted : Round num float serde → Option Q
    accepted r =
        converted (first_success (request num float serde source max pool r) 0 Config.max_retries)

    pub pull_round-history :
        (r : Round num float serde) (s s' : Pulling num float serde)
        → pull_round num float serde source max pool r s ≡ running s'
        → s'.rate_history ≡ received max r.now (accepted r) s.rate_history
    unfolding pull_round accepted
    pull_round-history r s s' h =
        take_reading-history r _ _ s' h
        ∙ ap (λ v. received max r.now (converted v) s.rate_history)
            (request_with_backoff-first_success (request num float serde source max pool r)
              Config.initial_retry_interval Config.max_retries).0

    -- The rates that rounds take in, the first first.
    pub accepted_rates : List (Round num float serde) → List Q
    accepted_rates [] = []
    accepted_rates (r ∷ rs) = to_list (accepted r) ++ accepted_rates rs

    pub pull_exchange_rate_cons :
        (r : Round num float serde) (rs : List (Round num float serde))
        (s s' : Pulling num float serde)
        → pull_exchange_rate num float serde source max pool (r ∷ rs) s ≡ running s'
        → (s₁ : Pulling num float serde) × (pull_round num float serde source max pool r s
            ≡ running s₁)
          × (pull_exchange_rate num float serde source max pool rs s₁ ≡ running s')
    unfolding pull_exchange_rate
    pull_exchange_rate_cons r rs s s' h =
        elim (Task-cases (pull_round num float serde source max pool r s)) [
          | inl (s₁, e) ↦ (s₁, e, rw (e, pull_exchange_rate) at h)
          | inr (s₁, e) ↦
              let stopped : panicked s₁ ≡ running s' = rw (e, pull_exchange_rate) at h in cc
        ]

    pull_round-rates :
        (r : Round num float serde) (s s' : Pulling num float serde)
        → length s.rate_history.rates ≤ max
        → pull_round num float serde source max pool r s ≡ running s'
        → s'.rate_history.rates ≡ last_n max (s.rate_history.rates ++ to_list (accepted r))
    unfolding rates_of
    pull_round-rates r s s' le h =
        ap rates_of (pull_round-history r s s' h)
        ∙ received-rates max r.now (accepted r) s.rate_history le

    -- A round keeps the bound on the history.
    pull_round-length :
        (r : Round num float serde) (s s' : Pulling num float serde)
        → length s.rate_history.rates ≤ max
        → pull_round num float serde source max pool r s ≡ running s'
        → length s'.rate_history.rates ≤ max
    pull_round-length r s s' le h =
        subst (λ xs. length xs ≤ max) (sym (pull_round-rates r s s' le h)) (length-last_n max _)

    pub pull_exchange_rate_nil :
        (s s' : Pulling num float serde)
        → pull_exchange_rate num float serde source max pool [] s ≡ running s'
        → s.rate_history.rates ≡ s'.rate_history.rates
    unfolding pull_exchange_rate rates_of history_of
    pull_exchange_rate_nil s s' h = ap rates_of (ap history_of (running_state h))

    -- From a history of at most max rates, any rounds that no panic ends leave exactly the last max
    -- of the old rates followed by the inverses of the readings that the rounds took in.
    pub pull_exchange_rate-rates :
        (rs : List (Round num float serde)) (s s' : Pulling num float serde)
        → length s.rate_history.rates ≤ max
        → pull_exchange_rate num float serde source max pool rs s ≡ running s'
        → s'.rate_history.rates ≡ last_n max (s.rate_history.rates ++ accepted_rates rs)
    unfolding accepted_rates
    pull_exchange_rate-rates [] s s' le h =
        sym (rw append-nil (last_n_all max s.rate_history.rates le) ∙ pull_exchange_rate_nil s s' h)
    pull_exchange_rate-rates (r ∷ rs) s s' le h =
        let (s₁, first, rest) = pull_exchange_rate_cons r rs s s' h in
        pull_exchange_rate-rates rs s₁ s' (pull_round-length r s s₁ le first) rest
        ∙ ap (λ xs. last_n max (xs ++ accepted_rates rs)) (pull_round-rates r s s₁ le first)
        ∙ last_n-append max (s.rate_history.rates ++ to_list (accepted r)) (accepted_rates rs)
        ∙ ap (last_n max)
            (append_assoc s.rate_history.rates (to_list (accepted r)) (accepted_rates rs))
