-- ===== src/System/Progress.antt =====
-- src/main.rs and src/sources.rs together: how the main loop comes to the end of its cycle.
use mathlib.Core.List.{append-nil, append_assoc}
use concordium_euro2ccd_serv.Base.{
  ℕ, ℤ, ◌≤◌, ◌≡◌, refl, sym, ap, subst, ◌∙◌, Bool, true, some, none, List, [], ◌∷◌, ◌++◌, map,
  String, length, length-append, length-map, length-take, length-drop, take, drop, take-append-drop,
  arith,
}
use concordium_euro2ccd_serv.Rational.{Rational, Float}
use concordium_euro2ccd_serv.Sources.{RateHistory}
use concordium_euro2ccd_serv.Sources.Request.{Serde}
use concordium_euro2ccd_serv.Node.{Sdk, BlockItem}
use concordium_euro2ccd_serv.Node.Retries.{last_seq}
use concordium_euro2ccd_serv.Main.Options.{App}
use concordium_euro2ccd_serv.Main.Cycle.{
  finalized, went_on, Thresholds, Service, Around, derive_rate,
}
use concordium_euro2ccd_serv.Main.Cycle.Delivery.{Delivers, main_cycle-Updates}
use concordium_euro2ccd_serv.Main.Cycle.Allowed.{Allowed}
use concordium_euro2ccd_serv.System.{
  Worker, System, spawn, pulled, looked, acted, Step, pull, look, act, Reach, here, next,
}
use concordium_euro2ccd_serv.System.Soundness.{spawned-IsSound}

module _ (num : Rational) (float : Float num) (gcd : ℤ → ℤ → ℕ) (sdk : Sdk) (serde : Serde float.F)
    (endpoint : List sdk.Endpoint) (thresholds : Thresholds num) (db_conn_pool : Bool)
    (max_rates_saved : ℕ) where
  open num use {Q, lt}

  -- The cycle has read no more histories than there are.
  abbrev IsWithin : System num float gcd sdk serde → Type 0
  IsWithin s = length s.seen ≤ length s.workers

  Step-IsWithin :
      {s t : System num float gcd sdk serde}
      → Step num float gcd sdk serde endpoint thresholds db_conn_pool max_rates_saved s t
      → IsWithin s
      → IsWithin t
  unfolding pulled looked acted
  Step-IsWithin {s} (pull r before w after e alive up) h =
      omega
        (arith, h, ap length e, length-append before (w ∷ after), length-append before (_ ∷ after))
  Step-IsWithin {s} (look before w after e turn up) h = omega (
    arith,
    turn,
    ap length e,
    length-append before (w ∷ after),
    length-append s.seen (w.rate_history ∷ []),
  )
  Step-IsWithin {s} (act a full up) h = omega arith

  Reach-IsWithin :
      {s t : System num float gcd sdk serde}
      → Reach num float gcd sdk serde endpoint thresholds db_conn_pool max_rates_saved s t
      → IsWithin s
      → IsWithin t
  Reach-IsWithin here h = h
  Reach-IsWithin (next r st) h = Step-IsWithin st (Reach-IsWithin r h)

  -- Steps that are reads of the main loop; none is a task's.
  pub data Reads (s : System num float gcd sdk serde)
      : System num float gcd sdk serde → Type 0 where
    none_yet : Reads s s
    read :
        {t : System num float gcd sdk serde} (before : List (Worker num float gcd sdk serde))
        (w : Worker num float gcd sdk serde) (after : List (Worker num float gcd sdk serde))
        → Reads s t
        → t.workers ≡ before ++ w ∷ after
        → length before ≡ length t.seen
        → t.status ≡ went_on
        → Reads s (
            looked num float gcd sdk serde endpoint thresholds db_conn_pool max_rates_saved
              w.rate_history t)

  abbrev histories_of : List (Worker num float gcd sdk serde) → List (RateHistory Q)
  histories_of ws = map (λ (w : Worker num float gcd sdk serde). w.rate_history) ws

  -- The cycle with the histories that it has read, and those that the tasks not yet looked at have now.
  abbrev pub all_read : System num float gcd sdk serde → System num float gcd sdk serde
  all_read s = record s { seen = s.seen ++ histories_of (drop (length s.seen) s.workers) }

  looked-Reads :
      (before after : List (Worker num float gcd sdk serde)) (s t : System num float gcd sdk serde)
      → t.workers ≡ before ++ after
      → length before ≡ length t.seen
      → t.status ≡ went_on
      → Reads s t
      → Reads s (record t { seen = t.seen ++ histories_of after })
  unfolding looked
  looked-Reads before [] s t e l up r =
      subst (λ xs. Reads s (record t { seen = xs })) (sym (append-nil t.seen)) r
  looked-Reads before (w ∷ after) s t e l up r =
      subst (λ xs. Reads s (record t { seen = xs }))
        (append_assoc t.seen (w.rate_history ∷ []) (histories_of after))
        (looked-Reads (before ++ w ∷ []) after s _ (e ∙ sym (append_assoc before (w ∷ []) after))
          (omega
            (arith, l, length-append before (w ∷ []), length-append t.seen (w.rate_history ∷ [])))
          up (read before w after r e l up))

  all_read-Reads :
      (s : System num float gcd sdk serde)
      → IsWithin s
      → s.status ≡ went_on
      → Reads s (all_read s) × (length (all_read s).seen ≡ length s.workers)
  all_read-Reads s h up =
      let read = take (length s.seen) s.workers in
      let rest = drop (length s.seen) s.workers in
      (
        looked-Reads read rest s s (take-append-drop (length s.seen) s.workers)
            (omega (arith, h, length-take (length s.seen) s.workers)) up none_yet,
        omega (
          arith,
          h,
          length-drop (length s.seen) s.workers,
          length-append s.seen (histories_of rest),
          length-map (λ (w : Worker num float gcd sdk serde). w.rate_history) rest,
        ),
      )

  -- From a state that the tasks and the main loop came to from a positive rate on chain, in which the
  -- main loop neither waits for a node nor has panicked, and there is a signer: if the halt thresholds
  -- allow the rate of the histories that the cycle has read, together with those that it has not read
  -- yet, as they are now, and in a given environment some node, after others that are lost, accepts the
  -- update, which is reported finalized, then the main loop can, by reads alone, read all these
  -- histories, and then end its cycle in that environment; and after that it goes on, that rate is the
  -- previous rate, something was sent in this cycle, and the sequence number is the one after that of
  -- the last block item sent.
  pub spawn_progress :
      (test_label : ℕ → String) (app : App) (service : Service num float gcd sdk)
      (s : System num float gcd sdk serde) (a : Around num float gcd sdk) (signer : sdk.Signer)
      (rate : Q)
      → lt num.zero service.prev_rate ≡ true
      → Reach num float gcd sdk serde endpoint thresholds db_conn_pool max_rates_saved
          (spawn num float gcd sdk serde test_label app service)
          s
      → s.status ≡ went_on
      → s.service.signer ≡ some signer
      → derive_rate num s.service.last_update_timestamp (all_read s).seen ≡ some rate
      → Allowed num thresholds s.service.prev_rate rate
      → Delivers num float gcd sdk endpoint a.visits
      → a.finality ≡ finalized
      → let t = all_read s in
        let u =
          acted num float gcd sdk serde endpoint thresholds db_conn_pool max_rates_saved a t in
        Reads s t
        × Step num float gcd sdk serde endpoint thresholds db_conn_pool max_rates_saved t u
        × (u.status ≡ went_on)
        × (u.service.prev_rate ≡ rate)
        × (seq : sdk.UpdateSequenceNumber) × (sent : List (BlockItem sdk)) × (u.items
            ≡ s.items ++ sent)
        × (last_seq sdk none sent ≡ some seq)
        × (u.service.seq_number ≡ sdk.next seq)
  unfolding spawn acted
  spawn_progress test_label app service s a signer rate p r up signs derived allowed delivers
        final =
      let (reads, count) = all_read-Reads s (Reach-IsWithin r (omega arith)) up in
      let sound =
        spawned-IsSound num float gcd sdk serde endpoint thresholds db_conn_pool max_rates_saved
          test_label app service s p r in
      let (status, prev_rate, seq, last, next_seq) =
        main_cycle-Updates num float gcd sdk endpoint thresholds db_conn_pool a delivers final
          (all_read s).seen signer rate s.service signs derived sound.prev_rate allowed in
      (reads, act a count up, status, prev_rate, seq, _, refl, last, next_seq)
