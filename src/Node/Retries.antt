-- ===== src/Node/Retries.antt =====
-- send_update of src/node.rs: what goes out, and what it reports.
use concordium_euro2ccd_serv.Base.{
  ℕ, ◌≡◌, refl, inl, inr, Bool, true, false, Bool-cases, Option, none, some, List, [], ◌∷◌, ◌++◌,
  All,
}
use concordium_euro2ccd_serv.Helpers.{ExchangeRate}
use concordium_euro2ccd_serv.Prometheus
use concordium_euro2ccd_serv.Prometheus.{Stats}
use concordium_euro2ccd_serv.Node.{
  Sdk, is_unreachable, Answer, accepted, call_error, rpc_error, BlockItem, construct_block_item,
  Tick, Progress, trying, gave_up, sent, Sending, after_answer, tick_seq, on_tick, send_loop,
  send_update,
}

module _ (sdk : Sdk) where
  open sdk use {UpdateSequenceNumber, TransactionHash, Signer}

  -- An item carries the rate and the signer that send_update was given.
  abbrev pub Carries : Signer → ExchangeRate → BlockItem sdk → Type 0
  Carries signer exchange_rate item =
      (item.micro_gtu_per_euro ≡ exchange_rate) × (item.signer ≡ signer)

  -- The sequence number of the last item, if there is one.
  abbrev pub last_seq :
      Option UpdateSequenceNumber → List (BlockItem sdk) → Option UpdateSequenceNumber
  last_seq last [] = last
  last_seq last (item ∷ items) = last_seq (some item.seq_number) items

  -- The report of success agrees with the last item that went out and with the metrics.
  abbrev pub Reports : Progress sdk → Option UpdateSequenceNumber → ℕ → Type 0
  Reports trying last attempts = Unit {0}
  Reports gave_up last attempts = Unit {0}
  Reports (sent submission_id seq) last attempts = (last ≡ some seq) × (attempts ≡ 0)

  module _ (F : Type 0) (signer : Signer) (exchange_rate : ExchangeRate) where
    -- What holds of the loop from a tick on, if it holds of the rest.
    record Sound (last : Option UpdateSequenceNumber) (s : Sending sdk F) : Type 0 where
      carries : All (Carries signer exchange_rate) s.items
      reports : Reports s.progress (last_seq last s.items) s.stats.update_attempts

    after_answer-Sound :
        (a : Answer TransactionHash) (seq : UpdateSequenceNumber) (again : Stats F → Sending sdk F)
        (stats : Stats F)
        → ((st : Stats F) → Sound (some seq) (again st))
        → Sound (some seq) (after_answer sdk F a seq again stats)
    unfolding after_answer Prometheus.reset_update_attempts
    after_answer-Sound (accepted h) seq again stats rest = record {
      carries = tt;
      reports = (refl, refl);
    }
    after_answer-Sound (call_error code) seq again stats rest =
        elim (Bool-cases (is_unreachable code)) [
          | inl e ↦ rw (e, after_answer) (record { carries = tt; reports = tt })
          | inr e ↦ rw (e, after_answer) (rest (Prometheus.increment_update_attempts F stats))
        ]
    after_answer-Sound rpc_error seq again stats rest = rest _

    on_tick-Sound :
        (last seq : Option UpdateSequenceNumber) (t : Tick sdk)
        (again : UpdateSequenceNumber → Stats F → Sending sdk F) (stats : Stats F)
        → ((q : UpdateSequenceNumber) (st : Stats F) → Sound (some q) (again q st))
        → Sound last (on_tick sdk F signer exchange_rate seq t again stats)
    unfolding on_tick construct_block_item
    on_tick-Sound last none t again stats rest = record { carries = tt; reports = tt }
    on_tick-Sound last (some seq) t again stats rest =
        let s = after_answer-Sound t.answer seq (again seq) stats (rest seq) in
        record { carries = ((refl, refl), s.carries); reports = s.reports }

    send_loop-Sound :
        (ts : List (Tick sdk)) (asks : Bool) (last : Option UpdateSequenceNumber)
        (seq : UpdateSequenceNumber) (stats : Stats F)
        → Sound last (send_loop sdk F signer exchange_rate asks seq ts stats)
    unfolding send_loop
    send_loop-Sound [] asks last seq stats = record { carries = tt; reports = tt }
    send_loop-Sound (t ∷ ts) asks last seq stats =
        on_tick-Sound last (tick_seq sdk asks seq t) t _ stats
          (λ q st. send_loop-Sound ts true (some q) q st)

    -- Every block item that send_update sends carries the given rate and signer; if it reports
    -- success with a sequence number, that is the one of the last item sent, and the gauge of failed
    -- submissions is back at zero.
    pub send_update_sound :
        (seq_number : UpdateSequenceNumber) (ticks : List (Tick sdk)) (stats : Stats F)
        → let s = send_update sdk F signer exchange_rate seq_number ticks stats in
          All (Carries signer exchange_rate) s.items
          × Reports s.progress (last_seq none s.items) s.stats.update_attempts
    unfolding send_update
    send_update_sound seq_number ticks stats =
        let s = send_loop-Sound ticks false none seq_number stats in (s.carries, s.reports)

  module _ (F : Type 0) (signer : Signer) (exchange_rate : ExchangeRate) where
    -- After earlier items, too, a success names the last sequence number that went out.
    pub send_update-Reports :
        (earlier : Option UpdateSequenceNumber) (seq_number : UpdateSequenceNumber)
        (ticks : List (Tick sdk)) (stats : Stats F)
        → let s = send_update sdk F signer exchange_rate seq_number ticks stats in
          Reports s.progress (last_seq earlier s.items) s.stats.update_attempts
    unfolding send_update
    send_update-Reports earlier seq_number ticks stats =
        (send_loop-Sound F signer exchange_rate ticks false earlier seq_number stats).reports

  pub last_seq-append :
      (earlier : Option UpdateSequenceNumber) (xs ys : List (BlockItem sdk))
      → last_seq earlier (xs ++ ys) ≡ last_seq (last_seq earlier xs) ys
  last_seq-append earlier [] ys = refl
  last_seq-append earlier (x ∷ xs) ys = last_seq-append (some x.seq_number) xs ys
