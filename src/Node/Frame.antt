-- ===== src/Node/Frame.antt =====
-- send_update of src/node.rs beside the tasks: what a task does to the shared metrics, before or after it.
use concordium_euro2ccd_serv.Base.{
  ◌≡◌, refl, ap, inl, inr, Bool, true, false, Bool-cases, Option, none, some, List, [], ◌∷◌,
}
use concordium_euro2ccd_serv.Helpers.{ExchangeRate}
use concordium_euro2ccd_serv.Prometheus
use concordium_euro2ccd_serv.Prometheus.{Stats}
use concordium_euro2ccd_serv.Sources.Pull.Effect.{Effect, on_stats}
use concordium_euro2ccd_serv.Node.{
  Sdk, construct_block_item, is_unreachable, Answer, accepted, call_error, rpc_error, Tick, Sending,
  after_answer, on_tick, tick_seq, send_loop, send_update,
}

module _ (sdk : Sdk) (F : Type 0) (e : Effect F) where
  abbrev pub on_sending : Sending sdk F → Sending sdk F
  on_sending x = record x { stats = on_stats e x.stats }

  module _ (signer : sdk.Signer) (exchange_rate : ExchangeRate) where
    after_answer-frame :
        (a : Answer sdk.TransactionHash) (seq : sdk.UpdateSequenceNumber)
        (again : Stats F → Sending sdk F) (st : Stats F)
        → ((st : Stats F) → again (on_stats e st) ≡ on_sending (again st))
        → after_answer sdk F a seq again (on_stats e st)
          ≡ on_sending (after_answer sdk F a seq again st)
    unfolding after_answer Prometheus.reset_update_attempts Prometheus.increment_update_attempts
    after_answer-frame (accepted h) seq again st rest = refl
    after_answer-frame (call_error code) seq again st rest =
        elim (Bool-cases (is_unreachable code)) [
          | inl u ↦ rw (u, after_answer) refl
          | inr u ↦ rw (u, after_answer) (rest (Prometheus.increment_update_attempts F st))
        ]
    after_answer-frame rpc_error seq again st rest =
        rest (Prometheus.increment_update_attempts F st)

    on_tick-frame :
        (seq : Option sdk.UpdateSequenceNumber) (t : Tick sdk)
        (again : sdk.UpdateSequenceNumber → Stats F → Sending sdk F) (st : Stats F)
        → ((q : sdk.UpdateSequenceNumber) (st : Stats F)
            → again q (on_stats e st) ≡ on_sending (again q st))
        → on_tick sdk F signer exchange_rate seq t again (on_stats e st)
          ≡ on_sending (on_tick sdk F signer exchange_rate seq t again st)
    unfolding on_tick
    on_tick-frame none t again st rest = refl
    on_tick-frame (some seq) t again st rest =
        ap
          (λ (x : Sending sdk F). record x {
            items = construct_block_item sdk t.now seq signer exchange_rate ∷ x.items;
          })
          (after_answer-frame t.answer seq (again seq) st (rest seq))

    send_loop-frame :
        (ts : List (Tick sdk)) (asks : Bool) (seq : sdk.UpdateSequenceNumber) (st : Stats F)
        → send_loop sdk F signer exchange_rate asks seq ts (on_stats e st)
          ≡ on_sending (send_loop sdk F signer exchange_rate asks seq ts st)
    unfolding send_loop
    send_loop-frame [] asks seq st = refl
    send_loop-frame (t ∷ ts) asks seq st =
        on_tick-frame (tick_seq sdk asks seq t) t _ st (λ q. send_loop-frame ts true q)

    pub send_update-frame :
        (seq : sdk.UpdateSequenceNumber) (ts : List (Tick sdk)) (st : Stats F)
        → send_update sdk F signer exchange_rate seq ts (on_stats e st)
          ≡ on_sending (send_update sdk F signer exchange_rate seq ts st)
    unfolding send_update
    send_update-frame seq ts st = send_loop-frame ts false seq st
