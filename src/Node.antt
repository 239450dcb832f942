-- ===== src/Node.antt =====
-- src/node.rs: sending an update to a node, with retries under fresh sequence numbers, waiting for its
-- finalization, and choosing a node. The node's answers are parameters: one item of a list for each
-- tick of the retry interval.
pub mod Retries
pub mod Waiting
pub mod Frame
pub mod Delivery
pub mod Tests
use concordium_euro2ccd_serv.Base.{
  ℕ, ◌+◌, ◌%◌, ◌^◌, Bool, true, false, Option, none, some, List, [], ◌∷◌, Result, ok, err,
}
use concordium_euro2ccd_serv.Config
use concordium_euro2ccd_serv.Helpers.{ExchangeRate}
use concordium_euro2ccd_serv.Prometheus
use concordium_euro2ccd_serv.Prometheus.{Stats}

-- The types of the SDK that the program passes around.
pub record Sdk : Type 1 where
  pub Client : Type 0
  pub Endpoint : Type 0
  pub UpdateSequenceNumber : Type 0
  pub next : UpdateSequenceNumber → UpdateSequenceNumber
  pub Signer : Type 0
  pub TransactionHash : Type 0

-- tonic::Code: those that the program names, and any other by its number.
pub data Code : Type 0 where
  internal failed_precondition permission_denied aborted unavailable unknown : Code
  other : ℕ → Code

-- The codes at which send_update gives the node up.
unfoldable pub is_unreachable : Code → Bool
is_unreachable (other n) = false
is_unreachable _ = true

-- The answer to send_block_item.
pub data Answer (H : Type 0) : Type 0 where
  accepted : H → Answer H
  call_error : Code → Answer H
  rpc_error : Answer H

module _ (sdk : Sdk) where
  open sdk use {UpdateSequenceNumber, Signer, TransactionHash}

  -- A signed update instruction with its header.
  pub record BlockItem : Type 0 where
    pub signer : Signer
    pub seq_number : UpdateSequenceNumber
    pub effective_time : ℕ
    pub timeout : ℕ
    pub micro_gtu_per_euro : ExchangeRate

  unfoldable pub construct_block_item :
      (now : ℕ) → UpdateSequenceNumber → Signer → ExchangeRate → BlockItem
  construct_block_item now seq_number signer exchange_rate = record {
    signer = signer;
    seq_number = seq_number;
    effective_time = 0;
    timeout = (now + Config.update_expiry_offset) % 2 ^ 64;
    micro_gtu_per_euro = exchange_rate;
  }

  -- What the node does at one tick: the sequence number that it answers with, if it is asked and can
  -- be reached, the time, and the answer to the block item.
  pub record Tick : Type 0 where
    pub new_seq : Option UpdateSequenceNumber
    pub now : ℕ
    pub answer : Answer TransactionHash

  -- How far send_update has come: still trying, given up on the node, or accepted.
  pub data Progress : Type 0 where
    trying : Progress
    gave_up : Progress
    sent : TransactionHash → UpdateSequenceNumber → Progress

  -- Progress, the metrics, and the block items that went out, the first first.
  pub record Sending (F : Type 0) : Type 0 where
    pub progress : Progress
    pub stats : Stats F
    pub items : List BlockItem

  -- The sequence number of a tick: a new one if it is asked for.
  abbrev pub tick_seq : Bool → UpdateSequenceNumber → Tick → Option UpdateSequenceNumber
  tick_seq true seq_number t = t.new_seq
  tick_seq false seq_number t = some seq_number

  module _ (F : Type 0) where
    abbrev pub log_item : BlockItem → Sending F → Sending F
    log_item item s = record s { items = item ∷ s.items }

    abbrev pub stop : Progress → Stats F → Sending F
    stop progress stats = record { progress = progress; stats = stats; items = [] }

    -- What follows an answer; `again` is the rest of the loop, with get_new_seq_number set.
    pub after_answer :
        Answer TransactionHash → UpdateSequenceNumber → (Stats F → Sending F) → Stats F → Sending F
    after_answer (accepted submission_id) seq_number again stats =
        stop (sent submission_id seq_number) (Prometheus.reset_update_attempts F stats)
    after_answer (call_error code) seq_number again stats =
        let counted = Prometheus.increment_update_attempts F stats in
        elim (is_unreachable code) [ true ↦ stop gave_up counted | false ↦ again counted ]
    after_answer rpc_error seq_number again stats =
        again (Prometheus.increment_update_attempts F stats)

    module _ (signer : Signer) (exchange_rate : ExchangeRate) where
      -- One tick, with the rest of the loop.
      pub on_tick :
          Option UpdateSequenceNumber
          → Tick
          → (UpdateSequenceNumber → Stats F → Sending F)
          → Stats F
          → Sending F
      unfolding after_answer
      on_tick none t again stats = stop gave_up stats
      on_tick (some seq) t again stats =
          log_item (construct_block_item t.now seq signer exchange_rate)
            (after_answer t.answer seq (again seq) stats)

      pub send_loop : Bool → UpdateSequenceNumber → List Tick → Stats F → Sending F
      send_loop get_new_seq_number seq_number [] stats = stop trying stats
      send_loop get_new_seq_number seq_number (t ∷ ts) stats =
          on_tick (tick_seq get_new_seq_number seq_number t) t (λ seq. send_loop true seq ts) stats

      unfoldable pub send_update : UpdateSequenceNumber → List Tick → Stats F → Sending F
      unfolding send_loop on_tick
      send_update seq_number ticks stats = send_loop false seq_number ticks stats

  -- The first endpoint that a client can be connected to.
  unfoldable pub get_node_client :
      (sdk.Endpoint → Option sdk.Client) → List sdk.Endpoint → Option sdk.Client
  get_node_client connect [] = none
  get_node_client connect (node_ep ∷ endpoints) =
      let rest = get_node_client connect endpoints in
      elim (connect node_ep) [ some client ↦ some client | none ↦ rest ]

-- The wait for finalization forwards the library's error and drops its value.
unfoldable pub check_update_status : {E A : Type 0} → Result E A → Result E (Unit {0})
check_update_status (ok outcome) = ok tt
check_update_status (err e) = err e
