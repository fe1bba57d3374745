-- ===== src/Tcpcl/Manager.antt =====
-- pkg/cla/tcpclv4/internal/utils/transfer_manager.go: what `handle` does with each message of the
-- peer. A channel is the list of what was put into it, the newest last; `decode` stands for
-- `Bundle.UnmarshalCbor` on the whole buffer.
pub mod Steps
pub mod Delivery
pub mod Bundles
pub mod Invariant
use dtn7_gold.Prelude.{Bool, false, true, Option, none, some, List, [], ◌∷◌, ◌++◌, if◌then◌else◌, ℕ}
use dtn7_gold.Prelude.Maps.{Map, update, empty}
use dtn7_gold.Tcpcl.Messages.Types.{
  DataTransmissionMessage, DataAcknowledgementMessage, Message, contact_header, session_init,
  session_termination, data_transmission, data_acknowledgement, transfer_refusal, keepalive_message,
  message_rejection,
}
use dtn7_gold.Tcpcl.Transfer.{
  Error, bad_bundle, unknown_acknowledgement, unknown_refusal, unexpected_message, Result, ok, err,
  IncomingTransfer, new_incoming, receive_segment,
}

pub record Manager {ℓ} (B : Type ℓ) : Type ℓ where
  pub msg_out : List Message
  pub bundles : List B
  pub errors : List Error
  pub in_transfers : Map IncomingTransfer
  pub out_feedback : Map (List Message)
  -- `handle` has returned; nothing reads `msgIn` any more.
  pub stopped : Bool

abbrev pub start {ℓ} : {B : Type ℓ} → Manager B
start = record {
  msg_out = [];
  bundles = [];
  errors = [];
  in_transfers = empty;
  out_feedback = empty;
  stopped = false;
}

abbrev pub load_or_new : ℕ → Option IncomingTransfer → IncomingTransfer
load_or_new id none = new_incoming id
load_or_new id (some t) = t

module _ {ℓ} {B : Type ℓ} where
  -- An error goes into its channel, and `handle` returns.
  unfoldable pub fail : Error → Manager B → Manager B
  fail e m = record m { errors = m.errors ++ e ∷ []; stopped = true }

  -- A response is handed to the `Send` that waits for it.
  unfoldable pub feed_back : ℕ → Message → Error → Option (List Message) → Manager B → Manager B
  unfolding fail
  feed_back id msg e none m = fail e m
  feed_back id msg e (some waiting) m = record m {
    out_feedback = update m.out_feedback id (some (waiting ++ msg ∷ []));
  }

  abbrev pub store : IncomingTransfer → ℕ → Manager B → Manager B
  store t id m = record m { in_transfers = update m.in_transfers id (some t) }

  unfoldable pub deliver : ℕ → Option B → Manager B → Manager B
  unfolding fail
  deliver id none m = fail bad_bundle m
  deliver id (some b) m = record m {
    bundles = m.bundles ++ b ∷ [];
    in_transfers = update m.in_transfers id none;
  }

  module _ (decode : List ℕ → Option B) where
    -- `t` is the transfer that `LoadOrStore` gave, and that is in the map now.
    unfoldable pub after_segment :
        ℕ
        → IncomingTransfer
        → Result (DataAcknowledgementMessage × IncomingTransfer)
        → Manager B
        → Manager B
    unfolding deliver fail
    after_segment id t (err e) m = fail e (store t id m)
    after_segment id t (ok (ack, t')) m =
        let m' = record (store t' id m) { msg_out = m.msg_out ++ data_acknowledgement ack ∷ [] } in
        if t'.end_flag then deliver id (decode t'.buf) m' else m'

    unfoldable pub handle_segment :
        DataTransmissionMessage → IncomingTransfer → Manager B → Manager B
    unfolding after_segment
    handle_segment d t m = after_segment d.transfer_id t (receive_segment t d) m

    unfoldable pub handle_message : Message → Manager B → Manager B
    unfolding feed_back handle_segment fail
    handle_message (data_acknowledgement a) m =
        feed_back a.transfer_id (data_acknowledgement a) unknown_acknowledgement
          (m.out_feedback a.transfer_id) m
    handle_message (transfer_refusal r) m =
        feed_back r.transfer_id (transfer_refusal r) unknown_refusal (m.out_feedback r.transfer_id)
          m
    handle_message (data_transmission d) m =
        handle_segment d (load_or_new d.transfer_id (m.in_transfers d.transfer_id)) m
    handle_message (contact_header c) m = fail unexpected_message m
    handle_message (session_init c) m = fail unexpected_message m
    handle_message (session_termination c) m = fail unexpected_message m
    handle_message keepalive_message m = fail unexpected_message m
    handle_message (message_rejection c) m = fail unexpected_message m

    -- The loop of `handle` over the messages that arrive.
    unfoldable pub handle : List Message → Manager B → Manager B
    handle [] m = m
    handle (msg ∷ msgs) m = if m.stopped then m else handle msgs (handle_message msg m)
