-- ===== src/Tcpcl/Manager/Invariant.antt =====
-- What holds of a transfer manager, whatever messages it handles.
use dtn7_gold.Prelude.{
  ℕ, ◌≡◌, refl, ◌∙◌, sym, false, true, Option, none, some, List, [], ◌∷◌, ◌++◌, arith, length,
  length-append, Bool-cases, inl, inr, ◌==◌, ==_iff, subst, if◌then◌else◌,
}
use dtn7_gold.Prelude.Maps.{Map, update, Holds, update-Holds, update-Holds_gone}
use dtn7_gold.Tcpcl.Messages.Types.{
  Message, DataTransmissionMessage, DataAcknowledgementMessage, contact_header, session_init,
  session_termination, data_transmission, data_acknowledgement, transfer_refusal, keepalive_message,
  message_rejection,
}
use dtn7_gold.Tcpcl.Transfer.{
  Error, bad_bundle, ok, IncomingTransfer, new_incoming, is_end, receive_segment,
}
use dtn7_gold.Tcpcl.Manager.{
  Manager, load_or_new, fail, feed_back, deliver, after_segment, handle_segment, handle_message,
  handle,
}

-- A transfer under its own number that waits for more segments.
abbrev pub IsOpen : ℕ → IncomingTransfer → Type 0
IsOpen id t = (t.id ≡ id) × (t.end_flag ≡ false)

-- A manager that runs has reported no error and keeps open transfers only; one that has stopped has
-- reported one error.
pub record IsValid {ℓ} {B : Type ℓ} (m : Manager B) : Type ℓ where
  pub errors : length m.errors ≡ (if m.stopped then 1 else 0)
  pub transfers : m.stopped ≡ false → Holds IsOpen m.in_transfers

load_or_new-IsOpen :
    (id : ℕ) (m : Map IncomingTransfer) → Holds IsOpen m → IsOpen id (load_or_new id (m id))
unfolding new_incoming
load_or_new-IsOpen id m h = go (m id) refl
  where
    go : (known : Option IncomingTransfer) → m id ≡ known → IsOpen id (load_or_new id known)
    go none e = (refl, refl)
    go (some t) e = h id t e

module _ {ℓ} {B : Type ℓ} (m : Manager B) (run : m.stopped ≡ false) (valid : IsValid m) where
  no_errors : length m.errors ≡ 0
  no_errors = valid.errors ∙ rw run

  fail-IsValid :
      (e : Error) (msgs : List Message) (transfers : Map IncomingTransfer)
      → IsValid (fail e (record m { msg_out = msgs; in_transfers = transfers }))
  unfolding fail
  fail-IsValid e msgs transfers = record {
    errors = omega (arith, length-append m.errors (e ∷ []), no_errors);
    transfers = λ h. cc;
  }

  running-IsValid :
      (msgs : List Message) (bundles : List B) (feedback : Map (List Message))
      (transfers : Map IncomingTransfer)
      → Holds IsOpen transfers
      → IsValid (record m {
        msg_out = msgs;
        bundles = bundles;
        out_feedback = feedback;
        in_transfers = transfers;
      })
  running-IsValid msgs bundles feedback transfers h = record {
    errors = rw run no_errors;
    transfers = λ _. h;
  }

  feed_back-IsValid :
      (id : ℕ) (msg : Message) (e : Error) (waiting : Option (List Message))
      → IsValid (feed_back id msg e waiting m)
  unfolding feed_back
  feed_back-IsValid id msg e none = fail-IsValid e m.msg_out m.in_transfers
  feed_back-IsValid id msg e (some waiting) =
      running-IsValid m.msg_out m.bundles (update m.out_feedback id (some (waiting ++ msg ∷ [])))
        m.in_transfers (valid.transfers run)

  deliver-IsValid :
      (id : ℕ) (t : IncomingTransfer) (msgs : List Message) (b : Option B)
      → IsValid (
          deliver id b
            (record m { msg_out = msgs; in_transfers = update m.in_transfers id (some t) }))
  unfolding deliver
  deliver-IsValid id t msgs none = fail-IsValid bad_bundle msgs (update m.in_transfers id (some t))
  deliver-IsValid id t msgs (some b) =
      running-IsValid msgs (m.bundles ++ b ∷ []) m.out_feedback
        (update (update m.in_transfers id (some t)) id none)
        (update-Holds_gone IsOpen m.in_transfers id (some t) (valid.transfers run))

  module _ (decode : List ℕ → Option B) (id : ℕ) where
    after-IsValid :
        (ack : DataAcknowledgementMessage) (t t' : IncomingTransfer)
        → t'.id ≡ id
        → IsValid (after_segment decode id t (ok (ack, t')) m)
    unfolding after_segment
    after-IsValid ack t t' same = elim (Bool-cases t'.end_flag) [
      | inl ends ↦
          simp ends
            (deliver-IsValid id t' (m.msg_out ++ data_acknowledgement ack ∷ []) (decode t'.buf))
      | inr more ↦ simp more (
          running-IsValid (m.msg_out ++ data_acknowledgement ack ∷ []) m.bundles m.out_feedback
            (update m.in_transfers id (some t'))
            (update-Holds IsOpen m.in_transfers id t' (same, more) (valid.transfers run)))
    ]

-- An open transfer takes each of its segments.
receive-IsOpen :
    (t : IncomingTransfer) (d : DataTransmissionMessage)
    → IsOpen d.transfer_id t
    → receive_segment t d
      ≡ ok (
        record {
          flags = d.flags;
          transfer_id = d.transfer_id;
          ack_len = length (t.buf ++ d.payload);
        },
        record t { buf = t.buf ++ d.payload; end_flag = is_end d.flags },
      )
unfolding receive_segment
receive-IsOpen t d h =
    let same : (t.id == d.transfer_id) ≡ true = (==_iff _ _).1 h.0 in simp (h.1, same)

module _ {ℓ} {B : Type ℓ} (decode : List ℕ → Option B) where
  segment-IsValid :
      (d : DataTransmissionMessage) (t : IncomingTransfer) (m : Manager B)
      → m.stopped ≡ false
      → IsValid m
      → IsOpen d.transfer_id t
      → IsValid (handle_segment decode d t m)
  unfolding handle_segment
  segment-IsValid d t m run valid h =
      subst (λ r. IsValid (after_segment decode d.transfer_id t r m)) (sym (receive-IsOpen t d h))
        (after-IsValid m run valid decode d.transfer_id _ t _ h.0)

  message-IsValid :
      (msg : Message) (m : Manager B)
      → m.stopped ≡ false
      → IsValid m
      → IsValid (handle_message decode msg m)
  unfolding handle_message
  message-IsValid (data_transmission d) m run valid =
      segment-IsValid d (load_or_new d.transfer_id (m.in_transfers d.transfer_id)) m run valid
        (load_or_new-IsOpen d.transfer_id m.in_transfers (valid.transfers run))
  message-IsValid (data_acknowledgement a) m run valid =
      feed_back-IsValid m run valid a.transfer_id _ _ (m.out_feedback a.transfer_id)
  message-IsValid (transfer_refusal r) m run valid =
      feed_back-IsValid m run valid r.transfer_id _ _ (m.out_feedback r.transfer_id)
  message-IsValid (contact_header c) m run valid =
      fail-IsValid m run valid _ m.msg_out m.in_transfers
  message-IsValid (session_init c) m run valid = fail-IsValid m run valid _ m.msg_out m.in_transfers
  message-IsValid (session_termination c) m run valid =
      fail-IsValid m run valid _ m.msg_out m.in_transfers
  message-IsValid keepalive_message m run valid =
      fail-IsValid m run valid _ m.msg_out m.in_transfers
  message-IsValid (message_rejection c) m run valid =
      fail-IsValid m run valid _ m.msg_out m.in_transfers

-- Whatever messages a manager handles, in whatever order and with whatever bundles that decode or do
-- not: if it has reported one error if it has stopped and none if it runs, and each transfer in its map
-- stands under its own number and waits for segments while it runs, this holds afterwards too. So it
-- reports at most one error and stops with it, and while it runs it keeps no finished transfer.
pub handle-IsValid {ℓ} :
    {B : Type ℓ} (decode : List ℕ → Option B) (msgs : List Message) (m : Manager B)
    → IsValid m
    → IsValid (handle decode msgs m)
unfolding handle
handle-IsValid decode [] m valid = valid
handle-IsValid decode (msg ∷ msgs) m valid = elim (Bool-cases m.stopped) [
  | inl stops ↦ simp stops valid
  | inr run ↦ simp run (
      handle-IsValid decode msgs (handle_message decode msg m)
        (message-IsValid decode msg m run valid))
]
