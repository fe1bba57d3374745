-- ===== src/Tcpcl/Manager/Steps.antt =====
-- One segment of a transfer that a manager handles.
use dtn7_gold.Prelude.{
  ℕ, ◌≡◌, refl, ◌∙◌, Bool, false, true, Option, none, some, List, [], ◌∷◌, ◌++◌, append_assoc,
  length, ◌==◌, ==_self, if◌then◌else◌,
}
use dtn7_gold.Prelude.Maps.{update}
use dtn7_gold.Tcpcl.Messages.Types.{Message, data_transmission, data_acknowledgement}
use dtn7_gold.Tcpcl.Transfer.{IncomingTransfer, is_end}
use dtn7_gold.Tcpcl.Transfer.Segments.{message, incoming, receive_lem}
use dtn7_gold.Tcpcl.Manager.{Manager, load_or_new, deliver, handle_message, handle}

-- The length that the last acknowledgement among some messages carries, or a default.
unfoldable pub last_ack : ℕ → List Message → ℕ
last_ack d [] = d
last_ack d (data_acknowledgement a ∷ ms) = last_ack a.ack_len ms
last_ack d (other ∷ ms) = last_ack d ms

-- What segments of the transfer `id` with the bytes `data` have done: after the last one of a
-- transfer that `ends` the bundle `b` is delivered, else `left` is what the map has.
pub record Outcome {ℓ} {B : Type ℓ} (id : ℕ) (b : B) (ends : Bool) (left : Option IncomingTransfer)
    (m m' : Manager B) : Type ℓ where
  pub bundles : m'.bundles ≡ (if ends then m.bundles ++ b ∷ [] else m.bundles)
  pub transfer : m'.in_transfers id ≡ (if ends then none else left)
  pub others : (j : ℕ) → (id == j) ≡ false → m'.in_transfers j ≡ m.in_transfers j
  pub errors : m'.errors ≡ m.errors
  pub running : m'.stopped ≡ false
  pub feedback : m'.out_feedback ≡ m.out_feedback

-- From `acked` bytes on, the acknowledgements that were sent reach `total`.
abbrev pub Acked {ℓ} : {B : Type ℓ} → ℕ → ℕ → Manager B → Manager B → Type 0
Acked acked total m m' =
    (acks : List Message) × (m'.msg_out ≡ m.msg_out ++ acks) × (last_ack acked acks ≡ total)

module _ {ℓ} {B : Type ℓ} (decode : List ℕ → Option B) (id flags : ℕ) (acc p : List ℕ)
    (m : Manager B) where
  unfoldable pub acked : Manager B
  acked = record m {
    msg_out =
        m.msg_out
        ++ data_acknowledgement
            (record { flags = flags; transfer_id = id; ack_len = length (acc ++ p) })
          ∷ [];
    in_transfers = update m.in_transfers id (some (incoming id (acc ++ p) (is_end flags)));
  }

  module _ (known : load_or_new id (m.in_transfers id) ≡ incoming id acc false) where
    pub handle-middle :
        is_end flags ≡ false
        → handle_message decode (data_transmission (message id flags p)) m ≡ acked
    unfolding handle_message acked
    handle-middle e = rw (known, receive_lem id flags acc p, e)

    pub handle-end :
        is_end flags ≡ true
        → handle_message decode (data_transmission (message id flags p)) m
          ≡ deliver id (decode (acc ++ p)) acked
    unfolding handle_message acked
    handle-end e = rw (known, receive_lem id flags acc p, e)

  pub Outcome-end :
      (b : B) (left : Option IncomingTransfer)
      → decode (acc ++ p) ≡ some b
      → m.stopped ≡ false
      → Outcome id b true left m (deliver id (decode (acc ++ p)) acked)
  unfolding deliver acked
  Outcome-end b left e run = rw e (record {
    bundles = refl;
    transfer = rw (==_self id);
    others = λ j h. rw h;
    errors = refl;
    running = run;
    feedback = refl;
  })

  pub Acked-end :
      (b : B)
      → decode (acc ++ p) ≡ some b
      → Acked (length acc) (length (acc ++ p)) m (deliver id (decode (acc ++ p)) acked)
  unfolding deliver acked last_ack
  Acked-end b e = rw e (_, refl, refl)

  -- After a segment that does not end the transfer.
  pub acked-transfer :
      is_end flags ≡ false → acked.in_transfers id ≡ some (incoming id (acc ++ p) false)
  unfolding acked
  acked-transfer e = rw (==_self id, e)

  pub acked-running : m.stopped ≡ false → acked.stopped ≡ false
  unfolding acked
  acked-running h = h

  pub Outcome-acked :
      (b : B) (ends : Bool) (left : Option IncomingTransfer) (m' : Manager B)
      → Outcome id b ends left acked m'
      → Outcome id b ends left m m'
  unfolding acked
  Outcome-acked b ends left m' h = record {
    bundles = h.bundles;
    transfer = h.transfer;
    others = λ j e. h.others j e ∙ rw e;
    errors = h.errors;
    running = h.running;
    feedback = h.feedback;
  }

  pub Acked-acked :
      (total : ℕ) (m' : Manager B)
      → Acked (length (acc ++ p)) total acked m'
      → Acked (length acc) total m m'
  unfolding acked last_ack
  Acked-acked total m' h = (_ ∷ h.0, h.1 ∙ append_assoc m.msg_out (_ ∷ []) h.0, h.2)

pub Outcome-none {ℓ} :
    {B : Type ℓ} (id : ℕ) (b : B) (m : Manager B)
    → m.stopped ≡ false
    → Outcome id b false (m.in_transfers id) m m
Outcome-none id b m run = record {
  bundles = refl;
  transfer = refl;
  others = λ j h. refl;
  errors = refl;
  running = run;
  feedback = refl;
}

pub handle-cons {ℓ} :
    {B : Type ℓ} (decode : List ℕ → Option B) (msg : Message) (msgs : List Message) (m : Manager B)
    → m.stopped ≡ false
    → handle decode (msg ∷ msgs) m ≡ handle decode msgs (handle_message decode msg m)
unfolding handle
handle-cons decode msg msgs m h = rw h

pub handle-nil {ℓ} :
    {B : Type ℓ} (decode : List ℕ → Option B) (m : Manager B) → handle decode [] m ≡ m
unfolding handle
handle-nil decode m = refl
