-- ===== src/Tcpcl/Messages/RoundTrip.antt =====
-- Every message that is marshalled is read back, whatever follows it.
pub mod Fields
use dtn7_gold.Prelude.{
  sym, ap, drop, ℕ, suc, ◌%◌, ◌^◌, ◌≤◌, ◌<◌, ◌≡◌, refl, ◌∙◌, Bool, true, false, List, [], ◌∷◌, ◌++◌,
  append_assoc, append-nil, arith, length, length-append, leb, lt→ltb, le→leb, ◌==◌, Bool-cases,
  inl, inr, leb→le, leb-false→lt,
}
use dtn7_gold.Prelude.Bytes.{equal_self}
use dtn7_gold.Wire.{
  Error, ok, Reader, ◌>>=◌, pure, guard, read_full, put_uint, read_uint, read_struct,
}
use native.Mathlib.Nat.{mod-eq_of_lt}
use dtn7_gold.Wire.Laws.{
  guard_bind, bind_step, read_uint-put, read_full-append, length-put_uint, read_struct-append,
}
use dtn7_gold.Tcpcl.Messages.Types.{
  sess_init, sess_term, xfer_segment, xfer_ack, xfer_refuse, keepalive, msg_reject, IsValid,
  contact_header_head, ContactHeader, SessionInitMessage, SessionTerminationMessage,
  DataTransmissionMessage, DataAcknowledgementMessage, TransferRefusalMessage,
  MessageRejectionMessage, Message, contact_header, session_init, session_termination,
  data_transmission, data_acknowledgement, transfer_refusal, keepalive_message, message_rejection,
  rejection_is_valid, termination_is_valid, refusal_is_valid, refusal_name,
}
use dtn7_gold.Tcpcl.Messages.Codec.{
  read_header, marshal_contact, unmarshal_contact, marshal_keepalive, unmarshal_keepalive,
  rejection_bytes, rejection_fields, marshal_rejection, unmarshal_rejection, marshal_init,
  unmarshal_init, skip_items, marshal_termination, unmarshal_termination, ack_bytes, ack_fields,
  marshal_ack, unmarshal_ack, refusal_bytes, refusal_fields, marshal_refusal, unmarshal_refusal,
  marshal_segment, make_bytes, read_payload, unmarshal_segment, marshal, message_reader,
  read_message,
}
use dtn7_gold.Tcpcl.Messages.RoundTrip.Fields.{
  uint_bind, header-read, header_bind, full_bind, rejection-lt, termination-lt, refusal-lt,
  skip_bind, payload_bind,
}

init :
    (m : SessionInitMessage) (rest : List ℕ)
    → IsValid (session_init m)
    → unmarshal_init (marshal_init m ++ rest) ≡ ok (m, rest)
unfolding unmarshal_init marshal_init pure
init m rest h = simp (append_assoc) (
    rw (header_bind sess_init _ _ (omega arith)) (
      simp (uint_bind) (
        rw (full_bind (length m.node_id % 2 ^ 16 % 2 ^ 16) m.node_id _ _ (omega (arith, h.3))) (
          simp (uint_bind) (
            rw (skip_bind)
              (ground (arith, mod-eq_of_lt h.0, mod-eq_of_lt h.1, mod-eq_of_lt h.2)))))))

termination :
    (m : SessionTerminationMessage) (rest : List ℕ)
    → IsValid (session_termination m)
    → unmarshal_termination (marshal_termination m ++ rest) ≡ ok (m, rest)
unfolding unmarshal_termination marshal_termination pure
termination m rest h = simp (append_assoc) (
    rw (header_bind sess_term _ _ (omega arith)) (
      simp (uint_bind)
        (rw (mod-eq_of_lt h.0, mod-eq_of_lt (termination-lt _ h.1), guard_bind _ _ _ _ h.1))))

ack_fields-bytes :
    (m : DataAcknowledgementMessage)
    → IsValid (data_acknowledgement m)
    → ack_fields (ack_bytes m ++ []) ≡ ok (m, [])
unfolding ack_fields ack_bytes pure
ack_fields-bytes m h =
    simp (append_assoc, uint_bind) (rw (mod-eq_of_lt h.0, mod-eq_of_lt h.1, mod-eq_of_lt h.2))

length-ack_bytes : (m : DataAcknowledgementMessage) → length (ack_bytes m) ≡ 17
unfolding ack_bytes
length-ack_bytes m = simp (length-append, length-put_uint)

ack :
    (m : DataAcknowledgementMessage) (rest : List ℕ)
    → IsValid (data_acknowledgement m)
    → unmarshal_ack (marshal_ack m ++ rest) ≡ ok (m, rest)
unfolding unmarshal_ack marshal_ack
ack m rest h =
    rw (append_assoc, header_bind xfer_ack _ _ (omega arith))
      (read_struct-append ack_fields 17 (ack_bytes m) rest m (length-ack_bytes m)
        (rw append-nil at (ack_fields-bytes m h)))

refusal_fields-bytes :
    (m : TransferRefusalMessage)
    → IsValid (transfer_refusal m)
    → refusal_fields (refusal_bytes m ++ []) ≡ ok (m, [])
unfolding refusal_fields refusal_bytes pure
refusal_fields-bytes m h =
    simp (append_assoc, uint_bind) (rw (mod-eq_of_lt h.0, mod-eq_of_lt (refusal-lt _ h.1)))

length-refusal_bytes : (m : TransferRefusalMessage) → length (refusal_bytes m) ≡ 9
unfolding refusal_bytes
length-refusal_bytes m = simp (length-append, length-put_uint)

refusal :
    (m : TransferRefusalMessage) (rest : List ℕ)
    → IsValid (transfer_refusal m)
    → unmarshal_refusal (marshal_refusal m ++ rest) ≡ ok (m, rest)
unfolding unmarshal_refusal marshal_refusal pure
refusal m rest h = rw (
  append_assoc,
  header_bind xfer_refuse _ _ (omega arith),
  bind_step (read_struct 9 refusal_fields) _ _ m rest (
      read_struct-append refusal_fields 9 (refusal_bytes m) rest m (length-refusal_bytes m)
        (rw append-nil at (refusal_fields-bytes m h))),
  guard_bind _ _ _ _ h.1,
)

rejection_fields-bytes :
    (m : MessageRejectionMessage)
    → IsValid (message_rejection m)
    → rejection_fields (rejection_bytes m ++ []) ≡ ok (m, [])
unfolding rejection_fields rejection_bytes pure
rejection_fields-bytes m h =
    simp (append_assoc, uint_bind) (rw (mod-eq_of_lt h.0, mod-eq_of_lt (rejection-lt _ h.1)))

length-rejection_bytes : (m : MessageRejectionMessage) → length (rejection_bytes m) ≡ 2
unfolding rejection_bytes
length-rejection_bytes m = simp (length-append, length-put_uint)

rejection :
    (m : MessageRejectionMessage) (rest : List ℕ)
    → IsValid (message_rejection m)
    → unmarshal_rejection (marshal_rejection m ++ rest) ≡ ok (m, rest)
unfolding unmarshal_rejection marshal_rejection pure
rejection m rest h = rw (
  append_assoc,
  header_bind msg_reject _ _ (omega arith),
  bind_step (read_struct 2 rejection_fields) _ _ m rest (
      read_struct-append rejection_fields 2 (rejection_bytes m) rest m (length-rejection_bytes m)
        (rw append-nil at (rejection_fields-bytes m h))),
  guard_bind _ _ _ _ h.1,
)

segment :
    (max_alloc : ℕ) (m : DataTransmissionMessage) (rest : List ℕ)
    → IsValid (data_transmission m)
    → length m.payload ≤ max_alloc
    → unmarshal_segment max_alloc (marshal_segment m ++ rest) ≡ ok (m, rest)
unfolding unmarshal_segment marshal_segment pure
segment max_alloc m rest h fits = simp (append_assoc) (
    rw (header_bind xfer_segment _ _ (omega arith)) (
      simp (uint_bind) (
        rw (skip_bind) (
          simp (uint_bind) (
            rw (
              mod-eq_of_lt h.0,
              mod-eq_of_lt h.1,
              mod-eq_of_lt h.2,
              mod-eq_of_lt h.2,
              payload_bind max_alloc m.payload _ rest fits,
            ))))))

contact :
    (m : ContactHeader) (rest : List ℕ)
    → IsValid (contact_header m)
    → unmarshal_contact (marshal_contact m ++ rest) ≡ ok (m, rest)
unfolding unmarshal_contact marshal_contact pure
contact m rest h =
    rw
      (
        full_bind 6 (contact_header_head ++ put_uint 1 m.flags) _ rest (simp length-put_uint),
        guard_bind _ _ _ rest (equal_self contact_header_head),
      )
      (unfold put_uint in rw (mod-eq_of_lt h))

keep : (rest : List ℕ) → unmarshal_keepalive (marshal_keepalive ++ rest) ≡ ok (tt, rest)
unfolding unmarshal_keepalive marshal_keepalive
keep rest = header-read keepalive rest (omega arith)

-- The runtime can make the buffer of a segment's payload.
abbrev pub AllocationFits : ℕ → Message → Type 0
AllocationFits max_alloc (data_transmission m) = length m.payload ≤ max_alloc
AllocationFits max_alloc _ = Unit {0}

read_message_at :
    (max_alloc code : ℕ) (bs : List ℕ)
    → read_message max_alloc (put_uint 1 code ++ bs)
      ≡ message_reader max_alloc (code % 256) (put_uint 1 code ++ bs)
unfolding read_message put_uint
read_message_at max_alloc code bs = refl

read_as :
    {A : Type 0} (max_alloc code : ℕ) (bytes : List ℕ) (r : Reader A) (wrap : A → Message) (a : A)
    (rest : List ℕ)
    → message_reader max_alloc (code % 256) ≡ (r >>= λ m. pure (wrap m))
    → bytes ≡ put_uint 1 code ++ drop 1 bytes
    → r bytes ≡ ok (a, rest)
    → read_message max_alloc bytes ≡ ok (wrap a, rest)
read_as max_alloc code bytes r wrap a rest e split h =
    ap (read_message max_alloc) split
    ∙ read_message_at max_alloc code (drop 1 bytes)
    ∙ ap (λ bs. message_reader max_alloc (code % 256) bs) (sym split)
    ∙ (rw e (bind_step r _ bytes a rest h ∙ unfold pure in refl))

-- Every message whose fields fit their Go types and whose reason code is valid, and whose payload can
-- be allocated if it is a segment, is read back from its own bytes with whatever follows them left
-- unread: `ReadMessage` finds the type by the first byte and the fields exactly.
pub read_message-marshal :
    (max_alloc : ℕ) (m : Message) (rest : List ℕ)
    → IsValid m
    → AllocationFits max_alloc m
    → read_message max_alloc (marshal m ++ rest) ≡ ok (m, rest)
unfolding marshal put_uint read_message message_reader marshal_init marshal_termination
    marshal_segment marshal_ack marshal_refusal marshal_keepalive marshal_rejection marshal_contact
read_message-marshal max_alloc (session_init m) rest h fits =
    read_as max_alloc sess_init _ unmarshal_init session_init m rest refl refl (init m rest h)
read_message-marshal max_alloc (session_termination m) rest h fits =
    read_as max_alloc sess_term _ unmarshal_termination session_termination m rest refl refl
      (termination m rest h)
read_message-marshal max_alloc (data_transmission m) rest h fits =
    read_as max_alloc xfer_segment _ (unmarshal_segment max_alloc) data_transmission m rest refl
      refl (segment max_alloc m rest h fits)
read_message-marshal max_alloc (data_acknowledgement m) rest h fits =
    read_as max_alloc xfer_ack _ unmarshal_ack data_acknowledgement m rest refl refl (ack m rest h)
read_message-marshal max_alloc (transfer_refusal m) rest h fits =
    read_as max_alloc xfer_refuse _ unmarshal_refusal transfer_refusal m rest refl refl
      (refusal m rest h)
read_message-marshal max_alloc (message_rejection m) rest h fits =
    read_as max_alloc msg_reject _ unmarshal_rejection message_rejection m rest refl refl
      (rejection m rest h)
read_message-marshal max_alloc keepalive_message rest h fits =
    read_as max_alloc keepalive _ unmarshal_keepalive (λ _. keepalive_message) tt rest refl refl
      (keep rest)
read_message-marshal max_alloc (contact_header m) rest h fits =
    bind_step unmarshal_contact _ _ m rest (contact m rest h) ∙ (unfold pure in refl)
