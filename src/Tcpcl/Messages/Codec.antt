-- ===== src/Tcpcl/Messages/Codec.antt =====
-- pkg/cla/tcpclv4/internal/msgs: `Marshal` and `Unmarshal` of each message, and `ReadMessage`.
-- A writer never fails here: what is marshalled is the list of the bytes written.
use dtn7_gold.Prelude.{
  ℕ, ◌%◌, ◌^◌, List, [], ◌∷◌, ◌++◌, length, take, get_or, leb, ltb, ◌==◌, if◌then◌else◌,
}
use dtn7_gold.Prelude.Bytes.{equal}
use dtn7_gold.Wire.{
  err, eof, wrong_header, wrong_magic, invalid_reason, unknown_type, make_panic, Reader, ◌>>=◌,
  ◌>>◌, pure, guard, read_full, put_uint, read_uint, read_struct,
}
use dtn7_gold.Tcpcl.Messages.Types.{
  xfer_segment, xfer_ack, xfer_refuse, keepalive, sess_term, msg_reject, sess_init,
  contact_header_head, contact_code, ContactHeader, SessionInitMessage, SessionTerminationMessage,
  DataTransmissionMessage, DataAcknowledgementMessage, TransferRefusalMessage,
  MessageRejectionMessage, Message, contact_header, session_init, session_termination,
  data_transmission, data_acknowledgement, transfer_refusal, keepalive_message, message_rejection,
  rejection_is_valid, termination_is_valid, refusal_is_valid,
}

-- Every message but the contact header begins with its code.
unfoldable pub read_header : ℕ → Reader (Unit {0})
read_header code = do header ← read_uint 1; guard (header == code) wrong_header

unfoldable pub marshal_contact : ContactHeader → List ℕ
marshal_contact m = contact_header_head ++ put_uint 1 m.flags

-- The sixth byte exists, as six were read.
unfoldable pub unmarshal_contact : Reader ContactHeader
unmarshal_contact = do
  buffer ← read_full 6
  guard (equal (take 5 buffer) contact_header_head) wrong_magic
  pure (record { flags = get_or buffer 5 0 })

unfoldable pub marshal_keepalive : List ℕ
marshal_keepalive = put_uint 1 keepalive

unfoldable pub unmarshal_keepalive : Reader (Unit {0})
unfolding read_header
unmarshal_keepalive = read_header keepalive

-- `binary.Write` of a struct writes its fields in order.
unfoldable pub rejection_bytes : MessageRejectionMessage → List ℕ
rejection_bytes m = put_uint 1 m.reason_code ++ put_uint 1 m.message_header

unfoldable pub marshal_rejection : MessageRejectionMessage → List ℕ
marshal_rejection m = put_uint 1 msg_reject ++ rejection_bytes m

unfoldable pub rejection_fields : Reader MessageRejectionMessage
rejection_fields = do
  reason ← read_uint 1
  header ← read_uint 1
  pure (record { reason_code = reason; message_header = header })

unfoldable pub unmarshal_rejection : Reader MessageRejectionMessage
unmarshal_rejection = do
  read_header msg_reject
  m ← read_struct 2 rejection_fields
  guard (rejection_is_valid m.reason_code) invalid_reason
  pure m

-- The length of the node ID is cut to 16 bits; no session extension items are written.
unfoldable pub marshal_init : SessionInitMessage → List ℕ
marshal_init m =
    put_uint 1 sess_init
    ++ (put_uint 2 m.keepalive_interval
        ++ (put_uint 8 m.segment_mru
            ++ (put_uint 8 m.transfer_mru
                ++ (put_uint 2 (length m.node_id % 2 ^ 16) ++ (m.node_id ++ put_uint 4 0)))))

-- Session extension items are read and dropped.
unfoldable pub skip_items : ℕ → Reader (Unit {0})
skip_items n = if ltb 0 n then (do items ← read_full n; pure tt) else pure tt

unfoldable pub unmarshal_init : Reader SessionInitMessage
unmarshal_init = do
  read_header sess_init
  interval ← read_uint 2
  segment ← read_uint 8
  transfer ← read_uint 8
  node_id_len ← read_uint 2
  node_id ← read_full node_id_len
  session_exts_len ← read_uint 4
  skip_items session_exts_len
  pure (record {
    keepalive_interval = interval;
    segment_mru = segment;
    transfer_mru = transfer;
    node_id = node_id;
  })

unfoldable pub marshal_termination : SessionTerminationMessage → List ℕ
marshal_termination m = put_uint 1 sess_term ++ (put_uint 1 m.flags ++ put_uint 1 m.reason_code)

unfoldable pub unmarshal_termination : Reader SessionTerminationMessage
unmarshal_termination = do
  read_header sess_term
  flags ← read_uint 1
  reason ← read_uint 1
  guard (termination_is_valid reason) invalid_reason
  pure (record { flags = flags; reason_code = reason })

unfoldable pub ack_bytes : DataAcknowledgementMessage → List ℕ
ack_bytes m = put_uint 1 m.flags ++ (put_uint 8 m.transfer_id ++ put_uint 8 m.ack_len)

unfoldable pub marshal_ack : DataAcknowledgementMessage → List ℕ
marshal_ack m = put_uint 1 xfer_ack ++ ack_bytes m

unfoldable pub ack_fields : Reader DataAcknowledgementMessage
ack_fields = do
  flags ← read_uint 1
  tid ← read_uint 8
  len ← read_uint 8
  pure (record { flags = flags; transfer_id = tid; ack_len = len })

unfoldable pub unmarshal_ack : Reader DataAcknowledgementMessage
unmarshal_ack = do read_header xfer_ack; read_struct 17 ack_fields

unfoldable pub refusal_bytes : TransferRefusalMessage → List ℕ
refusal_bytes m = put_uint 1 m.reason_code ++ put_uint 8 m.transfer_id

unfoldable pub marshal_refusal : TransferRefusalMessage → List ℕ
marshal_refusal m = put_uint 1 xfer_refuse ++ refusal_bytes m

unfoldable pub refusal_fields : Reader TransferRefusalMessage
refusal_fields = do
  reason ← read_uint 1
  tid ← read_uint 8
  pure (record { reason_code = reason; transfer_id = tid })

unfoldable pub unmarshal_refusal : Reader TransferRefusalMessage
unmarshal_refusal = do
  read_header xfer_refuse
  m ← read_struct 9 refusal_fields
  guard (refusal_is_valid m.reason_code) invalid_reason
  pure m

unfoldable pub marshal_segment : DataTransmissionMessage → List ℕ
marshal_segment m =
    put_uint 1 xfer_segment
    ++ (put_uint 1 m.flags
        ++ (put_uint 8 m.transfer_id
            ++ (put_uint 4 0 ++ (put_uint 8 (length m.payload % 2 ^ 64) ++ m.payload))))

-- `make([]byte, n)`, which panics above what the runtime allows.
unfoldable pub make_bytes : ℕ → ℕ → Reader (Unit {0})
make_bytes max_alloc n = guard (leb n max_alloc) make_panic

unfoldable pub read_payload : ℕ → ℕ → Reader (List ℕ)
read_payload max_alloc n = if ltb 0 n then (do make_bytes max_alloc n; read_full n) else pure []

unfoldable pub unmarshal_segment : ℕ → Reader DataTransmissionMessage
unmarshal_segment max_alloc = do
  read_header xfer_segment
  flags ← read_uint 1
  tid ← read_uint 8
  transfer_ext_len ← read_uint 4
  skip_items transfer_ext_len
  data_len ← read_uint 8
  payload ← read_payload max_alloc data_len
  pure (record { flags = flags; transfer_id = tid; payload = payload })

unfoldable pub marshal : Message → List ℕ
marshal (contact_header m) = marshal_contact m
marshal (session_init m) = marshal_init m
marshal (session_termination m) = marshal_termination m
marshal (data_transmission m) = marshal_segment m
marshal (data_acknowledgement m) = marshal_ack m
marshal (transfer_refusal m) = marshal_refusal m
marshal keepalive_message = marshal_keepalive
marshal (message_rejection m) = marshal_rejection m

-- The map `messages`, with the reader of the type that a code stands for.
unfoldable pub message_reader : ℕ → ℕ → Reader Message
message_reader max_alloc code =
    if code == sess_init
    then (do m ← unmarshal_init; pure (session_init m))
    else if code == sess_term
    then (do m ← unmarshal_termination; pure (session_termination m))
    else if code == xfer_segment
    then (do m ← unmarshal_segment max_alloc; pure (data_transmission m))
    else if code == xfer_ack
    then (do m ← unmarshal_ack; pure (data_acknowledgement m))
    else if code == xfer_refuse
    then (do m ← unmarshal_refusal; pure (transfer_refusal m))
    else if code == keepalive
    then (do unmarshal_keepalive; pure keepalive_message)
    else if code == msg_reject
    then (do m ← unmarshal_rejection; pure (message_rejection m))
    else if code == contact_code
    then (do m ← unmarshal_contact; pure (contact_header m))
    else λ bs. err unknown_type

-- The first byte is looked at and then read again by the message's own reader.
unfoldable pub read_message : ℕ → Reader Message
read_message max_alloc [] = err eof
read_message max_alloc (code ∷ bs) = message_reader max_alloc code (code ∷ bs)
