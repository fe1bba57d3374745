-- ===== src/Tcpcl/Messages/Types.antt =====
-- pkg/cla/tcpclv4/internal/msgs: the message structs and their codes. A string is its bytes.
use dtn7_gold.Prelude.{
  ℕ, ◌^◌, ◌<◌, ◌≡◌, Bool, true, not, length, List, [], ◌∷◌, ◌==◌, ◌||◌, if◌then◌else◌,
}
use Prim.Native.String.{String}
use text.Mathlib.Text.{◌==◌ as str_eq}

-- The codes of the message headers.
abbrev pub xfer_segment : ℕ
xfer_segment = 0x01

abbrev pub xfer_ack : ℕ
xfer_ack = 0x02

abbrev pub xfer_refuse : ℕ
xfer_refuse = 0x03

abbrev pub keepalive : ℕ
keepalive = 0x04

abbrev pub sess_term : ℕ
sess_term = 0x05

abbrev pub msg_reject : ℕ
msg_reject = 0x06

abbrev pub sess_init : ℕ
sess_init = 0x07

-- The magic "dtn!" and the version.
abbrev pub contact_header_head : List ℕ
contact_header_head = 0x64 ∷ 0x74 ∷ 0x6E ∷ 0x21 ∷ 0x04 ∷ []

-- The first octet of the contact header, under which it is found like a message.
abbrev pub contact_code : ℕ
contact_code = 0x64

pub record ContactHeader : Type 0 where
  pub flags : ℕ

pub record SessionInitMessage : Type 0 where
  pub keepalive_interval : ℕ
  pub segment_mru : ℕ
  pub transfer_mru : ℕ
  pub node_id : List ℕ

pub record SessionTerminationMessage : Type 0 where
  pub flags : ℕ
  pub reason_code : ℕ

pub record DataTransmissionMessage : Type 0 where
  pub flags : ℕ
  pub transfer_id : ℕ
  pub payload : List ℕ

pub record DataAcknowledgementMessage : Type 0 where
  pub flags : ℕ
  pub transfer_id : ℕ
  pub ack_len : ℕ

pub record TransferRefusalMessage : Type 0 where
  pub reason_code : ℕ
  pub transfer_id : ℕ

pub record MessageRejectionMessage : Type 0 where
  pub reason_code : ℕ
  pub message_header : ℕ

-- The implementations of the interface `Message`.
pub data Message : Type 0 where
  contact_header : ContactHeader → Message
  session_init : SessionInitMessage → Message
  session_termination : SessionTerminationMessage → Message
  data_transmission : DataTransmissionMessage → Message
  data_acknowledgement : DataAcknowledgementMessage → Message
  transfer_refusal : TransferRefusalMessage → Message
  keepalive_message : Message
  message_rejection : MessageRejectionMessage → Message

-- `IsValid` of the reason codes; a refusal code is valid if it has a name.
unfoldable pub rejection_is_valid : ℕ → Bool
rejection_is_valid c = c == 0x01 || (c == 0x02 || c == 0x03)

unfoldable pub termination_is_valid : ℕ → Bool
termination_is_valid c =
    c == 0x00 || (c == 0x01 || (c == 0x02 || (c == 0x03 || (c == 0x04 || c == 0x05))))

unfoldable pub refusal_name : ℕ → String
refusal_name c =
    if c == 0x00
    then "Unknown"
    else if c == 0x01
    then "Completed"
    else if c == 0x02
    then "No Resources"
    else if c == 0x03
    then "Retransmit"
    else if c == 0x04
    then "Not Acceptable"
    else if c == 0x05
    then "Extension Failure"
    else if c == 0x06
    then "Session Terminating"
    else "INVALID"

unfoldable pub refusal_is_valid : ℕ → Bool
unfolding refusal_name
refusal_is_valid c = not (str_eq (refusal_name c) "INVALID")

-- The values that Go's field types can hold, and valid reason codes.
abbrev pub IsValid : Message → Type 0
IsValid (contact_header m) = m.flags < 256
IsValid (session_init m) =
    (m.keepalive_interval < 2 ^ 16)
    × (m.segment_mru < 2 ^ 64)
    × (m.transfer_mru < 2 ^ 64)
    × (length m.node_id < 2 ^ 16)
IsValid (session_termination m) = (m.flags < 256) × (termination_is_valid m.reason_code ≡ true)
IsValid (data_transmission m) =
    (m.flags < 256) × (m.transfer_id < 2 ^ 64) × (length m.payload < 2 ^ 64)
IsValid (data_acknowledgement m) = (m.flags < 256) × (m.transfer_id < 2 ^ 64) × (m.ack_len < 2 ^ 64)
IsValid (transfer_refusal m) = (m.transfer_id < 2 ^ 64) × (refusal_is_valid m.reason_code ≡ true)
IsValid keepalive_message = Unit {0}
IsValid (message_rejection m) = (m.message_header < 256) × (rejection_is_valid m.reason_code ≡ true)
