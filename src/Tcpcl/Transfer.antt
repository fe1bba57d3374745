-- ===== src/Tcpcl/Transfer.antt =====
-- pkg/cla/tcpclv4/internal/utils/transfer_out.go and transfer_in.go: a byte stream as segments.
-- The pipe behind an outgoing transfer is the list of bytes that its writer puts into it before
-- it closes it; a read from it blocks until it is full or the pipe is closed.
pub mod Segments
use dtn7_gold.Prelude.{
  ℕ, zero, suc, ◌+◌, Bool, false, true, not, bit_and, bit_or, List, [], ◌∷◌, ◌++◌, length, leb,
  ◌==◌, if◌then◌else◌,
}
use dtn7_gold.Wire
use dtn7_gold.Wire.{read_full}
use dtn7_gold.Tcpcl.Messages.Types.{DataTransmissionMessage, DataAcknowledgementMessage}

pub data Error : Type 0 where
  already_ended wrong_transfer not_finished bad_bundle : Error
  unknown_acknowledgement unknown_refusal unexpected_message : Error
  eof make_panic : Error
  -- No error of the program: the rounds given to a loop are over.
  rounds_over : Error

pub data Result {ℓ} (A : Type ℓ) : Type ℓ where
  ok : A → Result A
  err : Error → Result A

abbrev pub segment_end : ℕ
segment_end = 0x01

abbrev pub segment_start : ℕ
segment_start = 0x02

pub record OutgoingTransfer : Type 0 where
  pub id : ℕ
  pub start_flag : Bool
  pub data_stream : List ℕ

unfoldable pub new_outgoing : ℕ → List ℕ → OutgoingTransfer
new_outgoing id stream = record { id = id; start_flag = true; data_stream = stream }

abbrev pub start_flags : Bool → ℕ
start_flags start = if start then bit_or 0 segment_start else 0

-- What `io.ReadFull` has done: a full buffer, the rest of the stream, or nothing.
abbrev pub segment_of :
    ℕ → ℕ → List ℕ → Wire.Result (List ℕ × List ℕ) → Result (DataTransmissionMessage × List ℕ)
segment_of id flags stream (Wire.ok (buffer, rest)) =
    ok (record { flags = flags; transfer_id = id; payload = buffer }, rest)
segment_of id flags stream (Wire.err Wire.unexpected_eof) =
    ok (record { flags = bit_or flags segment_end; transfer_id = id; payload = stream }, [])
segment_of id flags stream (Wire.err other) = err eof

abbrev pub with_stream :
    OutgoingTransfer
    → Result (DataTransmissionMessage × List ℕ)
    → Result (DataTransmissionMessage × OutgoingTransfer)
with_stream t (ok (m, rest)) = ok (m, record t { start_flag = false; data_stream = rest })
with_stream t (err e) = err e

-- A transfer on which this fails is not used again, so its state is not returned.
unfoldable pub next_segment :
    ℕ → ℕ → OutgoingTransfer → Result (DataTransmissionMessage × OutgoingTransfer)
next_segment max_alloc mtu t =
    if leb mtu max_alloc
    then with_stream t
        (segment_of t.id (start_flags t.start_flag) t.data_stream (read_full mtu t.data_stream))
    else err make_panic

-- The sending goroutine of `TransferManager.Send` with a bound on its rounds: the segments it
-- has put into `msgOut`, and the length or the error that it reports.
unfoldable pub send_segments :
    ℕ → ℕ → ℕ → ℕ → OutgoingTransfer → List DataTransmissionMessage × Result ℕ
send_segments zero max_alloc mtu l t = ([], err rounds_over)
send_segments (suc rounds) max_alloc mtu l t = elim (next_segment max_alloc mtu t) [
  | ok (m, t') ↦
      let rest = send_segments rounds max_alloc mtu (l + length m.payload) t' in
      (m ∷ rest.0, rest.1)
  | err eof ↦ ([], ok l)
  | err e ↦ ([], err e)
]

pub record IncomingTransfer : Type 0 where
  pub id : ℕ
  pub end_flag : Bool
  pub buf : List ℕ

unfoldable pub new_incoming : ℕ → IncomingTransfer
new_incoming id = record { id = id; end_flag = false; buf = [] }

abbrev pub is_end : ℕ → Bool
is_end flags = not (bit_and flags segment_end == 0)

-- A segment that is refused changes nothing.
unfoldable pub receive_segment :
    IncomingTransfer
    → DataTransmissionMessage
    → Result (DataAcknowledgementMessage × IncomingTransfer)
receive_segment t m =
    if t.end_flag
    then err already_ended
    else if not (t.id == m.transfer_id)
    then err wrong_transfer
    else let buf = t.buf ++ m.payload in
      ok (
        record { flags = m.flags; transfer_id = m.transfer_id; ack_len = length buf },
        record t { buf = buf; end_flag = is_end m.flags },
      )
