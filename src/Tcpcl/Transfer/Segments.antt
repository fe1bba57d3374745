-- ===== src/Tcpcl/Transfer/Segments.antt =====
-- One segment of a transfer: sent, and received.
use dtn7_gold.Prelude.{
  bit_or, ℕ, suc, ◌+◌, ◌≤◌, ◌<◌, ◌≡◌, refl, Bool, false, true, List, [], ◌∷◌, ◌++◌, length, take,
  drop, le→leb, lt→leb, ==_self,
}
use dtn7_gold.Wire.{read_full}
use dtn7_gold.Tcpcl.Messages.Types.{DataTransmissionMessage}
use dtn7_gold.Tcpcl.Transfer.{
  Result, ok, err, eof, OutgoingTransfer, start_flags, next_segment, send_segments,
  IncomingTransfer, is_end, receive_segment, segment_end,
}

abbrev pub out : ℕ → Bool → List ℕ → OutgoingTransfer
out id start stream = record { id = id; start_flag = start; data_stream = stream }

abbrev pub message : ℕ → ℕ → List ℕ → DataTransmissionMessage
message id flags payload = record { flags = flags; transfer_id = id; payload = payload }

-- The flags of a last segment.
abbrev pub end_flags : Bool → ℕ
end_flags start = bit_or (start_flags start) segment_end

module _ (max_alloc mtu id : ℕ) (start : Bool) (can_alloc : mtu ≤ max_alloc) where
  pub next-empty : 0 < mtu → next_segment max_alloc mtu (out id start []) ≡ err eof
  unfolding next_segment read_full
  next-empty h = rw (le→leb mtu max_alloc can_alloc, lt→leb 0 mtu h)

  pub next-short :
      (x : ℕ) (xs : List ℕ)
      → length (x ∷ xs) < mtu
      → next_segment max_alloc mtu (out id start (x ∷ xs))
        ≡ ok (message id (end_flags start) (x ∷ xs), out id false [])
  unfolding next_segment read_full
  next-short x xs h = rw (le→leb mtu max_alloc can_alloc, lt→leb (suc (length xs)) mtu h)

  pub next-full :
      (stream : List ℕ)
      → mtu ≤ length stream
      → next_segment max_alloc mtu (out id start stream)
        ≡ ok (message id (start_flags start) (take mtu stream), out id false (drop mtu stream))
  unfolding next_segment read_full
  next-full stream h = rw (le→leb mtu max_alloc can_alloc, le→leb mtu (length stream) h)

pub is_end-start : (start : Bool) → is_end (start_flags start) ≡ false
is_end-start true = refl
is_end-start false = refl

pub is_end-end : (start : Bool) → is_end (end_flags start) ≡ true
is_end-end true = refl
is_end-end false = refl

abbrev pub incoming : ℕ → List ℕ → Bool → IncomingTransfer
incoming id buf end = record { id = id; end_flag = end; buf = buf }

module _ (id flags : ℕ) (buf payload : List ℕ) where
  pub receive_lem :
      receive_segment (incoming id buf false) (message id flags payload)
      ≡ ok (
        record { flags = flags; transfer_id = id; ack_len = length (buf ++ payload) },
        incoming id (buf ++ payload) (is_end flags),
      )
  unfolding receive_segment
  receive_lem = rw (==_self id)

module _ (max_alloc mtu id : ℕ) (start : Bool) (can_alloc : mtu ≤ max_alloc) (rounds l : ℕ) where
  pub send-eof : 0 < mtu → send_segments (suc rounds) max_alloc mtu l (out id start []) ≡ ([], ok l)
  unfolding send_segments
  send-eof h = rw (next-empty max_alloc mtu id start can_alloc h, send_segments)

  abbrev pub rest_sent : Bool → List ℕ → List ℕ → List DataTransmissionMessage × Result ℕ
  rest_sent again payload rest =
      send_segments rounds max_alloc mtu (l + length payload) (out id again rest)

  pub send-short :
      (x : ℕ) (xs : List ℕ)
      → length (x ∷ xs) < mtu
      → send_segments (suc rounds) max_alloc mtu l (out id start (x ∷ xs)) ≡ (
        message id (end_flags start) (x ∷ xs) ∷ (rest_sent false (x ∷ xs) []).0,
        (rest_sent false (x ∷ xs) []).1,
      )
  unfolding send_segments
  send-short x xs h = rw (next-short max_alloc mtu id start can_alloc x xs h, send_segments)

  pub send-full :
      (stream : List ℕ)
      → mtu ≤ length stream
      → send_segments (suc rounds) max_alloc mtu l (out id start stream) ≡ (
        message id (start_flags start) (take mtu stream)
            ∷ (rest_sent false (take mtu stream) (drop mtu stream)).0,
        (rest_sent false (take mtu stream) (drop mtu stream)).1,
      )
  unfolding send_segments
  send-full stream h = rw (next-full max_alloc mtu id start can_alloc stream h, send_segments)
