-- ===== src/Bbc/Transmission.antt =====
-- pkg/cla/bbc/transmission.go: a payload cut into fragments, and put together again.
-- The xz compression and the bundle codec around the payload are not part of this module.
use dtn7_gold.Prelude.{
  ℕ, Bool, true, false, not, List, [], ◌∷◌, ◌++◌, length, take, drop, leb, ◌==◌, if◌then◌else◌,
}
use dtn7_gold.Prelude.Int.{ℤ, pos, negsuc, ◌-ℤ◌}
use dtn7_gold.Bbc.Fragment.{
  Fragment, fragment_identifier_size, new_fragment, sequence_number, start_bit, end_bit,
  next_sequence_number,
}

pub data Error : Type 0 where
  no_start_bit already_finished wrong_transmission wrong_sequence second_start : Error
  -- A slice expression with a negative bound panics.
  slice_panic : Error
  -- No error of the program: the schedule of a loop is over before the loop is.
  schedule_over : Error
  peer_failure : Error

pub data Result {ℓ} (A : Type ℓ) : Type ℓ where
  ok : A → Result A
  err : Error → Result A

pub record IncomingTransmission : Type 0 where
  pub transmission_id : ℕ
  pub payload : List ℕ
  pub finished : Bool
  pub prev_sequence_no : ℕ

unfoldable pub new_incoming : Fragment → Result IncomingTransmission
new_incoming f =
    if not (start_bit f)
    then err no_start_bit
    else ok (record {
      transmission_id = f.transmission_id;
      payload = f.payload;
      finished = end_bit f;
      prev_sequence_no = sequence_number f;
    })

-- On an error the transmission stays as it was.
unfoldable pub read_fragment : IncomingTransmission → Fragment → Result IncomingTransmission
read_fragment t f =
    if t.finished
    then err already_finished
    else if not (f.transmission_id == t.transmission_id)
    then err wrong_transmission
    else if not (sequence_number f == next_sequence_number t.prev_sequence_no)
    then err wrong_sequence
    else if start_bit f
    then err second_start
    else ok (record t {
      payload = t.payload ++ f.payload;
      finished = end_bit f;
      prev_sequence_no = sequence_number f;
    })

pub record OutgoingTransmission : Type 0 where
  pub transmission_id : ℕ
  pub payload : List ℕ
  pub finished : Bool
  pub mtu : ℤ
  pub start : Bool
  pub next_segment_no : ℕ

abbrev pub is_empty : List ℕ → Bool
is_empty [] = true
is_empty (x ∷ xs) = false

unfoldable pub new_plain_outgoing : ℕ → List ℕ → ℤ → OutgoingTransmission
unfolding ◌-ℤ◌
new_plain_outgoing tid payload mtu = record {
  transmission_id = tid;
  payload = payload;
  finished = is_empty payload;
  mtu = mtu -ℤ pos fragment_identifier_size;
  start = true;
  next_segment_no = 0;
}

-- The fragment with the rest of the payload, which ends the transmission.
abbrev pub write_last : OutgoingTransmission → Fragment × OutgoingTransmission
write_last t =
    let seq = next_sequence_number t.next_segment_no in
    (
      new_fragment t.transmission_id seq t.start true false t.payload,
      record t { payload = []; finished = true; start = false; next_segment_no = seq },
    )

-- A fragment with the first `n` bytes.
abbrev pub write_part : ℕ → OutgoingTransmission → Fragment × OutgoingTransmission
write_part n t =
    let seq = next_sequence_number t.next_segment_no in
    (
      new_fragment t.transmission_id seq t.start t.finished false (take n t.payload),
      record t { payload = drop n t.payload; start = false; next_segment_no = seq },
    )

-- No length is at most a negative number, and a negative slice bound panics.
abbrev pub write_within : ℤ → OutgoingTransmission → Result (Fragment × OutgoingTransmission)
write_within (pos n) t = ok (if leb (length t.payload) n then write_last t else write_part n t)
write_within (negsuc n) t = err slice_panic

unfoldable pub write_fragment : OutgoingTransmission → Result (Fragment × OutgoingTransmission)
write_fragment t = if t.finished then err already_finished else write_within t.mtu t
