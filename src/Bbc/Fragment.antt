-- ===== src/Bbc/Fragment.antt =====
-- pkg/cla/bbc/transmission_fragment.go: the two header bytes and the payload of a fragment.
-- A byte is a number below 256; the byte operations `|`, `&` are the native `bit_or`, `bit_and`.
pub mod Header
use dtn7_gold.Prelude.{
  ℕ, ◌+◌, ◌*◌, ◌/◌, ◌%◌, bit_and, bit_or, Bool, false, true, not, List, [], ◌∷◌, Option, none, some,
  ◌==◌, if◌then◌else◌,
}

pub record Fragment : Type 0 where
  pub transmission_id : ℕ
  pub identifier : ℕ
  pub payload : List ℕ

abbrev pub fragment_identifier_size : ℕ
fragment_identifier_size = 2

-- `identifier |= flag` under its condition.
abbrev pub set_flag : Bool → ℕ → ℕ → ℕ
set_flag b flag identifier = if b then bit_or identifier flag else identifier

-- The identifier byte: five bits of sequence number, then the start, end and fail bits.
unfoldable pub make_identifier : ℕ → Bool → Bool → Bool → ℕ
make_identifier sequence_no start end fail =
    set_flag fail 0x01
      (set_flag end 0x02 (set_flag start 0x04 (bit_or 0 (bit_and sequence_no 0x1F * 8 % 256))))

unfoldable pub new_fragment : ℕ → ℕ → Bool → Bool → Bool → List ℕ → Fragment
new_fragment tid sequence_no start end fail payload = record {
  transmission_id = tid;
  identifier = make_identifier sequence_no start end fail;
  payload = payload;
}

-- `none` is the error for fewer than two bytes.
unfoldable pub parse_fragment : List ℕ → Option Fragment
parse_fragment [] = none
parse_fragment (b ∷ []) = none
parse_fragment (b ∷ c ∷ rest) =
    some (record { transmission_id = b; identifier = c; payload = rest })

unfoldable pub sequence_number_of : ℕ → ℕ
sequence_number_of identifier = bit_and (identifier / 8) 0x1F

abbrev pub has_bit : ℕ → ℕ → Bool
has_bit flag identifier = not (bit_and identifier flag == 0)

unfoldable pub sequence_number : Fragment → ℕ
sequence_number f = sequence_number_of f.identifier

unfoldable pub start_bit : Fragment → Bool
start_bit f = has_bit 0x04 f.identifier

unfoldable pub end_bit : Fragment → Bool
end_bit f = has_bit 0x02 f.identifier

unfoldable pub fail_bit : Fragment → Bool
fail_bit f = has_bit 0x01 f.identifier

unfoldable pub to_bytes : Fragment → List ℕ
to_bytes f = f.transmission_id ∷ f.identifier ∷ f.payload

unfoldable pub report_failure : Fragment → Fragment
report_failure f = new_fragment f.transmission_id (sequence_number f) false false true []

unfoldable pub next_transmission_id : ℕ → ℕ
next_transmission_id tid = (tid + 1) % 256

-- The addition is a byte's; the counter runs modulo 16 though its field has five bits.
unfoldable pub next_sequence_number : ℕ → ℕ
next_sequence_number seq = (seq + 1) % 256 % 16
