-- ===== src/Tcpcl/Messages/Framing.antt =====
-- A message that was read does not depend on what follows it, and a cut message is never read.
use dtn7_gold.Prelude.{ℕ, Bool, true, false, if◌then◌else◌}
use dtn7_gold.Wire.{err, Error, Reader}
use dtn7_gold.Wire.Laws.{
  IsReader, read_full-IsReader, pure-IsReader, guard-IsReader, >>=-IsReader, read_uint-IsReader,
  read_struct-IsReader,
}
use dtn7_gold.Tcpcl.Messages.Codec.{
  read_header, unmarshal_contact, unmarshal_keepalive, unmarshal_rejection, skip_items,
  unmarshal_init, unmarshal_termination, unmarshal_ack, unmarshal_refusal, make_bytes, read_payload,
  unmarshal_segment,
}

if-IsReader {ℓ} :
    {A : Type ℓ} (b : Bool) (p q : Reader A)
    → IsReader p
    → IsReader q
    → IsReader (if b then p else q)
if-IsReader true p q hp hq = hp
if-IsReader false p q hp hq = hq

fail-IsReader {ℓ} : {A : Type ℓ} (e : Error) → IsReader {A = A} (λ bs. err e)
fail-IsReader e = record { stable = λ bs more a rest h. cc; shrinks = λ bs a rest h. cc }

ruleset reader_rules = (
  read_full-IsReader, pure-IsReader, guard-IsReader, >>=-IsReader, read_uint-IsReader,
  read_struct-IsReader, if-IsReader, fail-IsReader,
)

header-IsReader : (code : ℕ) → IsReader (read_header code)
unfolding read_header
header-IsReader code = search reader_rules

skip-IsReader : (n : ℕ) → IsReader (skip_items n)
unfolding skip_items
skip-IsReader n = search reader_rules

payload-IsReader : (max_alloc n : ℕ) → IsReader (read_payload max_alloc n)
unfolding read_payload make_bytes
payload-IsReader max_alloc n = search reader_rules

ruleset message_rules = (reader_rules, header-IsReader, skip-IsReader, payload-IsReader)

init-IsReader : IsReader unmarshal_init
unfolding unmarshal_init
init-IsReader = search message_rules depth 20

termination-IsReader : IsReader unmarshal_termination
unfolding unmarshal_termination
termination-IsReader = search message_rules depth 20

segment-IsReader : (max_alloc : ℕ) → IsReader (unmarshal_segment max_alloc)
unfolding unmarshal_segment
segment-IsReader max_alloc = search message_rules depth 20

ack-IsReader : IsReader unmarshal_ack
unfolding unmarshal_ack
ack-IsReader = search message_rules depth 20

refusal-IsReader : IsReader unmarshal_refusal
unfolding unmarshal_refusal
refusal-IsReader = search message_rules depth 20

rejection-IsReader : IsReader unmarshal_rejection
unfolding unmarshal_rejection
rejection-IsReader = search message_rules depth 20

contact-IsReader : IsReader unmarshal_contact
unfolding unmarshal_contact
contact-IsReader = search message_rules depth 20

keepalive-IsReader : IsReader unmarshal_keepalive
unfolding unmarshal_keepalive
keepalive-IsReader = search message_rules depth 20

ruleset unmarshal_rules = (
  reader_rules, init-IsReader, termination-IsReader, segment-IsReader, ack-IsReader,
  refusal-IsReader, rejection-IsReader, contact-IsReader, keepalive-IsReader,
)
