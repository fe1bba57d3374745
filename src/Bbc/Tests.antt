-- ===== src/Bbc/Tests.antt =====
-- Runs of pkg/cla/bbc on small payloads.
use dtn7_gold.Prelude.{
  ℕ, ◌≡◌, refl, Bool-cases, inl, inr, ◌==◌, length, true, false, arith, Option, some, none, List,
  [], ◌∷◌, ◌++◌, replicate,
}
use dtn7_gold.Prelude.Int.{pos}
use dtn7_gold.Prelude.Maps.{empty, update}
use dtn7_gold.Bbc.Fragment.{
  Fragment, new_fragment, parse_fragment, to_bytes, sequence_number, start_bit, end_bit, fail_bit,
  report_failure, next_transmission_id,
}
use dtn7_gold.Bbc.Fragment.Header.{fragment_roundtrip}
use dtn7_gold.Bbc.Transmission.{ok, err, peer_failure, IncomingTransmission}
use dtn7_gold.Bbc.Connector.{Connector, handle_incoming_fragment, handler_read, send}
use dtn7_gold.Bbc.Connector.Steps.{Received}
use dtn7_gold.Bbc.Connector.Delivery.{Fits, bundle_arrives}
use dtn7_gold.Bbc.Connector.Failures.{Refused, Reports, handle-wrong, send-peer_failure}
use dtn7_gold.Bbc.Connector.Open.{AreOpen, handler_read-AreOpen}

abbrev as_bytes : List ℕ → Option (List ℕ)
as_bytes bytes = some bytes

abbrev three_bytes : List ℕ
three_bytes = 1 ∷ 2 ∷ 3 ∷ []

abbrev connector : ℕ → Connector (List ℕ)
connector tid = record {
  tid = tid;
  transmissions = empty;
  fragment_out = [];
  fail_transmission = [];
  reports = [];
}

bundle_arrives_example :
    (fs : List Fragment) × (send (replicate 3 none) (pos 4) three_bytes (connector 7)
      ≡ (ok tt, record (connector 7) { tid = next_transmission_id 7; fragment_out = [] ++ fs }))
    × Received 7 three_bytes (connector 9) (handler_read as_bytes fs (connector 9))
    × Fits 4 fs
bundle_arrives_example =
    bundle_arrives as_bytes 3 2 three_bytes three_bytes (connector 7) (connector 9) (omega arith)
      (omega arith) (omega arith) refl refl

fragment_roundtrip_example :
    (f : Fragment) × (parse_fragment (to_bytes (new_fragment 7 21 true false true (5 ∷ [])))
      ≡ some f)
    × (f.transmission_id ≡ 7)
    × (sequence_number f ≡ 21)
    × (start_bit f ≡ true)
    × (end_bit f ≡ false)
    × (fail_bit f ≡ true)
    × (f.payload ≡ 5 ∷ [])
fragment_roundtrip_example = fragment_roundtrip 7 21 true false true (5 ∷ []) (omega arith)

-- A connector in the middle of the transmission 7, and a fragment that comes too late for it.
abbrev waiting : IncomingTransmission
waiting = record { transmission_id = 7; payload = 4 ∷ []; finished = false; prev_sequence_no = 2 }

abbrev receiver : Connector (List ℕ)
receiver = record (connector 9) { transmissions = update empty 7 (some waiting) }

abbrev late : Fragment
late = record { transmission_id = 7; identifier = 0x20; payload = 5 ∷ [] }

handle-wrong_example :
    Refused late receiver (handle_incoming_fragment as_bytes late receiver)
    × Reports (report_failure late) late
unfolding fail_bit sequence_number dtn7_gold.Bbc.Fragment.sequence_number_of
    dtn7_gold.Bbc.Fragment.next_sequence_number
handle-wrong_example = handle-wrong as_bytes late receiver (omega arith) refl (refl, inl refl)

waiting-AreOpen : AreOpen receiver.transmissions
waiting-AreOpen tid t e = elim (Bool-cases (7 == tid)) [
  | inl same ↦ (grind arith, grind arith)
  | inr other ↦ cc (rw other at e)
]

handler_read-AreOpen_example :
    AreOpen (handler_read as_bytes (late ∷ late ∷ []) receiver).transmissions
handler_read-AreOpen_example =
    handler_read-AreOpen as_bytes (late ∷ late ∷ []) receiver waiting-AreOpen

send-peer_failure_example :
    (fs : List Fragment) × (send (replicate 1 none ++ some 7 ∷ []) (pos 4) three_bytes (connector 7)
      ≡ (
        err peer_failure,
        record (connector 7) { tid = next_transmission_id 7; fragment_out = [] ++ fs },
      ))
    × (length fs ≡ 1)
send-peer_failure_example = send-peer_failure 1 2 three_bytes [] (connector 7) (omega arith)
