-- ===== src/Tcpcl/Tests.antt =====
-- Runs of pkg/cla/tcpclv4 on small messages and bundles.
use dtn7_gold.Prelude.{
  ℕ, suc, length, ◌%◌, ◌≡◌, refl, arith, not, false, ◌==◌, Option, some, List, [], ◌∷◌, ◌++◌, map,
}
use dtn7_gold.Wire.{ok}
use dtn7_gold.Tcpcl.Messages.Types.{
  Message, message_rejection, MessageRejectionMessage, data_transmission, DataTransmissionMessage,
}
use dtn7_gold.Tcpcl.Messages.Codec.{marshal, read_message}
use dtn7_gold.Tcpcl.Messages.RoundTrip.{read_message-marshal}
use dtn7_gold.Tcpcl.Transfer
use dtn7_gold.Tcpcl.Transfer.{new_outgoing, send_segments}
use dtn7_gold.Tcpcl.Transfer.Segments.{incoming}
use dtn7_gold.Tcpcl.Manager.{start, handle}
use dtn7_gold.Tcpcl.Manager.Steps.{Outcome, Acked}
use dtn7_gold.Tcpcl.Manager.Invariant.{IsValid, handle-IsValid}
use dtn7_gold.Bpv7.Cbor.Bundles.{marshal_bundle}
use dtn7_gold.Bpv7.Cbor.LongForm.{long_form, long_form-Laws}
use dtn7_gold.Bpv7.Cbor.Tests.{
  primary-IsPrimary, canonicals-AreCanonical, bundle-valid, bundle, now,
}
use dtn7_gold.Tcpcl.Manager.Bundles.{to_bundle, bundle_transfer}
use dtn7_gold.Tcpcl.Manager.Delivery.{Segments, transfer_arrives}

abbrev segment : DataTransmissionMessage
segment = record { flags = 3; transfer_id = 300; payload = 9 ∷ 8 ∷ [] }

read_message-marshal_example :
    read_message 2 (marshal (data_transmission segment) ++ 5 ∷ [])
    ≡ ok (data_transmission segment, 5 ∷ [])
read_message-marshal_example =
    read_message-marshal 2 (data_transmission segment) (5 ∷ [])
      (omega arith, omega arith, omega arith) (omega arith)

abbrev rejection : Message
rejection = message_rejection (record { reason_code = 2; message_header = 9 })

abbrev as_bytes : List ℕ → Option (List ℕ)
as_bytes bytes = some bytes

abbrev three_bytes : List ℕ
three_bytes = 1 ∷ 2 ∷ 3 ∷ []

transfer_arrives_example :
    (segments : List DataTransmissionMessage) × (send_segments 4 2 2 0 (new_outgoing 7 three_bytes)
      ≡ (segments, Transfer.ok 3))
    × Outcome 7 three_bytes
        (not (3 % 2 == 0))
        (some (incoming 7 three_bytes false))
        start
        (handle as_bytes (map data_transmission segments) start)
    × Acked 0 3 start (handle as_bytes (map data_transmission segments) start)
    × Segments 7 2 segments
transfer_arrives_example =
    transfer_arrives as_bytes 2 2 7 4 three_bytes three_bytes start (omega arith) (omega arith)
      (omega arith) (omega arith) refl refl refl

start-IsValid : IsValid {B = List ℕ} start
start-IsValid = record { errors = refl; transfers = λ run id t e. cc }

handle-IsValid_example :
    IsValid (
      handle as_bytes
        (data_transmission segment ∷ rejection ∷ data_transmission segment ∷ [])
        start)
handle-IsValid_example =
    handle-IsValid as_bytes (data_transmission segment ∷ rejection ∷ data_transmission segment ∷ [])
      start start-IsValid

bundle_transfer_example :
    (bytes : List ℕ) × (segments : List DataTransmissionMessage) × (marshal_bundle long_form bundle
      ≡ ok bytes)
    × (send_segments (suc (length bytes)) 64 64 0 (new_outgoing 7 bytes)
        ≡ (segments, Transfer.ok (length bytes)))
    × Outcome 7 bundle
        (not (length bytes % 64 == 0))
        (some (incoming 7 bytes false))
        start
        (handle (to_bundle long_form now) (map data_transmission segments) start)
    × Acked 0
        (length bytes)
        start
        (handle (to_bundle long_form now) (map data_transmission segments) start)
    × Segments 7 64 segments
bundle_transfer_example =
    bundle_transfer long_form now 64 64 7 bundle start long_form-Laws (omega arith) (omega arith)
      primary-IsPrimary canonicals-AreCanonical bundle-valid refl refl
