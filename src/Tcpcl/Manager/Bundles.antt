-- ===== src/Tcpcl/Manager/Bundles.antt =====
-- pkg/cla/tcpclv4/internal/utils/transfer_in.go and transfer_out.go over pkg/bpv7: a bundle that is written,
-- sent in segments, put together and read again.
use dtn7_gold.Prelude.{
  ℕ, suc, ◌%◌, ◌≤◌, ◌<◌, ◌≡◌, ap, not, false, Option, none, some, List, [], ◌∷◌, ◌++◌, append-nil,
  arith, map, length, All, ◌==◌,
}
use dtn7_gold.Prelude.Int.{ℤ}
use dtn7_gold.Wire.{Result as Written, ok as written, err as unwritten}
use dtn7_gold.Bpv7.Bundle.{Bundle, ok as collected}
use dtn7_gold.Bpv7.Validity.{check_valid}
use dtn7_gold.Bpv7.Cbor.{Codec, CodecLaws}
use dtn7_gold.Bpv7.Cbor.Blocks.Primary.{IsPrimary}
use dtn7_gold.Bpv7.Cbor.Blocks.Canonical.{IsCanonical}
use dtn7_gold.Bpv7.Cbor.Bundles.{marshal_bundle, unmarshal_bundle}
use dtn7_gold.Bpv7.Cbor.Bundles.RoundTrip.{bundle_roundtrip}
use dtn7_gold.Tcpcl.Messages.Types.{DataTransmissionMessage, data_transmission}
use dtn7_gold.Tcpcl.Transfer.{ok, new_outgoing, send_segments}
use dtn7_gold.Tcpcl.Transfer.Segments.{incoming}
use dtn7_gold.Tcpcl.Manager.{Manager, handle}
use dtn7_gold.Tcpcl.Manager.Steps.{Outcome, Acked}
use dtn7_gold.Tcpcl.Manager.Delivery.{Segments, transfer_arrives}

abbrev pub read_bundle : Option (Written Bundle) → Option Bundle
read_bundle none = none
read_bundle (some (written b)) = some b
read_bundle (some (unwritten e)) = none

-- `IncomingTransfer.ToBundle` of a finished transfer.
unfoldable pub to_bundle : Codec → ℤ → List ℕ → Option Bundle
to_bundle c now bytes = read_bundle (unmarshal_bundle c now bytes)

to_bundle-marshal :
    (c : Codec) (now : ℤ) (b : Bundle) (bytes : List ℕ)
    → ((rest : List ℕ) → unmarshal_bundle c now (bytes ++ rest) ≡ some (written b))
    → to_bundle c now bytes ≡ some b
unfolding to_bundle
to_bundle-marshal c now b bytes h = ap read_bundle (rw append-nil at (h []))

-- A bundle of blocks that CBOR can hold and that its check accepts, sent with a positive MTU that can be
-- allocated under a transfer number that the running receiver does not know: it is written, cut into segments within as many rounds as
-- it has bytes and one more, and acknowledged to its full length. Unless that length is a multiple of the MTU,
-- the receiver delivers this very bundle once and forgets the transfer; if it is a multiple, it keeps the
-- bytes and delivers nothing.
pub bundle_transfer :
    (c : Codec) (now : ℤ) (max_alloc mtu id : ℕ) (b : Bundle) (m : Manager Bundle)
    → CodecLaws c
    → 0 < mtu
    → mtu ≤ max_alloc
    → IsPrimary b.primary_block
    → All (IsCanonical c) b.canonical_blocks
    → check_valid now b ≡ collected []
    → m.stopped ≡ false
    → m.in_transfers id ≡ none
    → (bytes : List ℕ) × (segments : List DataTransmissionMessage) × (marshal_bundle c b
        ≡ written bytes)
      × (send_segments (suc (length bytes)) max_alloc mtu 0 (new_outgoing id bytes)
          ≡ (segments, ok (length bytes)))
      × Outcome id b
          (not (length bytes % mtu == 0))
          (some (incoming id bytes false))
          m
          (handle (to_bundle c now) (map data_transmission segments) m)
      × Acked 0 (length bytes) m (handle (to_bundle c now) (map data_transmission segments) m)
      × Segments id mtu segments
bundle_transfer c now max_alloc mtu id b m laws room can_alloc primary_right blocks_right valid run
      fresh =
    let (tail, e, back) = bundle_roundtrip c laws now b primary_right blocks_right valid in
    let bytes : List ℕ = c.indefinite_array ∷ tail in
    let (segments, sent, outcome, acks, shape) =
      transfer_arrives (to_bundle c now) max_alloc mtu id (suc (length bytes)) bytes b m room
        can_alloc (omega arith) (omega arith) (to_bundle-marshal c now b bytes back) run fresh in
    (bytes, segments, e, sent, outcome, acks, shape)
