-- ===== src/Bbc/Connector/Delivery.antt =====
-- A bundle that one connector sends and another receives.
use dtn7_gold.Prelude.{
  ℕ, zero, suc, ◌+◌, ◌≤◌, ◌<◌, ◌≡◌, ap, ◌∙◌, Bool, true, false, Option, none, some, List, [], ◌∷◌,
  ◌++◌, append_assoc, arith, leb, leb→le, length, take, drop, leb-false→lt, length-take,
  length-drop, take-append-drop, replicate, All, Bool-cases, inl, inr,
}
use dtn7_gold.Prelude.Int.{pos}
use dtn7_gold.Bbc.Fragment.{
  Fragment, new_fragment, to_bytes, next_sequence_number, next_transmission_id,
}
use dtn7_gold.Bbc.Transmission.{ok, new_plain_outgoing}
use dtn7_gold.Bbc.Connector.{
  Connector, finish, handle_incoming_fragment, handler_read, send_loop, send,
}
use dtn7_gold.Bbc.Connector.Steps.{
  incoming, outgoing, middle, opening, handle-middle, handle-opening, Received, finish-last,
  finish-middle, stored, stored-transmission, stored-Received, piece, send-last, send-part,
}

-- Every fragment fits into `mtu` bytes.
abbrev pub Fits : ℕ → List Fragment → Type 0
Fits mtu = All (λ f. length (to_bytes f) ≤ mtu)

piece-fits :
    (tid s k : ℕ) (start last : Bool) (p : List ℕ)
    → length p ≤ k
    → length (to_bytes (piece tid s start last p)) ≤ k + 2
unfolding to_bytes piece new_fragment
piece-fits tid s k start last p h = omega arith

pub new-outgoing :
    (tid : ℕ) (p : List ℕ) (k : ℕ)
    → 0 < length p
    → new_plain_outgoing tid p (pos (k + 2)) ≡ outgoing tid p k true 0
unfolding new_plain_outgoing
new-outgoing tid [] k h = absurd (omega arith)
new-outgoing tid (x ∷ p) k h = ground arith

module _ {ℓ} {B : Type ℓ} (decode : List ℕ → Option B) (tid k : ℕ) (room : 0 < k) (b : B) where
  -- What sending `p` does to a receiver `r`, after a start flag and a sequence number.
  abbrev Delivered : Bool → ℕ → List ℕ → ℕ → List Fragment → Connector B → Type ℓ
  Delivered start n p s out r =
      (fs : List Fragment) × (send_loop (replicate n none) (outgoing tid p k start s) out
        ≡ (ok tt, out ++ fs))
      × Received tid b r (handler_read decode fs r)
      × Fits (k + 2) fs

  -- A fragment that does not end the transmission, and then the rest.
  goes_on :
      (f : Fragment) (fs : List Fragment) (payload : List ℕ) (seq : ℕ) (r : Connector B)
      → handle_incoming_fragment decode f r ≡ finish decode f (incoming tid payload false seq) r
      → Received tid b
          (stored decode tid f payload seq r)
          (handler_read decode fs (stored decode tid f payload seq r))
      → Received tid b r (handler_read decode (f ∷ fs) r)
  unfolding handler_read
  goes_on f fs payload seq r e h =
      rw (e, finish-middle decode tid f payload seq)
        (stored-Received decode tid f payload seq b r _ h)

  -- What is left of the payload arrives at a receiver that has read `acc`.
  rest_arrives :
      (n : ℕ) (p acc : List ℕ) (s : ℕ) (out : List Fragment) (r : Connector B)
      → 0 < length p
      → length p ≤ n
      → decode (acc ++ p) ≡ some b
      → r.transmissions tid ≡ some (incoming tid acc false s)
      → Delivered false n p s out r
  unfolding handler_read
  rest_arrives zero p acc s out r lo hi e h = absurd (omega arith)
  rest_arrives (suc n) p acc s out r lo hi e h = elim (Bool-cases (leb (length p) k)) [
    | inl fits ↦ (
      middle tid s true p ∷ [],
      send-last tid p k false s (replicate n none) out (leb→le _ _ fits),
      rw (handle-middle decode tid s true p r acc h) (finish-last decode tid _ (acc ++ p) _ b r e),
      (piece-fits tid s k false true p (leb→le _ _ fits), tt),
    )
    | inr long ↦
        let chunk : List ℕ = take k p in
        let long' : k < length p = leb-false→lt _ _ long in
        let f : Fragment = middle tid s false chunk in
        let r1 : Connector B = stored decode tid f (acc ++ chunk) (next_sequence_number s) r in
        let whole : decode ((acc ++ chunk) ++ drop k p) ≡ some b =
          rw (append_assoc acc chunk (drop k p), take-append-drop k p) e in
        let ih : Delivered false n (drop k p) (next_sequence_number s) (out ++ f ∷ []) r1 =
          rest_arrives n (drop k p) (acc ++ chunk) (next_sequence_number s) (out ++ f ∷ []) r1
            (omega (arith, length-drop k p)) (omega (arith, length-drop k p)) whole
            (stored-transmission decode tid f (acc ++ chunk) _ r) in
        (
          f ∷ ih.0,
          send-part tid p k false s (replicate n none) out long'
              ∙ ih.1
              ∙ ap (λ l. (ok tt, l)) (append_assoc out (f ∷ []) ih.0),
          goes_on f ih.0 (acc ++ chunk) _ r (handle-middle decode tid s false chunk r acc h) ih.2,
          (piece-fits tid s k false false chunk (omega (arith, length-take k p)), ih.3),
        )
  ]

  -- The whole payload arrives at a receiver that knows no transmission of this number.
  payload_arrives :
      (n : ℕ) (p : List ℕ) (s : ℕ) (out : List Fragment) (r : Connector B)
      → 0 < length p
      → length p ≤ n
      → decode p ≡ some b
      → r.transmissions tid ≡ none
      → Delivered true n p s out r
  unfolding handler_read
  payload_arrives zero p s out r lo hi e h = absurd (omega arith)
  payload_arrives (suc n) p s out r lo hi e h = elim (Bool-cases (leb (length p) k)) [
    | inl fits ↦ (
      opening tid s true p ∷ [],
      send-last tid p k true s (replicate n none) out (leb→le _ _ fits),
      rw (handle-opening decode tid s true p r h) (finish-last decode tid _ p _ b r e),
      (piece-fits tid s k true true p (leb→le _ _ fits), tt),
    )
    | inr long ↦
        let chunk : List ℕ = take k p in
        let long' : k < length p = leb-false→lt _ _ long in
        let f : Fragment = opening tid s false chunk in
        let r1 : Connector B = stored decode tid f chunk (next_sequence_number s) r in
        let whole : decode (chunk ++ drop k p) ≡ some b = rw (take-append-drop k p) e in
        let ih : Delivered false n (drop k p) (next_sequence_number s) (out ++ f ∷ []) r1 =
          rest_arrives n (drop k p) chunk (next_sequence_number s) (out ++ f ∷ []) r1
            (omega (arith, length-drop k p)) (omega (arith, length-drop k p)) whole
            (stored-transmission decode tid f chunk _ r) in
        (
          f ∷ ih.0,
          send-part tid p k true s (replicate n none) out long'
              ∙ ih.1
              ∙ ap (λ l. (ok tt, l)) (append_assoc out (f ∷ []) ih.0),
          goes_on f ih.0 chunk _ r (handle-opening decode tid s false chunk r h) ih.2,
          (piece-fits tid s k true false chunk (omega (arith, length-take k p)), ih.3),
        )
  ]

-- A non-empty payload, sent with an MTU above two and no failure report under way, reaches a
-- receiver that knows no transmission of the sender's number: `length payload` rounds are enough,
-- the sender puts fragments of at most MTU bytes into its channel and takes the next number, and the
-- receiver, which handles them in order, reports the decoded bundle once, reports no failure, and
-- has forgotten the transmission and kept all others.
pub bundle_arrives {ℓ} :
    {B : Type ℓ} (decode : List ℕ → Option B) (n k : ℕ) (payload : List ℕ) (b : B)
    (c r : Connector B)
    → 0 < k
    → 0 < length payload
    → length payload ≤ n
    → decode payload ≡ some b
    → r.transmissions c.tid ≡ none
    → (fs : List Fragment) × (send (replicate n none) (pos (k + 2)) payload c ≡ (
      ok tt,
      record c { tid = next_transmission_id c.tid; fragment_out = c.fragment_out ++ fs },
    ))
      × Received c.tid b r (handler_read decode fs r)
      × Fits (k + 2) fs
unfolding send
bundle_arrives decode n k payload b c r room some_payload enough e fresh =
    let (fs, sent, received, fits) =
      payload_arrives decode c.tid k room b n payload 0 [] r some_payload enough e fresh in
    (fs, rw (new-outgoing c.tid payload k some_payload, sent), received, fits)
