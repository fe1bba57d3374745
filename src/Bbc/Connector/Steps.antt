-- ===== src/Bbc/Connector/Steps.antt =====
-- One fragment of a transmission: sent, and handled by a receiver.
use dtn7_gold.Prelude.{
  ℕ, ◌≤◌, ◌<◌, ◌≡◌, refl, ◌∙◌, Bool, true, false, Option, none, some, List, [], ◌∷◌, ◌++◌, arith,
  ◌==◌, ==_self, le→leb, lt→leb, length, take, drop,
}
use dtn7_gold.Prelude.Int.{pos}
use dtn7_gold.Prelude.Maps.{update}
use dtn7_gold.Bbc.Fragment.{Fragment, new_fragment, fail_bit, next_sequence_number}
use dtn7_gold.Bbc.Fragment.Header.{
  sequence_number-new, start_bit-new, end_bit-new, fail_bit-new, transmission_id-new, payload-new,
}
use dtn7_gold.Bbc.Transmission.{
  ok, IncomingTransmission, new_incoming, read_fragment, OutgoingTransmission, write_fragment,
}
use dtn7_gold.Bbc.Connector.{Connector, finish, deliver, handle_incoming_fragment, send_loop}

pub next-lt : (s : ℕ) → next_sequence_number s < 16
unfolding next_sequence_number
next-lt s = omega arith

abbrev pub incoming : ℕ → List ℕ → Bool → ℕ → IncomingTransmission
incoming tid payload finished seq = record {
  transmission_id = tid;
  payload = payload;
  finished = finished;
  prev_sequence_no = seq;
}

abbrev pub outgoing : ℕ → List ℕ → ℕ → Bool → ℕ → OutgoingTransmission
outgoing tid payload k start seq = record {
  transmission_id = tid;
  payload = payload;
  finished = false;
  mtu = pos k;
  start = start;
  next_segment_no = seq;
}

-- The fragment that a round of `Send` makes after the sequence number `s`.
unfoldable pub piece : ℕ → ℕ → Bool → Bool → List ℕ → Fragment
piece tid s start last chunk = new_fragment tid (next_sequence_number s) start last false chunk

module _ (tid s : ℕ) (last : Bool) (chunk : List ℕ) where
  abbrev pub middle : Fragment
  middle = piece tid s false last chunk

  abbrev pub opening : Fragment
  opening = piece tid s true last chunk

  seq-byte : next_sequence_number s < 256
  seq-byte = omega (arith, next-lt s)

  fail_bit-middle : fail_bit middle ≡ false
  unfolding piece
  fail_bit-middle = fail_bit-new tid (next_sequence_number s) false last false chunk seq-byte

  transmission_id-middle : middle.transmission_id ≡ tid
  unfolding piece
  transmission_id-middle = transmission_id-new tid _ false last false chunk seq-byte

  fail_bit-opening : fail_bit opening ≡ false
  unfolding piece
  fail_bit-opening = fail_bit-new tid (next_sequence_number s) true last false chunk seq-byte

  transmission_id-opening : opening.transmission_id ≡ tid
  unfolding piece
  transmission_id-opening = transmission_id-new tid _ true last false chunk seq-byte

  read-middle :
      (acc : List ℕ)
      → read_fragment (incoming tid acc false s) middle
        ≡ ok (incoming tid (acc ++ chunk) last (next_sequence_number s))
  unfolding read_fragment piece
  read-middle acc = ground (
    arith,
    next-lt s,
    transmission_id-new tid (next_sequence_number s) false last false chunk seq-byte,
    payload-new tid (next_sequence_number s) false last false chunk seq-byte,
    sequence_number-new tid (next_sequence_number s) false last false chunk seq-byte,
    start_bit-new tid (next_sequence_number s) false last false chunk seq-byte,
    end_bit-new tid (next_sequence_number s) false last false chunk seq-byte,
  )

  new-opening : new_incoming opening ≡ ok (incoming tid chunk last (next_sequence_number s))
  unfolding new_incoming piece
  new-opening = ground (
    arith,
    next-lt s,
    transmission_id-new tid (next_sequence_number s) true last false chunk seq-byte,
    payload-new tid (next_sequence_number s) true last false chunk seq-byte,
    sequence_number-new tid (next_sequence_number s) true last false chunk seq-byte,
    start_bit-new tid (next_sequence_number s) true last false chunk seq-byte,
    end_bit-new tid (next_sequence_number s) true last false chunk seq-byte,
  )

module _ {ℓ} {B : Type ℓ} (decode : List ℕ → Option B) (tid : ℕ) where
  module _ (s : ℕ) (last : Bool) (chunk : List ℕ) (r : Connector B) where
    pub handle-middle :
        (acc : List ℕ)
        → r.transmissions tid ≡ some (incoming tid acc false s)
        → handle_incoming_fragment decode (middle tid s last chunk) r
          ≡ finish decode
              (middle tid s last chunk)
              (incoming tid (acc ++ chunk) last (next_sequence_number s))
              r
    unfolding handle_incoming_fragment
    handle-middle acc h = simp (
      fail_bit-middle tid s last chunk,
      transmission_id-middle tid s last chunk,
      h,
      read-middle tid s last chunk acc,
    )

    pub handle-opening :
        r.transmissions tid ≡ none
        → handle_incoming_fragment decode (opening tid s last chunk) r
          ≡ finish decode
              (opening tid s last chunk)
              (incoming tid chunk last (next_sequence_number s))
              r
    unfolding handle_incoming_fragment
    handle-opening h = simp (
      fail_bit-opening tid s last chunk,
      transmission_id-opening tid s last chunk,
      h,
      new-opening tid s last chunk,
    )

-- What a receiver has after a transmission whose payload decodes to `b`.
pub record Received {ℓ} {B : Type ℓ} (tid : ℕ) (b : B) (r r' : Connector B) : Type ℓ where
  pub reports : r'.reports ≡ r.reports ++ b ∷ []
  pub no_failure : r'.fragment_out ≡ r.fragment_out
  pub no_abort : r'.fail_transmission ≡ r.fail_transmission
  pub forgotten : r'.transmissions tid ≡ none
  pub others : (j : ℕ) → (tid == j) ≡ false → r'.transmissions j ≡ r.transmissions j

module _ {ℓ} {B : Type ℓ} (decode : List ℕ → Option B) (tid : ℕ) (f : Fragment) where
  pub finish-last :
      (payload : List ℕ) (seq : ℕ) (b : B) (r : Connector B)
      → decode payload ≡ some b
      → Received tid b r (finish decode f (incoming tid payload true seq) r)
  unfolding finish deliver
  finish-last payload seq b r e = rw e (record {
    reports = refl;
    no_failure = refl;
    no_abort = refl;
    forgotten = rw (==_self tid);
    others = λ j h. rw h;
  })

  -- A fragment in the middle only stores the transmission.
  pub stored : List ℕ → ℕ → Connector B → Connector B
  stored payload seq r = record r {
    transmissions = update r.transmissions tid (some (incoming tid payload false seq));
  }

  pub finish-middle :
      (payload : List ℕ) (seq : ℕ) (r : Connector B)
      → finish decode f (incoming tid payload false seq) r ≡ stored payload seq r
  unfolding finish stored
  finish-middle payload seq r = refl

  pub stored-transmission :
      (payload : List ℕ) (seq : ℕ) (r : Connector B)
      → (stored payload seq r).transmissions tid ≡ some (incoming tid payload false seq)
  unfolding stored
  stored-transmission payload seq r = rw (==_self tid)

  pub stored-Received :
      (payload : List ℕ) (seq : ℕ) (b : B) (r r' : Connector B)
      → Received tid b (stored payload seq r) r'
      → Received tid b r r'
  unfolding stored
  stored-Received payload seq b r r' h = record {
    reports = h.reports;
    no_failure = h.no_failure;
    no_abort = h.no_abort;
    forgotten = h.forgotten;
    others = λ j e. h.others j e ∙ rw e;
  }

-- One round of sending.
module _ (tid : ℕ) (p : List ℕ) (k : ℕ) (start : Bool) (s : ℕ) where
  pub send-last :
      (schedule : List (Option ℕ)) (out : List Fragment)
      → length p ≤ k
      → send_loop (none ∷ schedule) (outgoing tid p k start s) out
        ≡ (ok tt, out ++ piece tid s start true p ∷ [])
  unfolding send_loop write_fragment piece
  send-last schedule out h = rw (le→leb _ _ h)

  pub send-part :
      (schedule : List (Option ℕ)) (out : List Fragment)
      → k < length p
      → send_loop (none ∷ schedule) (outgoing tid p k start s) out
        ≡ send_loop schedule
            (outgoing tid (drop k p) k false (next_sequence_number s))
            (out ++ piece tid s start false (take k p) ∷ [])
  unfolding send_loop write_fragment piece
  send-part schedule out h = rw (lt→leb _ _ h)
