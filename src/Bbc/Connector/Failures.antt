-- ===== src/Bbc/Connector/Failures.antt =====
-- A fragment that is refused, and a sender that hears of a failure.
use dtn7_gold.Prelude.{
  ℕ, zero, suc, ◌+◌, ◌*◌, ◌<◌, ◌≡◌, refl, ap, ◌∙◌, Bool, true, false, Option, none, some, List, [],
  ◌∷◌, ◌++◌, append-nil, append_assoc, arith, length, drop, take, length-drop, replicate, ◌==◌,
  ==_self, Bool-cases, inl, inr, ◌⊎◌,
}
use dtn7_gold.Prelude.Int.{pos}
use dtn7_gold.Bbc.Fragment.{
  Fragment, fail_bit, start_bit, sequence_number, report_failure, next_sequence_number,
  next_transmission_id,
}
use dtn7_gold.Bbc.Fragment.Header.{
  sequence_number-new, fail_bit-new, transmission_id-new, sequence_number-lt,
}
use dtn7_gold.Bbc.Transmission.{
  Error, already_finished, wrong_sequence, second_start, err, peer_failure, IncomingTransmission,
  new_incoming, read_fragment,
}
use dtn7_gold.Bbc.Connector.{
  Connector, report_error, forget, after_new, after_known, dispatch, handle_incoming_fragment,
  send_loop, after_send, send,
}
use dtn7_gold.Bbc.Connector.Steps.{outgoing, piece, send-part}
use dtn7_gold.Bbc.Connector.Delivery.{new-outgoing}

-- A refused fragment has been answered by a failure report, and its transmission is gone.
pub record Refused {ℓ} {B : Type ℓ} (f : Fragment) (c c' : Connector B) : Type ℓ where
  pub reports : c'.reports ≡ c.reports
  pub no_abort : c'.fail_transmission ≡ c.fail_transmission
  pub failure : c'.fragment_out ≡ c.fragment_out ++ report_failure f ∷ []
  pub forgotten : c'.transmissions f.transmission_id ≡ none
  pub others : (j : ℕ) → (f.transmission_id == j) ≡ false → c'.transmissions j ≡ c.transmissions j

-- What a failure report of a fragment says.
abbrev pub Reports : Fragment → Fragment → Type 0
Reports g f =
    (g.transmission_id ≡ f.transmission_id)
    × (sequence_number g ≡ sequence_number f)
    × (fail_bit g ≡ true)

report_lem : (f : Fragment) → f.identifier < 256 → Reports (report_failure f) f
unfolding report_failure
report_lem f h =
    let small : sequence_number f < 32 = sequence_number-lt f h in
    (
      transmission_id-new f.transmission_id (sequence_number f) false false true [] (omega arith),
      sequence_number-new f.transmission_id (sequence_number f) false false true [] (omega arith)
          ∙ omega arith,
      fail_bit-new f.transmission_id (sequence_number f) false false true [] (omega arith),
    )

-- How a fragment that does not report a failure can be wrong for what the connector knows.
abbrev pub IsWrong : Fragment → Option IncomingTransmission → Type 0
IsWrong f none = start_bit f ≡ false
IsWrong f (some t) =
    (t.transmission_id ≡ f.transmission_id)
    × (((sequence_number f == next_sequence_number t.prev_sequence_no) ≡ false)
        ⊎ (start_bit f ≡ true))

-- The transmission refuses it, for whatever reason comes first.
refuses :
    (f : Fragment) (t : IncomingTransmission)
    → IsWrong f (some t)
    → (e : Error) × (read_fragment t f ≡ err e)
unfolding read_fragment
refuses f t (same, wrong) = elim (Bool-cases t.finished) [
  | inl done ↦ (already_finished, rw done refl)
  | inr more ↦ elim (Bool-cases (sequence_number f == next_sequence_number t.prev_sequence_no)) [
    | inr lost ↦ (wrong_sequence, rw (more, same, ==_self f.transmission_id, lost) refl)
    | inl expected ↦ elim wrong [
      | inl lost ↦ cc
      | inr restarted ↦
          (second_start, rw (more, same, ==_self f.transmission_id, expected, restarted) refl)
    ]
  ]
]

module _ {ℓ} {B : Type ℓ} (decode : List ℕ → Option B) (f : Fragment) (c : Connector B) where
  dispatch-wrong :
      (known : Option IncomingTransmission)
      → c.transmissions f.transmission_id ≡ known
      → IsWrong f known
      → Refused f c (dispatch decode f known c)
  unfolding dispatch new_incoming after_new report_error after_known forget
  dispatch-wrong none e h = rw h (record {
    reports = refl;
    no_abort = refl;
    failure = refl;
    forgotten = e;
    others = λ j o. refl;
  })
  dispatch-wrong (some t) e h =
      let (reason, refused) = refuses f t h in
      rw refused (record {
        reports = refl;
        no_abort = refl;
        failure = refl;
        forgotten = rw (h.0, ==_self f.transmission_id);
        others = λ j o. rw (h.0, o);
      })

-- A fragment that reports no failure and that starts no new transmission, or goes into a known one
-- out of sequence or with a start bit, loses its transmission: the connector delivers nothing,
-- forgets the transmission and no other one, and broadcasts one fragment, which carries the same
-- number of the transmission, the same sequence number and the fail bit.
pub handle-wrong {ℓ} :
    {B : Type ℓ} (decode : List ℕ → Option B) (f : Fragment) (c : Connector B)
    → f.identifier < 256
    → fail_bit f ≡ false
    → IsWrong f (c.transmissions f.transmission_id)
    → Refused f c (handle_incoming_fragment decode f c) × Reports (report_failure f) f
unfolding handle_incoming_fragment
handle-wrong decode f c byte data_fragment wrong = (
  rw data_fragment (dispatch-wrong decode f c (c.transmissions f.transmission_id) refl wrong),
  report_lem f byte,
)

-- The rounds before the failure report each send one fragment that is full.
loop-failure :
    (j tid k s : ℕ) (start : Bool) (p : List ℕ) (later : List (Option ℕ)) (out : List Fragment)
    → j * k < length p
    → (fs : List Fragment) × (send_loop
          (replicate j none ++ some tid ∷ later)
          (outgoing tid p k start s)
          out
        ≡ (err peer_failure, out ++ fs))
      × (length fs ≡ j)
unfolding send_loop
loop-failure zero tid k s start p later out h = ([], rw (==_self tid, append-nil), refl)
loop-failure (suc j) tid k s start p later out h =
    let f : Fragment = piece tid s start false (take k p) in
    let (fs, sent, count) =
      loop-failure j tid k (next_sequence_number s) false (drop k p) later (out ++ f ∷ [])
        (omega (arith, length-drop k p)) in
    (
      f ∷ fs,
      send-part tid p k start s (replicate j none ++ some tid ∷ later) out (omega arith)
          ∙ sent
          ∙ ap (λ l. (err peer_failure, l)) (append_assoc out (f ∷ []) fs),
      ap suc count,
    )

-- A sender that finds no failure before some rounds, and then the number of its transmission before a round
-- in which there is still payload to send, stops there with an error: it has put exactly one fragment into
-- its channel for each of the rounds before, whatever would come later, and goes on to the next number.
pub send-peer_failure {ℓ} :
    {B : Type ℓ} (j k : ℕ) (payload : List ℕ) (later : List (Option ℕ)) (c : Connector B)
    → j * k < length payload
    → (fs : List Fragment) × (send (replicate j none ++ some c.tid ∷ later) (pos (k + 2)) payload c
        ≡ (
          err peer_failure,
          record c { tid = next_transmission_id c.tid; fragment_out = c.fragment_out ++ fs },
        ))
      × (length fs ≡ j)
unfolding send after_send
send-peer_failure j k payload later c h =
    let (fs, sent, count) = loop-failure j c.tid k 0 true payload later [] h in
    (fs, rw (new-outgoing c.tid payload k (omega arith), sent), count)
