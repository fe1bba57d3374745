-- ===== src/Bbc/Connector.antt =====
-- pkg/cla/bbc/connector.go: the fragments that a connector takes from its modem and gives to it.
-- `decode` stands for `IncomingTransmission.Bundle`: xz, then the bundle codec. Channels are the
-- lists of what was put into them, the newest last.
pub mod Steps
pub mod Delivery
pub mod Failures
pub mod Open
use dtn7_gold.Prelude.{ℕ, Option, none, some, List, [], ◌∷◌, ◌++◌, ◌==◌, if◌then◌else◌}
use dtn7_gold.Prelude.Int.{ℤ}
use dtn7_gold.Prelude.Maps.{Map, update}
use dtn7_gold.Bbc.Fragment.{Fragment, fail_bit, report_failure, next_transmission_id}
use dtn7_gold.Bbc.Transmission.{
  Error, schedule_over, peer_failure, Result, ok, err, IncomingTransmission, new_incoming,
  read_fragment, OutgoingTransmission, new_plain_outgoing, write_fragment,
}

pub record Connector {ℓ} (B : Type ℓ) : Type ℓ where
  pub tid : ℕ
  pub transmissions : Map IncomingTransmission
  pub fragment_out : List Fragment
  pub fail_transmission : List ℕ
  pub reports : List B

module _ {ℓ} {B : Type ℓ} where
  -- The deferred report of a failed transmission.
  unfoldable pub report_error : Fragment → Connector B → Connector B
  report_error f c = record c { fragment_out = c.fragment_out ++ report_failure f ∷ [] }

  unfoldable pub forget : ℕ → Connector B → Connector B
  forget tid c = record c { transmissions = update c.transmissions tid none }

  -- What follows a finished transmission: a report of its bundle, or an error.
  unfoldable pub deliver : Fragment → ℕ → Option B → Connector B → Connector B
  unfolding report_error forget
  deliver f tid (some b) c = forget tid (record c { reports = c.reports ++ b ∷ [] })
  deliver f tid none c = report_error f (forget tid c)

  module _ (decode : List ℕ → Option B) where
    unfoldable pub finish : Fragment → IncomingTransmission → Connector B → Connector B
    finish f t c =
        let c' = record c { transmissions = update c.transmissions t.transmission_id (some t) } in
        if t.finished then deliver f t.transmission_id (decode t.payload) c' else c'

    -- A new transmission that is refused is not stored; a known one is forgotten.
    unfoldable pub after_new : Fragment → Result IncomingTransmission → Connector B → Connector B
    unfolding report_error
    after_new f (ok t) c = finish f t c
    after_new f (err e) c = report_error f c

    unfoldable pub after_known :
        Fragment → ℕ → Result IncomingTransmission → Connector B → Connector B
    unfolding report_error forget
    after_known f tid (ok t) c = finish f t c
    after_known f tid (err e) c = report_error f (forget tid c)

    unfoldable pub dispatch : Fragment → Option IncomingTransmission → Connector B → Connector B
    unfolding after_new after_known
    dispatch f none c = after_new f (new_incoming f) c
    dispatch f (some t) c = after_known f t.transmission_id (read_fragment t f) c

    unfoldable pub handle_incoming_fragment : Fragment → Connector B → Connector B
    unfolding dispatch
    handle_incoming_fragment f c =
        if fail_bit f
        then record c { fail_transmission = c.fail_transmission ++ f.transmission_id ∷ [] }
        else dispatch f (c.transmissions f.transmission_id) c

    -- `handlerRead` over the fragments that the modem receives.
    unfoldable pub handler_read : List Fragment → Connector B → Connector B
    handler_read [] c = c
    handler_read (f ∷ fs) c = handler_read fs (handle_incoming_fragment f c)

-- The loop of `Send`, one round for each entry of a schedule: what `failTransmission` holds when
-- the round begins. `out` is what the rounds have put into `fragmentOut`, which an error leaves there.
unfoldable pub send_loop :
    List (Option ℕ) → OutgoingTransmission → List Fragment → Result (Unit {0}) × List Fragment
send_loop [] t out = (err schedule_over, out)
send_loop (some failed ∷ schedule) t out =
    let rest = send_loop schedule t out in
    if failed == t.transmission_id then (err peer_failure, out) else rest
send_loop (none ∷ schedule) t out = elim (write_fragment t) [
  | err e ↦ (err e, out)
  | ok (f, t') ↦
      let rest = send_loop schedule t' (out ++ f ∷ []) in
      if t'.finished then (ok tt, out ++ f ∷ []) else rest
]

module _ {ℓ} {B : Type ℓ} where
  unfoldable pub after_send :
      Result (Unit {0}) × List Fragment → Connector B → Result (Unit {0}) × Connector B
  after_send (r, out) c =
      (r, record c { tid = next_transmission_id c.tid; fragment_out = c.fragment_out ++ out })

  -- `Send` of a bundle that the codec and xz have made bytes of.
  unfoldable pub send : List (Option ℕ) → ℤ → List ℕ → Connector B → Result (Unit {0}) × Connector B
  unfolding after_send
  send schedule mtu payload c =
      after_send (send_loop schedule (new_plain_outgoing c.tid payload mtu) []) c
