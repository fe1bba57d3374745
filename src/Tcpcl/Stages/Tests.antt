-- ===== src/Tcpcl/Stages/Tests.antt =====
-- Two small peers, and the beginning of a session.
use dtn7_gold.Prelude.{
  ℕ, ◌+◌, ◌*◌, ◌/◌, ◌≤◌, ◌≡◌, refl, arith, Bool, true, false, Option, none, some, List, [], ◌∷◌,
}
use dtn7_gold.Bpv7.Endpoint.{EndpointId, ipn, dtn_none}
use dtn7_gold.Tcpcl.Messages.Types.{keepalive_message}
use dtn7_gold.Tcpcl.Stages.{
  Configuration, State, Session, StageError, second, establish, msg_in, handle_event, contact_start,
  contact_receive,
}
use dtn7_gold.Tcpcl.Stages.Agreement.{Knows, exchange, handshake, handshake-Knows}
use dtn7_gold.Tcpcl.Stages.Keepalive.{Runs, begin, round, Runs-heard}

abbrev peer : Bool → ℕ → State
peer active interval = record {
  configuration = record {
    active_peer = active;
    contact_flags = 0;
    keepalive = interval;
    segment_mru = 1000 + interval;
    transfer_mru = 5000;
    node_id = ipn (record { node = interval; service = 1 });
  };
  msg_out = [];
  exchange_msg_in = [];
  contact_flags = 0;
  keepalive = 0;
  segment_mtu = 0;
  transfer_mtu = 0;
  peer_node_id = dtn_none;
}

abbrev print : EndpointId → List ℕ
print (ipn e) = e.node ∷ e.service ∷ []
print other = []

abbrev parse : List ℕ → Option EndpointId
parse (n ∷ s ∷ []) = some (ipn (record { node = n; service = s }))
parse other = none

handshake-Knows_example :
    ((exchange contact_start contact_receive (peer true 30) (peer false 20)).active.1 ≡ none)
    × ((exchange contact_start contact_receive (peer true 30) (peer false 20)).passive.1 ≡ none)
    × ((handshake print parse (peer true 30) (peer false 20)).active.1 ≡ none)
    × ((handshake print parse (peer true 30) (peer false 20)).passive.1 ≡ none)
    × Knows
        (handshake print parse (peer true 30) (peer false 20)).active.0
        (peer true 30).configuration
        (peer false 20).configuration
    × Knows
        (handshake print parse (peer true 30) (peer false 20)).passive.0
        (peer false 20).configuration
        (peer true 30).configuration
    × ((handshake print parse (peer true 30) (peer false 20)).active.0.keepalive
        ≡ (handshake print parse (peer true 30) (peer false 20)).passive.0.keepalive)
handshake-Knows_example =
    handshake-Knows print parse (peer true 30) (peer false 20) refl refl refl refl

abbrev ready : State
ready = let p = peer true 30 in record p { keepalive = 20 }

abbrev after_message : Session
after_message = let se = establish 1000 ready in record se { last_receive = 5000 }

one_round : Runs 1000 ready after_message 5000
unfolding establish handle_event dtn7_gold.Tcpcl.Stages.handle_msg_in
one_round =
    round 5000 (1000 + 20 * second / 2) (msg_in keepalive_message) begin (omega arith) refl
      (omega arith) refl

Runs-heard_example :
    (5000 + 20 * second / 16 ≤ after_message.last_send + 20 * second)
    × (5000 ≤ after_message.last_receive + 20 * second + 20 * second / 2)
Runs-heard_example = Runs-heard 1000 5000 ready after_message refl one_round
