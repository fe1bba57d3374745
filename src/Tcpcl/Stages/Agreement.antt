-- ===== src/Tcpcl/Stages/Agreement.antt =====
-- Two peers that go through the first two stages with each other.
use dtn7_gold.Prelude.{
  ℕ, ◌≡◌, refl, true, false, Option, none, some, List, [], ◌∷◌, ◌++◌, min, arith,
}
use dtn7_gold.Bpv7.Endpoint.{EndpointId}
use dtn7_gold.Tcpcl.Messages.Types.{Message, SessionInitMessage}
use dtn7_gold.Tcpcl.Stages.{
  Configuration, State, StageError, sent, own_header, own_init, negotiated, Input, closed, received,
  contact_start, contact_receive, init_start, init_receive,
}

-- The newest message that a peer has sent; nothing if it has sent none.
abbrev pub last_sent : List Message → Input
last_sent [] = closed
last_sent (m ∷ []) = received m
last_sent (m ∷ k ∷ ms) = last_sent (k ∷ ms)

pub record Exchange : Type 0 where
  pub active : State × Option StageError
  pub passive : State × Option StageError

-- The active peer sends, the passive one gets that and answers, and the active one gets the answer.
unfoldable pub exchange :
    (State → State) → (State → Input → State × Option StageError) → State → State → Exchange
exchange start receive a b =
    let a1 = start a in
    let b2 = receive (start b) (last_sent a1.msg_out) in
    record { active = receive a1 (last_sent b2.0.msg_out); passive = b2 }

last_sent-append : (ms : List Message) (m : Message) → last_sent (ms ++ m ∷ []) ≡ received m
last_sent-append [] m = refl
last_sent-append (x ∷ []) m = refl
last_sent-append (x ∷ y ∷ ms) m = last_sent-append (y ∷ ms) m

-- What one peer knows of a session with a peer of the other configuration.
pub record Knows (st : State) (own other : Configuration) : Type 0 where
  pub keepalive : st.keepalive ≡ min own.keepalive other.keepalive
  pub segment_mtu : st.segment_mtu ≡ other.segment_mru
  pub transfer_mtu : st.transfer_mtu ≡ other.transfer_mru
  pub peer_node_id : st.peer_node_id ≡ other.node_id
  pub contact_flags : st.contact_flags ≡ other.contact_flags

exchange_contact :
    (a b : State)
    → a.configuration.active_peer ≡ true
    → b.configuration.active_peer ≡ false
    → exchange contact_start contact_receive a b ≡ record {
      active =
          (record (sent (own_header a) a) { contact_flags = b.configuration.contact_flags }, none);
      passive =
          (sent (own_header b) (record b { contact_flags = a.configuration.contact_flags }), none);
    }
unfolding exchange contact_start contact_receive
exchange_contact a b ha hb =
    rw
      (ha, last_sent-append a.msg_out (own_header a), hb, last_sent-append b.msg_out (own_header b))

module _ (print : EndpointId → List ℕ) (parse : List ℕ → Option EndpointId) where
  abbrev own : State → SessionInitMessage
  own st = record {
    keepalive_interval = st.configuration.keepalive;
    segment_mru = st.configuration.segment_mru;
    transfer_mru = st.configuration.transfer_mru;
    node_id = print st.configuration.node_id;
  }

  exchange_init :
      (a b : State)
      → a.configuration.active_peer ≡ true
      → b.configuration.active_peer ≡ false
      → parse (print a.configuration.node_id) ≡ some a.configuration.node_id
      → parse (print b.configuration.node_id) ≡ some b.configuration.node_id
      → exchange (init_start print parse) (init_receive print parse) a b ≡ record {
        active = (
          record (negotiated print parse (sent (own_init print parse a) a) (own b)) {
            peer_node_id = b.configuration.node_id;
          },
          none,
        );
        passive = (
          record (negotiated print parse (sent (own_init print parse b) b) (own a)) {
            peer_node_id = a.configuration.node_id;
          },
          none,
        );
      }
  unfolding exchange init_start init_receive
  exchange_init a b ha hb pa pb = simp (ha, hb, last_sent-append, pa, pb)

  -- Both stages, one after the other.
  abbrev pub handshake : State → State → Exchange
  handshake a b =
      let c = exchange contact_start contact_receive a b in
      exchange (init_start print parse) (init_receive print parse) c.active.0 c.passive.0

  -- An active and a passive peer, whose node IDs are read back as they are printed, go through the contact
  -- and then the session initialisation without an error. Both have the smaller keepalive interval then,
  -- and each has the other's node ID, flags and largest sizes.
  pub handshake-Knows :
      (a b : State)
      → a.configuration.active_peer ≡ true
      → b.configuration.active_peer ≡ false
      → parse (print a.configuration.node_id) ≡ some a.configuration.node_id
      → parse (print b.configuration.node_id) ≡ some b.configuration.node_id
      → ((exchange contact_start contact_receive a b).active.1 ≡ none)
        × ((exchange contact_start contact_receive a b).passive.1 ≡ none)
        × ((handshake a b).active.1 ≡ none)
        × ((handshake a b).passive.1 ≡ none)
        × Knows (handshake a b).active.0 a.configuration b.configuration
        × Knows (handshake a b).passive.0 b.configuration a.configuration
        × ((handshake a b).active.0.keepalive ≡ (handshake a b).passive.0.keepalive)
  handshake-Knows a b ha hb pa pb =
      let contact = exchange_contact a b ha hb in
      let init =
        exchange_init
          (record (sent (own_header a) a) { contact_flags = b.configuration.contact_flags })
          (sent (own_header b) (record b { contact_flags = a.configuration.contact_flags })) ha hb
          pa pb in
      rw (contact, init)
        (
          refl,
          refl,
          refl,
          refl,
          record {
            keepalive = refl;
            segment_mtu = refl;
            transfer_mtu = refl;
            peer_node_id = refl;
            contact_flags = refl;
          },
          record {
            keepalive = refl;
            segment_mtu = refl;
            transfer_mtu = refl;
            peer_node_id = refl;
            contact_flags = refl;
          },
          omega arith,
        )
