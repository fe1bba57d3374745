-- ===== src/Tcpcl/Stages.antt =====
-- pkg/cla/tcpclv4/internal/stages: the stages of a session. A stage waits for a message or for its close
-- channel, which is its input here; what it sends is appended to `msg_out`. Printing and parsing the node
-- ID are parameters. Times are nanoseconds.
pub mod Agreement
pub mod Tests
pub mod Keepalive
use dtn7_gold.Prelude.{
  ℕ, ◌+◌, ◌-◌, ◌*◌, ◌/◌, ◌≤◌, ◌≡◌, Bool, true, false, Option, none, some, List, [], ◌∷◌, ◌++◌, min,
  leb, ltb, ◌==◌, if◌then◌else◌,
}
use dtn7_gold.Bpv7.Endpoint.{EndpointId}
use dtn7_gold.Tcpcl.Messages.Types.{
  ContactHeader, SessionInitMessage, SessionTerminationMessage, Message, contact_header,
  session_init, session_termination, data_transmission, data_acknowledgement, transfer_refusal,
  keepalive_message, message_rejection,
}

pub record Configuration : Type 0 where
  pub active_peer : Bool
  pub contact_flags : ℕ
  pub keepalive : ℕ
  pub segment_mru : ℕ
  pub transfer_mru : ℕ
  pub node_id : EndpointId

-- `State`. Its field `StageError` is the result of a stage here.
pub record State : Type 0 where
  pub configuration : Configuration
  pub msg_out : List Message
  pub exchange_msg_in : List Message
  pub contact_flags : ℕ
  pub keepalive : ℕ
  pub segment_mtu : ℕ
  pub transfer_mtu : ℕ
  pub peer_node_id : EndpointId

pub data StageError : Type 0 where
  stage_close invalid_message invalid_node_id stalled unexpected_init : StageError

pub data Input : Type 0 where
  closed : Input
  received : Message → Input

abbrev pub sent : Message → State → State
sent m st = record st { msg_out = st.msg_out ++ m ∷ [] }

abbrev pub own_header : State → Message
own_header st = contact_header (record { flags = st.configuration.contact_flags })

-- `ContactStage`: what is sent before the wait, and what the input does.
unfoldable pub contact_start : State → State
contact_start st = if st.configuration.active_peer then sent (own_header st) st else st

unfoldable pub contact_receive : State → Input → State × Option StageError
contact_receive st closed = (st, some stage_close)
contact_receive st (received (contact_header m)) =
    let st' = record st { contact_flags = m.flags } in
    (if st.configuration.active_peer then st' else sent (own_header st) st', none)
contact_receive st (received other) = (st, some invalid_message)

module _ (print : EndpointId → List ℕ) (parse : List ℕ → Option EndpointId) where
  abbrev pub own_init : State → Message
  own_init st = session_init (record {
    keepalive_interval = st.configuration.keepalive;
    segment_mru = st.configuration.segment_mru;
    transfer_mru = st.configuration.transfer_mru;
    node_id = print st.configuration.node_id;
  })

  -- `SessInitStage`.
  unfoldable pub init_start : State → State
  init_start st = if st.configuration.active_peer then sent (own_init st) st else st

  -- After an error the state has the node ID that it had, which no stage reads then.
  abbrev pub with_peer : State → Option EndpointId → State × Option StageError
  with_peer st none = (st, some invalid_node_id)
  with_peer st (some e) = (record st { peer_node_id = e }, none)

  abbrev pub negotiated : State → SessionInitMessage → State
  negotiated st m = record st {
    keepalive = min st.configuration.keepalive m.keepalive_interval;
    segment_mtu = m.segment_mru;
    transfer_mtu = m.transfer_mru;
  }

  unfoldable pub init_receive : State → Input → State × Option StageError
  init_receive st closed = (st, some stage_close)
  init_receive st (received (session_init m)) =
      let st' = if st.configuration.active_peer then st else sent (own_init st) st in
      with_peer (negotiated st' m) (parse m.node_id)
  init_receive st (received other) = (st, some invalid_message)

-- `SessEstablishedStage`; there is a tick to come if keepalives are enabled.
pub record Session : Type 0 where
  pub state : State
  pub last_receive : ℕ
  pub last_send : ℕ
  pub next_tick : Option ℕ

abbrev pub second : ℕ
second = 1000000000

-- The negotiated interval.
abbrev pub interval : Session → ℕ
interval se = se.state.keepalive * second

unfoldable pub establish : ℕ → State → Session
establish now st = record {
  state = st;
  last_receive = now;
  last_send = now;
  next_tick = if st.keepalive == 0 then none else some (now + st.keepalive * second / 2);
}

unfoldable pub message_out : ℕ → Message → Session → Session
message_out now m se = record se { state = sent m se.state; last_send = now }

-- `handleKeepalive`.
unfoldable pub handle_keepalive : ℕ → Session → Session × Option StageError
unfolding message_out
handle_keepalive now se =
    let k = interval se in
    let idle = record (message_out now keepalive_message se) { next_tick = some (now + k / 2) } in
    if ltb (se.last_receive + k) now
    then (se, some stalled)
    else if leb (se.last_send + k) (now + k / 8)
    then (idle, none)
    else (record se { next_tick = some (now + (se.last_send + k - now) / 2) }, none)

abbrev pub exchanged : Message → Session → Session
exchanged m se =
    let st = se.state in
    record se { state = record st { exchange_msg_in = st.exchange_msg_in ++ m ∷ [] } }

-- `handleMsgIn`, with the reply to SESS_TERM.
unfoldable pub handle_msg_in : ℕ → Message → Session → Session × Option StageError
unfolding message_out
handle_msg_in now (session_init m) se = (record se { last_receive = now }, some unexpected_init)
handle_msg_in now (session_termination m) se = (
  message_out now (session_termination (record { flags = 1; reason_code = 0 }))
      (record se { last_receive = now }),
  some stage_close,
)
handle_msg_in now keepalive_message se = (record se { last_receive = now }, none)
handle_msg_in now other se = (exchanged other (record se { last_receive = now }), none)

pub data Event : Type 0 where
  close_channel tick : Event
  msg_in exchange_out : Message → Event

-- A round of `Handle` at the time `now`.
unfoldable pub handle_event : ℕ → Event → Session → Session × Option StageError
unfolding message_out handle_keepalive handle_msg_in
handle_event now close_channel se = (
  message_out now (session_termination (record { flags = 0; reason_code = 0 })) se,
  some stage_close,
)
handle_event now tick se = handle_keepalive now se
handle_event now (msg_in m) se = handle_msg_in now m se
handle_event now (exchange_out m) se = (message_out now m se, none)
