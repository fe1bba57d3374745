-- ===== src/Tcpcl/Stages/Keepalive.antt =====
-- How long a session can be silent.
use dtn7_gold.Prelude.{
  ℕ, ◌+◌, ◌-◌, ◌*◌, ◌/◌, ◌≤◌, ◌<◌, ◌≡◌, refl, sym, ◌∙◌, subst, false, Option, none, some, arith,
  leb, ltb, ◌==◌, Bool-cases, inl, inr, leb-false→lt,
}
use mathlib.Core.Option.{some-injective}
use dtn7_gold.Tcpcl.Messages.Types.{
  Message, contact_header, session_init, session_termination, data_transmission,
  data_acknowledgement, transfer_refusal, keepalive_message, message_rejection,
}
use dtn7_gold.Tcpcl.Stages.{
  State, Session, StageError, Event, close_channel, tick, msg_in, exchange_out, second, interval,
  exchanged, establish, message_out, handle_keepalive, handle_msg_in, handle_event,
}

-- An event comes before the next tick or at its time, and a tick comes in time.
abbrev pub InTime : Event → ℕ → ℕ → Type 0
InTime tick now next = now ≡ next
InTime close_channel now next = now ≤ next
InTime (msg_in m) now next = now ≤ next
InTime (exchange_out m) now next = now ≤ next

-- A session that goes on, at a time.
pub data Runs (start : ℕ) (st : State) : Session → ℕ → Type 0 where
  begin : Runs start st (establish start st) start
  round :
      {se se' : Session} {before : ℕ} (now next : ℕ) (ev : Event)
      → Runs start st se before
      → before ≤ now
      → se.next_tick ≡ some next
      → InTime ev now next
      → handle_event now ev se ≡ (se', none)
      → Runs start st se' now

-- With the interval `k`: the next tick comes a sixteenth of it before the peer runs out of patience, and at
-- most one and a half of it after the last message of the peer.
pub record IsPunctual (k : ℕ) (se : Session) (now : ℕ) : Type 0 where
  pub next : ℕ
  pub scheduled : se.next_tick ≡ some next
  pub same : interval se ≡ k
  pub ahead : now ≤ next
  pub heard : next + k / 16 ≤ se.last_send + k
  pub hearing : next ≤ se.last_receive + k + k / 2
  pub sent_before : se.last_send ≤ now
  pub received_before : se.last_receive ≤ now

establish-IsPunctual :
    (start : ℕ) (st : State)
    → (st.keepalive == 0) ≡ false
    → IsPunctual (st.keepalive * second) (establish start st) start
unfolding establish
establish-IsPunctual start st on = record {
  next = start + st.keepalive * second / 2;
  scheduled = rw on;
  same = refl;
  ahead = omega arith;
  heard = omega arith;
  hearing = omega arith;
  sent_before = omega arith;
  received_before = omega arith;
}

module _ (k : ℕ) (se : Session) (before now : ℕ) (later : before ≤ now)
    (p : IsPunctual k se before) where
  -- Between two ticks, sending and receiving only help.
  message_out-IsPunctual : (m : Message) → now ≤ p.next → IsPunctual k (message_out now m se) now
  unfolding message_out
  message_out-IsPunctual m intime = record {
    next = p.next;
    scheduled = p.scheduled;
    same = p.same;
    ahead = intime;
    heard = omega (arith, p.heard, p.sent_before);
    hearing = p.hearing;
    sent_before = omega arith;
    received_before = omega (arith, p.received_before);
  }

  received-IsPunctual : now ≤ p.next → IsPunctual k (record se { last_receive = now }) now
  received-IsPunctual intime = record {
    next = p.next;
    scheduled = p.scheduled;
    same = p.same;
    ahead = intime;
    heard = p.heard;
    hearing = omega (arith, p.hearing, p.received_before);
    sent_before = omega (arith, p.sent_before);
    received_before = omega arith;
  }

  exchanged-IsPunctual :
      (m : Message)
      → now ≤ p.next
      → IsPunctual k (exchanged m (record se { last_receive = now })) now
  exchanged-IsPunctual m intime =
      let r = received-IsPunctual intime in
      record {
        next = r.next;
        scheduled = r.scheduled;
        same = r.same;
        ahead = r.ahead;
        heard = r.heard;
        hearing = r.hearing;
        sent_before = r.sent_before;
        received_before = r.received_before;
      }

  -- A tick in time, of a session that is not stalled.
  module _ (heard : now ≤ se.last_receive + interval se) where
    kept-IsPunctual :
        now ≡ p.next
        → IsPunctual k
            (record (message_out now keepalive_message se) {
              next_tick = some (now + interval se / 2);
            })
            now
    unfolding message_out
    kept-IsPunctual intime = record {
      next = now + interval se / 2;
      scheduled = refl;
      same = p.same;
      ahead = omega arith;
      heard = omega (arith, p.same);
      hearing = omega (arith, p.same, heard);
      sent_before = omega arith;
      received_before = omega (arith, p.received_before);
    }

    waited-IsPunctual :
        now + interval se / 8 < se.last_send + interval se
        → IsPunctual k
            (record se { next_tick = some (now + (se.last_send + interval se - now) / 2) })
            now
    waited-IsPunctual enough = record {
      next = now + (se.last_send + interval se - now) / 2;
      scheduled = refl;
      same = p.same;
      ahead = omega arith;
      heard = omega (arith, p.same, enough);
      hearing = omega (arith, p.same, heard, p.sent_before);
      sent_before = omega (arith, p.sent_before);
      received_before = omega (arith, p.received_before);
    }

  abbrev Goes : Session × Option StageError → Type 0
  Goes r = r.1 ≡ none → IsPunctual k r.0 now

  handle_keepalive-Goes : now ≡ p.next → Goes (handle_keepalive now se)
  unfolding handle_keepalive
  handle_keepalive-Goes intime = elim (Bool-cases (ltb (se.last_receive + interval se) now)) [
    | inl late ↦ rw late (λ h. cc)
    | inr heard ↦
        let in_time : now ≤ se.last_receive + interval se = ground arith in
        elim (Bool-cases (leb (se.last_send + interval se) (now + interval se / 8))) [
          | inl due ↦ rw (heard, due) (λ h. kept-IsPunctual in_time intime)
          | inr early ↦ rw (heard, early) (λ h. waited-IsPunctual in_time (leb-false→lt _ _ early))
        ]
  ]

  handle_msg_in-Goes : (m : Message) → now ≤ p.next → Goes (handle_msg_in now m se)
  unfolding handle_msg_in
  handle_msg_in-Goes (contact_header m) intime h = exchanged-IsPunctual (contact_header m) intime
  handle_msg_in-Goes (session_init m) intime h = cc
  handle_msg_in-Goes (session_termination m) intime h = cc
  handle_msg_in-Goes (data_transmission m) intime h =
      exchanged-IsPunctual (data_transmission m) intime
  handle_msg_in-Goes (data_acknowledgement m) intime h =
      exchanged-IsPunctual (data_acknowledgement m) intime
  handle_msg_in-Goes (transfer_refusal m) intime h =
      exchanged-IsPunctual (transfer_refusal m) intime
  handle_msg_in-Goes keepalive_message intime h = received-IsPunctual intime
  handle_msg_in-Goes (message_rejection m) intime h =
      exchanged-IsPunctual (message_rejection m) intime

  handle_event-Goes : (ev : Event) → InTime ev now p.next → Goes (handle_event now ev se)
  unfolding handle_event
  handle_event-Goes close_channel intime h = cc
  handle_event-Goes tick intime h = handle_keepalive-Goes intime h
  handle_event-Goes (msg_in m) intime h = handle_msg_in-Goes m intime h
  handle_event-Goes (exchange_out m) intime h = message_out-IsPunctual m intime

Runs-IsPunctual :
    {start : ℕ} {st : State} {now : ℕ} {se : Session}
    → (st.keepalive == 0) ≡ false
    → Runs start st se now
    → IsPunctual (st.keepalive * second) se now
Runs-IsPunctual {start} {st = st} on begin = establish-IsPunctual start st on
Runs-IsPunctual {st = st} on (round {se} {se'} {before} now next ev r later scheduled intime e) =
    let k = st.keepalive * second in
    let p = Runs-IsPunctual on r in
    let same : next ≡ p.next = some-injective next p.next (sym scheduled ∙ p.scheduled) in
    let goes =
      handle_event-Goes k se before now later p ev (subst (λ t. InTime ev now t) same intime) in
    subst (λ t. Goes k se before now later p t) e goes refl

-- In a session with keepalives whose ticker is in time: at any time, at least a sixteenth of the interval is
-- left before the peer has heard nothing for the interval, and the peer has been heard within one and a
-- half intervals.
pub Runs-heard :
    (start now : ℕ) (st : State) (se : Session)
    → (st.keepalive == 0) ≡ false
    → Runs start st se now
    → (now + st.keepalive * second / 16 ≤ se.last_send + st.keepalive * second)
      × (now ≤ se.last_receive + st.keepalive * second + st.keepalive * second / 2)
Runs-heard start now st se on r =
    let p = Runs-IsPunctual on r in
    (omega (arith, p.ahead, p.heard), omega (arith, p.ahead, p.hearing))
