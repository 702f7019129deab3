-- ===== src/WebSocket/Members/Steps.antt =====
-- No step of the handler lets a connection that was left behind out of its channel.
use advanced_golang_tutorial.Prelude.{
  ℕ, ◌<◌, ◌≡◌, true, List, [], ◌∷◌, none, some, arith, Text, Bool-cases, Option-cases, List-cases,
  inl, inr, add_i64,
}
use advanced_golang_tutorial.WebSocket.Connections.{Connection, Message, system}
use advanced_golang_tutorial.WebSocket.{
  Handler, find, start, enqueue, send_message, register, handle_connection, receive,
  close_connection,
}
use advanced_golang_tutorial.WebSocket.Workers.{send_to_members, dispatch, process_message}
use advanced_golang_tutorial.WebSocket.Runs.{
  Event, starts, connects, receives, sends, works, broadcasts, writes, closes, checks, work,
  handle_broadcast, write, late, close_registered, check_heartbeats, step, run,
}
use advanced_golang_tutorial.WebSocket.Members.{
  IsLeftBehind, KeepsRooms, KeepsRooms-IsLeftBehind, has_member, register-IsLeftBehind,
}
use advanced_golang_tutorial.WebSocket.Members.Channels.{
  close_connection-IsLeftBehind, close_leaves_behind,
}
use advanced_golang_tutorial.WebSocket.Members.Queues.{
  KeepsRooms-refl, enqueue-KeepsRooms, send_to_members-KeepsRooms,
}
use advanced_golang_tutorial.WebSocket.Members.Handlers.{dispatch-IsLeftBehind}

module _ (k : ℕ) (name : Text) where
  work-IsLeftBehind :
      (now : ℕ) (h : Handler) → IsLeftBehind k name h → IsLeftBehind k name (work now h)
  unfolding work process_message
  work-IsLeftBehind now h g = elim (List-cases h.message_queue) [
    | inl empty ↦ let kept : work now h ≡ h = ground arith in rw kept g
    | inr (m, (ms, waits)) ↦
        let taken = record h { message_queue = ms } in
        let counted = record taken {
          stats = record h.stats { processed = add_i64 h.stats.processed 1 };
        } in
        let works : work now h ≡ dispatch now m.kind m counted = ground arith in
        rw works (
          dispatch-IsLeftBehind k name now m.kind m counted
            (record { made = g.made; unregistered = g.unregistered; member = g.member }))
  ]

  handle_broadcast-KeepsRooms : (h : Handler) → KeepsRooms h (handle_broadcast h)
  unfolding handle_broadcast
  handle_broadcast-KeepsRooms h = elim (List-cases h.broadcast_queue) [
    | inl empty ↦ let kept : handle_broadcast h ≡ h = ground arith in rw kept (KeepsRooms-refl h)
    | inr (m, (ms, waits)) ↦
        let taken = record h { broadcast_queue = ms } in
        let sends : handle_broadcast h ≡ send_to_members m h.connections taken = ground arith in
        let s = send_to_members-KeepsRooms m h.connections taken in
        rw sends (record {
          same_next = s.same_next;
          same_connections = s.same_connections;
          same_channels = s.same_channels;
        })
  ]

  write-KeepsRooms : (j : ℕ) (h : Handler) → KeepsRooms h (write j h)
  unfolding write
  write-KeepsRooms j h = record {
    same_next = ground arith;
    same_connections = ground arith;
    same_channels = ground arith;
  }

  start-KeepsRooms : (h : Handler) → KeepsRooms h (start h).1
  unfolding start
  start-KeepsRooms h = record {
    same_next = ground arith;
    same_connections = ground arith;
    same_channels = ground arith;
  }

  send_message-KeepsRooms : (m : Message) (h : Handler) → KeepsRooms h (send_message m h).1
  unfolding send_message enqueue
  send_message-KeepsRooms m h = record {
    same_next = ground arith;
    same_connections = ground arith;
    same_channels = ground arith;
  }

  receive-KeepsRooms : (j : ℕ) (m : Message) (h : Handler) → KeepsRooms h (receive j m h)
  unfolding receive enqueue
  receive-KeepsRooms j m h = record {
    same_next = ground arith;
    same_connections = ground arith;
    same_channels = ground arith;
  }

  handle_connection-IsLeftBehind :
      (now : ℕ) (h : Handler)
      → IsLeftBehind k name h
      → IsLeftBehind k name (handle_connection now h).1
  unfolding handle_connection
  handle_connection-IsLeftBehind now h g = elim (Bool-cases h.is_running) [
    | inl up ↦
        let notice : Message = record {
          kind = system;
          channel = none;
          sender = none;
          to = some h.next_id;
        } in
        let made : (handle_connection now h).1 ≡ (enqueue notice (register now h)).1 =
          ground arith in
        rw made (
          KeepsRooms-IsLeftBehind k name (register now h) _
            (enqueue-KeepsRooms notice (register now h)) (register-IsLeftBehind k name now h g))
    | inr down ↦ let kept : (handle_connection now h).1 ≡ h = ground arith in rw kept g
  ]

  close_registered-IsLeftBehind :
      (js : List ℕ) (h : Handler)
      → IsLeftBehind k name h
      → IsLeftBehind k name (close_registered js h)
  unfolding close_registered
  close_registered-IsLeftBehind [] h g = g
  close_registered-IsLeftBehind (j ∷ js) h g = elim (Option-cases (find j h)) [
    | inl missing ↦
        let skips : close_registered (j ∷ js) h ≡ close_registered js h = ground arith in
        rw skips (close_registered-IsLeftBehind js h g)
    | inr (c, found) ↦
        let closes : close_registered (j ∷ js) h ≡ close_registered js (close_connection j h) =
          ground arith in
        rw closes (
          close_registered-IsLeftBehind js (close_connection j h)
            (close_connection-IsLeftBehind k j name h g))
  ]

  step-IsLeftBehind :
      (e : Event) (h : Handler) → IsLeftBehind k name h → IsLeftBehind k name (step e h)
  unfolding step check_heartbeats
  step-IsLeftBehind starts h g = KeepsRooms-IsLeftBehind k name h _ (start-KeepsRooms h) g
  step-IsLeftBehind (connects now) h g = handle_connection-IsLeftBehind now h g
  step-IsLeftBehind (receives j m) h g =
      KeepsRooms-IsLeftBehind k name h _ (receive-KeepsRooms j m h) g
  step-IsLeftBehind (sends m) h g =
      KeepsRooms-IsLeftBehind k name h _ (send_message-KeepsRooms m h) g
  step-IsLeftBehind (works now) h g = work-IsLeftBehind now h g
  step-IsLeftBehind broadcasts h g =
      KeepsRooms-IsLeftBehind k name h _ (handle_broadcast-KeepsRooms h) g
  step-IsLeftBehind (writes j) h g = KeepsRooms-IsLeftBehind k name h _ (write-KeepsRooms j h) g
  step-IsLeftBehind (closes j) h g = close_connection-IsLeftBehind k j name h g
  step-IsLeftBehind (checks now) h g = close_registered-IsLeftBehind (late now h h.connections) h g

  -- A connection that was made, is no longer registered and is a member of a channel is so after
  -- every run: nothing takes a closed connection out of its channels.
  pub run-IsLeftBehind :
      (es : List Event) (h : Handler) → IsLeftBehind k name h → IsLeftBehind k name (run es h)
  unfolding run
  run-IsLeftBehind [] h g = g
  run-IsLeftBehind (e ∷ es) h g = run-IsLeftBehind es (step e h) (step-IsLeftBehind e h g)

-- A connection that is closed stays a member of every channel that it was a member of, after any run
-- that begins with the close and in which closes, messages and checks come one after the other:
-- closeConnection takes the connection out of the map before it leaves the channels, and leaveChannel
-- fails for a connection that is not in the map. A leaveChannel that found the connection before the
-- close and goes on after it is not in such a run.
pub closed_stays_member :
    (k : ℕ) (name : Text) (c : Connection) (es : List Event) (h : Handler)
    → k < h.next_id
    → h.store k ≡ some c
    → c.is_active ≡ true
    → has_member k (h.channels name) ≡ true
    → has_member k ((run es (close_connection k h)).channels name) ≡ true
closed_stays_member k name c es h made found active member =
    (run-IsLeftBehind k name es (close_connection k h)
      (close_leaves_behind k name c h made found active member)).member
