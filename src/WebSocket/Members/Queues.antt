-- ===== src/WebSocket/Members/Queues.antt =====
-- The operations that change no registration and no channel.
use advanced_golang_tutorial.Prelude.{
  ℕ, ◌≡◌, refl, List, [], ◌∷◌, Option, none, some, arith, ltb, length, Text, Bool-cases,
  Option-cases, inl, inr,
}
use advanced_golang_tutorial.WebSocket.Connections.{Connection, Message, error}
use advanced_golang_tutorial.WebSocket.{Handler, HandlerStats, Error, find, enqueue}
use advanced_golang_tutorial.WebSocket.Workers.{
  send_through, send_registered, send_to_connection, send_to_member, send_to_members,
  send_to_channel, send_error_message, succeed, fail, handle_broadcast_message, after_private,
  handle_private_message, beat, handle_heartbeat_message,
}
use advanced_golang_tutorial.WebSocket.Members.{KeepsRooms, KeepsRooms-trans}

pub KeepsRooms-refl : (h : Handler) → KeepsRooms h h
KeepsRooms-refl h = record { same_next = refl; same_connections = refl; same_channels = refl }

-- Operations on the queues, the statistics and the connection objects.
pub enqueue-KeepsRooms : (m : Message) (h : Handler) → KeepsRooms h (enqueue m h).1
unfolding enqueue
enqueue-KeepsRooms m h = record {
  same_next = ground arith;
  same_connections = ground arith;
  same_channels = ground arith;
}

pub send_through-KeepsRooms :
    (k : ℕ) (c : Connection) (m : Message) (h : Handler) → KeepsRooms h (send_through k c m h).1
unfolding send_through
send_through-KeepsRooms k c m h = record {
  same_next = refl;
  same_connections = refl;
  same_channels = refl;
}

pub send_to_connection-KeepsRooms :
    (to : Option ℕ) (m : Message) (h : Handler) → KeepsRooms h (send_to_connection to m h).1
unfolding send_to_connection send_registered
send_to_connection-KeepsRooms none m h = KeepsRooms-refl h
send_to_connection-KeepsRooms (some k) m h = elim (Option-cases (find k h)) [
  | inl missing ↦
      let kept : (send_registered k m h).1 ≡ h = ground arith in rw kept (KeepsRooms-refl h)
  | inr (c, found) ↦
      let sent : (send_registered k m h).1 ≡ (send_through k c m h).1 = ground arith in
      rw sent (send_through-KeepsRooms k c m h)
]

pub send_to_member-KeepsRooms :
    (m : Message) (k : ℕ) (h : Handler) → KeepsRooms h (send_to_member m k h)
unfolding send_to_member send_through
send_to_member-KeepsRooms m k h = record {
  same_next = ground arith;
  same_connections = ground arith;
  same_channels = ground arith;
}

pub send_to_members-KeepsRooms :
    (m : Message) (ks : List ℕ) (h : Handler) → KeepsRooms h (send_to_members m ks h)
unfolding send_to_members
send_to_members-KeepsRooms m [] h = KeepsRooms-refl h
send_to_members-KeepsRooms m (k ∷ ks) h =
    KeepsRooms-trans h (send_to_member m k h) (send_to_members m ks (send_to_member m k h))
      (send_to_member-KeepsRooms m k h) (send_to_members-KeepsRooms m ks (send_to_member m k h))

-- The statistics besides.
pub count-KeepsRooms :
    (h h' : Handler) (stats : HandlerStats)
    → KeepsRooms h h'
    → KeepsRooms h (record h' { stats = stats })
count-KeepsRooms h h' stats s = record {
  same_next = s.same_next;
  same_connections = s.same_connections;
  same_channels = s.same_channels;
}

pub send_error_message-KeepsRooms :
    (to : Option ℕ) (h : Handler) → KeepsRooms h (send_error_message to h)
unfolding send_error_message
send_error_message-KeepsRooms to h = count-KeepsRooms h _ _ (
    send_to_connection-KeepsRooms to
      (record { kind = error; channel = none; sender = none; to = to }) h)

pub succeed-KeepsRooms : (h h' : Handler) → KeepsRooms h h' → KeepsRooms h (succeed h')
unfolding succeed
succeed-KeepsRooms h h' s = count-KeepsRooms h h' _ s

pub fail-KeepsRooms : (h h' : Handler) → KeepsRooms h h' → KeepsRooms h (fail h')
unfolding fail
fail-KeepsRooms h h' s = count-KeepsRooms h h' _ s

pub handle_broadcast_message-KeepsRooms :
    (m : Message) (h : Handler) → KeepsRooms h (handle_broadcast_message m h)
unfolding handle_broadcast_message succeed
handle_broadcast_message-KeepsRooms m h =
    elim (Bool-cases (ltb (length h.broadcast_queue) h.config.message_buffer_size)) [
      | inl room ↦
          rw (room, handle_broadcast_message)
            (record { same_next = refl; same_connections = refl; same_channels = refl })
      | inr full ↦
          rw (full, handle_broadcast_message)
            (fail-KeepsRooms h (send_error_message m.sender h)
              (send_error_message-KeepsRooms m.sender h))
    ]

pub after_private-KeepsRooms :
    (m : Message) (h : Handler) (e : Option Error) (h' : Handler)
    → KeepsRooms h h'
    → KeepsRooms h (after_private m (e, h'))
unfolding after_private
after_private-KeepsRooms m h (some e) h' s =
    KeepsRooms-trans h h' (send_error_message m.sender h') s
      (send_error_message-KeepsRooms m.sender h')
after_private-KeepsRooms m h none h' s = succeed-KeepsRooms h _ (count-KeepsRooms h h' _ s)

pub handle_private_message-KeepsRooms :
    (m : Message) (h : Handler) → KeepsRooms h (handle_private_message m h)
unfolding handle_private_message
handle_private_message-KeepsRooms m h = elim (Option-cases m.to) [
  | inl empty ↦
      let refused : handle_private_message m h ≡ send_error_message m.sender h = ground arith in
      rw refused (send_error_message-KeepsRooms m.sender h)
  | inr (k, to) ↦
      let sent : handle_private_message m h ≡ after_private m (send_to_connection (some k) m h) =
        ground arith in
      rw sent (
        after_private-KeepsRooms m h (send_to_connection (some k) m h).0
          (send_to_connection (some k) m h).1 (send_to_connection-KeepsRooms (some k) m h))
]

pub beat-KeepsRooms : (now k : ℕ) (m : Message) (h : Handler) → KeepsRooms h (beat now k m h)
unfolding beat enqueue
beat-KeepsRooms now k m h = record {
  same_next = ground arith;
  same_connections = ground arith;
  same_channels = ground arith;
}

pub handle_heartbeat_message-KeepsRooms :
    (now : ℕ) (m : Message) (h : Handler) → KeepsRooms h (handle_heartbeat_message now m h)
unfolding handle_heartbeat_message
handle_heartbeat_message-KeepsRooms now m h = elim (Option-cases m.sender) [
  | inl empty ↦
      let kept : handle_heartbeat_message now m h ≡ succeed h = ground arith in
      rw kept (succeed-KeepsRooms h h (KeepsRooms-refl h))
  | inr (k, from) ↦
      let beats : handle_heartbeat_message now m h ≡ succeed (beat now k m h) = ground arith in
      rw beats (succeed-KeepsRooms h (beat now k m h) (beat-KeepsRooms now k m h))
]

pub send_to_channel-KeepsRooms :
    (t : Text) (m : Message) (h : Handler) → KeepsRooms h (send_to_channel t m h).1
unfolding send_to_channel
send_to_channel-KeepsRooms t m h = elim (Option-cases (h.channels t)) [
  | inl missing ↦
      let kept : (send_to_channel t m h).1 ≡ h = ground arith in rw kept (KeepsRooms-refl h)
  | inr (ch, found) ↦
      let sent : (send_to_channel t m h).1 ≡ send_to_members m ch.members h = ground arith in
      rw sent (send_to_members-KeepsRooms m ch.members h)
]
