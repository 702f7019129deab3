-- ===== src/WebSocket/Replies.antt =====
-- The kinds of the messages that the queues of the connections have.
use mathlib.Core.List.{append-nil}
use advanced_golang_tutorial.Prelude.{
  All-snoc, ℕ, ◌+◌, ◌≡◌, refl, sym, ap, ◌∙◌, Bool, true, false, List, [], ◌∷◌, ◌++◌, Option, none,
  some, arith, All, if◌then◌else◌, ltb, length, ◌==◌, Text, Bool-cases, Option-cases, List-cases,
  inl, inr,
}
use advanced_golang_tutorial.WebSocket.Connections.{
  Connection, Message, MessageType, HandlerConfig, join, leave, chat, broadcast, private_message,
  heartbeat, error, system, other, new_connection, try_send, send_first,
}
use advanced_golang_tutorial.WebSocket.{
  Handler, Error, assign, find, enqueue, register, ensure_channel, enter_channel, join_channel,
  leave_channel, leave_channels, unregister, end_connection, close_connection, create_channel,
}
use advanced_golang_tutorial.WebSocket.Members.Channels.{leave_forms}
pub mod Sends
pub mod Handled
pub mod Answers

-- The kinds that the handler passes on to connections.
unfoldable pub is_passed_on : MessageType → Bool
is_passed_on chat = true
is_passed_on broadcast = true
is_passed_on private_message = true
is_passed_on error = true
is_passed_on join = false
is_passed_on leave = false
is_passed_on heartbeat = false
is_passed_on system = false
is_passed_on other = false

abbrev pub IsPassedOn : Message → Type 0
IsPassedOn m = is_passed_on m.kind ≡ true

abbrev pub ArePassedOn : List Message → Type 0
ArePassedOn = All IsPassedOn

abbrev pub IsPlain : Connection → Type 0
IsPlain c = ArePassedOn c.send_queue × ArePassedOn c.send_buffer

-- Every connection has only such messages, and so has the broadcast queue.
abbrev pub HasNoReply : Handler → Type 0
HasNoReply h =
    ((k : ℕ) (c : Connection) → h.store k ≡ some c → IsPlain c) × ArePassedOn h.broadcast_queue

-- A connection object is written.
pub assign-IsPlain :
    (store : ℕ → Option Connection) (k : ℕ) (c : Connection)
    → ((j : ℕ) (d : Connection) → store j ≡ some d → IsPlain d)
    → IsPlain c
    → (j : ℕ) (d : Connection) → assign store k c j ≡ some d
    → IsPlain d
assign-IsPlain store k c plain new j d e = elim (Bool-cases (k == j)) [
  | inl here ↦
      let same : some c ≡ some d = rw (here, assign) at e in
      let equal : c ≡ d = cc in rw (← equal) new
  | inr there ↦ let same : store j ≡ some d = rw (there, assign) at e in plain j d same
]

pub try_send-IsPlain :
    (cfg : HandlerConfig) (m : Message) (c : Connection)
    → is_passed_on m.kind ≡ true
    → IsPlain c
    → IsPlain (try_send cfg m c).1
unfolding try_send
try_send-IsPlain cfg m c h p = elim (Bool-cases c.closed) [
  | inl shut ↦ let kept : (try_send cfg m c).1 ≡ c = ground arith in rw kept p
  | inr opened ↦ elim (Bool-cases (ltb (length c.send_queue) cfg.send_buffer_size)) [
    | inl room ↦
        let sent : (try_send cfg m c).1 ≡ record c { send_queue = c.send_queue ++ m ∷ [] } =
          ground arith in
        rw sent (All-snoc IsPassedOn c.send_queue m p.0 h, p.1)
    | inr full ↦ let kept : (try_send cfg m c).1 ≡ c = ground arith in rw kept p
  ]
]

pub send_first-IsPlain :
    (cfg : HandlerConfig) (c : Connection) → IsPlain c → IsPlain (send_first cfg c)
unfolding send_first
send_first-IsPlain cfg c p = elim (List-cases c.send_queue) [
  | inl empty ↦ let kept : send_first cfg c ≡ c = ground arith in rw kept p
  | inr (m, (ms, waits)) ↦
      let queue : ArePassedOn (m ∷ ms) = (let q = p.0 in rw waits at q) in
      elim (Bool-cases (ltb (length c.send_buffer) cfg.send_buffer_size)) [
        | inl room ↦
            let sent : send_first cfg c
                ≡ record c { send_queue = ms; send_buffer = c.send_buffer ++ m ∷ [] } =
              ground arith in
            rw sent (queue.1, All-snoc IsPassedOn c.send_buffer m p.1 queue.0)
        | inr full ↦
            let lost : send_first cfg c ≡ record c { send_queue = ms } = ground arith in
            rw lost (queue.1, p.1)
      ]
]

pub find_store : (k : ℕ) (h : Handler) (c : Connection) → find k h ≡ some c → h.store k ≡ some c
unfolding find
find_store k h c e = ground arith

pub enqueue-HasNoReply : (m : Message) (h : Handler) → HasNoReply h → HasNoReply (enqueue m h).1
unfolding enqueue
enqueue-HasNoReply m h s =
    let store : (enqueue m h).1.store ≡ h.store = ground arith in
    let queue : (enqueue m h).1.broadcast_queue ≡ h.broadcast_queue = ground arith in
    rw (store, queue) s

pub register-HasNoReply : (now : ℕ) (h : Handler) → HasNoReply h → HasNoReply (register now h)
unfolding register new_connection
register-HasNoReply now h s =
    (assign-IsPlain h.store h.next_id (new_connection now) s.0 (tt, tt), s.1)

pub join_channel-HasNoReply :
    (k : ℕ) (name : Text) (h : Handler) → HasNoReply h → HasNoReply (join_channel k name h).1
unfolding join_channel enter_channel ensure_channel create_channel
join_channel-HasNoReply k name h s = elim (Option-cases (find k h)) [
  | inl missing ↦ let kept : (join_channel k name h).1 ≡ h = ground arith in rw kept s
  | inr (c, found) ↦
      let ready = ensure_channel name h in
      let store : ready.store ≡ h.store = ground arith in
      let queue : ready.broadcast_queue ≡ h.broadcast_queue = ground arith in
      let before : HasNoReply ready = rw (store, queue) s in
      let joined : (join_channel k name h).1 ≡ enter_channel k name c ready = ground arith in
      rw joined
        (assign-IsPlain ready.store k _ before.0 (s.0 k c (find_store k h c found)), before.1)
]

pub leave_channel-HasNoReply :
    (k : ℕ) (name : Text) (h : Handler) → HasNoReply h → HasNoReply (leave_channel k name h).1
unfolding leave_channel
leave_channel-HasNoReply k name h s = elim (Option-cases (find k h)) [
  | inl missing ↦ let kept : (leave_channel k name h).1 ≡ h = ground arith in rw kept s
  | inr (c, found) ↦ elim (Option-cases (h.channels name)) [
    | inl unknown ↦ let kept : (leave_channel k name h).1 ≡ h = ground arith in rw kept s
    | inr (ch, there) ↦
        rw (leave_forms k name h c ch found there)
          (assign-IsPlain h.store k _ s.0 (s.0 k c (find_store k h c found)), s.1)
  ]
]

leave_channels-HasNoReply :
    (k : ℕ) (names : List Text) (h : Handler) → HasNoReply h → HasNoReply (leave_channels k names h)
unfolding leave_channels
leave_channels-HasNoReply k [] h s = s
leave_channels-HasNoReply k (t ∷ ts) h s =
    leave_channels-HasNoReply k ts (leave_channel k t h).1 (leave_channel-HasNoReply k t h s)

end_connection-HasNoReply : (k : ℕ) (h : Handler) → HasNoReply h → HasNoReply (end_connection k h)
unfolding end_connection
end_connection-HasNoReply k h s = elim (Option-cases (h.store k)) [
  | inl missing ↦ rw (missing, end_connection) s
  | inr (c, found) ↦
      rw (found, end_connection)
        (assign-IsPlain h.store k (record c { is_open = false }) s.0 (s.0 k c found), s.1)
]

pub close_connection-HasNoReply :
    (k : ℕ) (h : Handler) → HasNoReply h → HasNoReply (close_connection k h)
unfolding close_connection unregister
close_connection-HasNoReply k h s = elim (Option-cases (h.store k)) [
  | inl missing ↦ let kept : close_connection k h ≡ h = ground arith in rw kept s
  | inr (c, found) ↦
      let out : HasNoReply (unregister k c h) = (
        assign-IsPlain h.store k (record c { is_active = false; closed = true }) s.0
            (s.0 k c found),
        s.1,
      ) in
      let left = leave_channels k c.channels (unregister k c h) in
      let ended =
        end_connection-HasNoReply k left
          (leave_channels-HasNoReply k c.channels (unregister k c h) out) in
      elim (Bool-cases c.is_active) [
        | inl active ↦
            let closed : close_connection k h ≡ end_connection k left = ground arith in
            rw closed ended
        | inr inactive ↦ let kept : close_connection k h ≡ h = ground arith in rw kept s
      ]
]
