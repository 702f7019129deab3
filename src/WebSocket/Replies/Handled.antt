-- ===== src/WebSocket/Replies/Handled.antt =====
-- What the workers send to connections.
use advanced_golang_tutorial.Prelude.{
  All-snoc, ℕ, ◌≡◌, ap, true, Option, none, some, arith, ltb, length, Text, Bool-cases,
  Option-cases, inl, inr,
}
use advanced_golang_tutorial.WebSocket.Connections.{
  Message, MessageType, join, leave, chat, broadcast, private_message, heartbeat, error, system,
  other,
}
use advanced_golang_tutorial.WebSocket.{
  Handler, Error, assign, find, enqueue, join_channel, leave_channel,
}
use advanced_golang_tutorial.WebSocket.Workers.{
  send_to_connection, send_to_channel, add_to_channel_history, send_error_message, succeed, fail,
  answer, handle_join_message, handle_leave_message, after_chat, handle_chat_message,
  handle_broadcast_message, after_private, handle_private_message, beat, handle_heartbeat_message,
  handle_unknown_message, dispatch,
}
use advanced_golang_tutorial.WebSocket.Replies.{
  is_passed_on, HasNoReply, IsPassedOn, assign-IsPlain, find_store, enqueue-HasNoReply,
  join_channel-HasNoReply, leave_channel-HasNoReply,
}
use advanced_golang_tutorial.WebSocket.Replies.Sends.{
  send_to_connection-HasNoReply, send_to_channel-HasNoReply, send_error_message-HasNoReply,
}

answer-HasNoReply :
    (kind : MessageType) (m : Message) (e : Option Error) (h : Handler)
    → HasNoReply h
    → HasNoReply (answer kind m (e, h))
unfolding answer succeed
answer-HasNoReply kind m (some e) h s = send_error_message-HasNoReply m.sender h s
answer-HasNoReply kind m none h s = enqueue-HasNoReply _ h s

handle_join_message-HasNoReply :
    (m : Message) (h : Handler) → HasNoReply h → HasNoReply (handle_join_message m h)
unfolding handle_join_message
handle_join_message-HasNoReply m h s = elim (Option-cases m.sender) [
  | inl empty ↦
      let refused : handle_join_message m h ≡ send_error_message none h = ground arith in
      rw refused (send_error_message-HasNoReply none h s)
  | inr (k, from) ↦ elim (Option-cases m.channel) [
    | inl missing ↦
        let refused : handle_join_message m h ≡ send_error_message m.sender h = ground arith in
        rw refused (send_error_message-HasNoReply m.sender h s)
    | inr (t, given) ↦
        let joins : handle_join_message m h ≡ answer system m (join_channel k t h) = ground arith in
        rw joins (
          answer-HasNoReply system m (join_channel k t h).0 (join_channel k t h).1
            (join_channel-HasNoReply k t h s))
  ]
]

handle_leave_message-HasNoReply :
    (m : Message) (h : Handler) → HasNoReply h → HasNoReply (handle_leave_message m h)
unfolding handle_leave_message
handle_leave_message-HasNoReply m h s = elim (Option-cases m.sender) [
  | inl empty ↦
      let refused : handle_leave_message m h ≡ send_error_message none h = ground arith in
      rw refused (send_error_message-HasNoReply none h s)
  | inr (k, from) ↦ elim (Option-cases m.channel) [
    | inl missing ↦
        let refused : handle_leave_message m h ≡ send_error_message m.sender h = ground arith in
        rw refused (send_error_message-HasNoReply m.sender h s)
    | inr (t, given) ↦
        let leaves : handle_leave_message m h ≡ answer system m (leave_channel k t h) =
          ground arith in
        rw leaves (
          answer-HasNoReply system m (leave_channel k t h).0 (leave_channel k t h).1
            (leave_channel-HasNoReply k t h s))
  ]
]

add_to_channel_history-HasNoReply :
    (t : Text) (m : Message) (h : Handler)
    → HasNoReply h
    → HasNoReply (add_to_channel_history t m h)
unfolding add_to_channel_history
add_to_channel_history-HasNoReply t m h s =
    let store : (add_to_channel_history t m h).store ≡ h.store = ground arith in
    let queue : (add_to_channel_history t m h).broadcast_queue ≡ h.broadcast_queue = ground arith in
    rw (store, queue) s

after_chat-HasNoReply :
    (t : Text) (m : Message) (e : Option Error) (h : Handler)
    → HasNoReply h
    → HasNoReply (after_chat t m (e, h))
unfolding after_chat succeed
after_chat-HasNoReply t m (some e) h s = send_error_message-HasNoReply m.sender h s
after_chat-HasNoReply t m none h s = add_to_channel_history-HasNoReply t m h s

handle_chat_message-HasNoReply :
    (m : Message) (h : Handler)
    → is_passed_on m.kind ≡ true
    → HasNoReply h
    → HasNoReply (handle_chat_message m h)
unfolding handle_chat_message
handle_chat_message-HasNoReply m h passed s = elim (Option-cases m.channel) [
  | inl missing ↦
      let refused : handle_chat_message m h ≡ send_error_message m.sender h = ground arith in
      rw refused (send_error_message-HasNoReply m.sender h s)
  | inr (t, given) ↦
      let goes : handle_chat_message m h ≡ after_chat t m (send_to_channel t m h) = ground arith in
      rw goes (
        after_chat-HasNoReply t m (send_to_channel t m h).0 (send_to_channel t m h).1
          (send_to_channel-HasNoReply t m h passed s))
]

handle_broadcast_message-HasNoReply :
    (m : Message) (h : Handler)
    → is_passed_on m.kind ≡ true
    → HasNoReply h
    → HasNoReply (handle_broadcast_message m h)
unfolding handle_broadcast_message succeed fail
handle_broadcast_message-HasNoReply m h passed s =
    elim (Bool-cases (ltb (length h.broadcast_queue) h.config.message_buffer_size)) [
      | inl room ↦
          rw (room, handle_broadcast_message)
            (s.0, All-snoc IsPassedOn h.broadcast_queue m s.1 passed)
      | inr full ↦ rw (full, handle_broadcast_message) (send_error_message-HasNoReply m.sender h s)
    ]

after_private-HasNoReply :
    (m : Message) (e : Option Error) (h : Handler)
    → HasNoReply h
    → HasNoReply (after_private m (e, h))
unfolding after_private succeed
after_private-HasNoReply m (some e) h s = send_error_message-HasNoReply m.sender h s
after_private-HasNoReply m none h s = s

handle_private_message-HasNoReply :
    (m : Message) (h : Handler)
    → is_passed_on m.kind ≡ true
    → HasNoReply h
    → HasNoReply (handle_private_message m h)
unfolding handle_private_message
handle_private_message-HasNoReply m h passed s = elim (Option-cases m.to) [
  | inl empty ↦
      let refused : handle_private_message m h ≡ send_error_message m.sender h = ground arith in
      rw refused (send_error_message-HasNoReply m.sender h s)
  | inr (k, to) ↦
      let sent : handle_private_message m h ≡ after_private m (send_to_connection (some k) m h) =
        ground arith in
      rw sent (
        after_private-HasNoReply m (send_to_connection (some k) m h).0
          (send_to_connection (some k) m h).1 (send_to_connection-HasNoReply (some k) m h passed s))
]

beat-HasNoReply :
    (now k : ℕ) (m : Message) (h : Handler) → HasNoReply h → HasNoReply (beat now k m h)
unfolding beat
beat-HasNoReply now k m h s = elim (Option-cases (find k h)) [
  | inl missing ↦ let kept : beat now k m h ≡ h = ground arith in rw kept s
  | inr (c, found) ↦
      let reply : Message = record {
        kind = heartbeat;
        channel = none;
        sender = none;
        to = m.sender;
      } in
      let beaten = record h { store = assign h.store k (record c { last_heartbeat = now }) } in
      let answers : beat now k m h ≡ (enqueue reply beaten).1 = ground arith in
      rw answers (
        enqueue-HasNoReply reply beaten
          (assign-IsPlain h.store k _ s.0 (s.0 k c (find_store k h c found)), s.1))
]

handle_heartbeat_message-HasNoReply :
    (now : ℕ) (m : Message) (h : Handler)
    → HasNoReply h
    → HasNoReply (handle_heartbeat_message now m h)
unfolding handle_heartbeat_message succeed
handle_heartbeat_message-HasNoReply now m h s = elim (Option-cases m.sender) [
  | inl empty ↦ rw (empty, handle_heartbeat_message) s
  | inr (k, from) ↦ rw (from, handle_heartbeat_message) (beat-HasNoReply now k m h s)
]

pub dispatch-HasNoReply :
    (now : ℕ) (kind : MessageType) (m : Message) (h : Handler)
    → m.kind ≡ kind
    → HasNoReply h
    → HasNoReply (dispatch now kind m h)
unfolding dispatch handle_unknown_message fail is_passed_on
dispatch-HasNoReply now join m h e s = handle_join_message-HasNoReply m h s
dispatch-HasNoReply now leave m h e s = handle_leave_message-HasNoReply m h s
dispatch-HasNoReply now chat m h e s = handle_chat_message-HasNoReply m h (ap is_passed_on e) s
dispatch-HasNoReply now broadcast m h e s =
    handle_broadcast_message-HasNoReply m h (ap is_passed_on e) s
dispatch-HasNoReply now private_message m h e s =
    handle_private_message-HasNoReply m h (ap is_passed_on e) s
dispatch-HasNoReply now heartbeat m h e s = handle_heartbeat_message-HasNoReply now m h s
dispatch-HasNoReply now error m h e s = send_error_message-HasNoReply m.sender h s
dispatch-HasNoReply now system m h e s = send_error_message-HasNoReply m.sender h s
dispatch-HasNoReply now other m h e s = send_error_message-HasNoReply m.sender h s
