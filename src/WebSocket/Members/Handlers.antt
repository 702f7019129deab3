-- ===== src/WebSocket/Members/Handlers.antt =====
-- The messages that the workers handle let no connection that was left behind out of its channel.
use advanced_golang_tutorial.Prelude.{
  ℕ, ◌≡◌, sym, ap, ◌∙◌, Option, none, some, arith, Text, Option-cases, inl, inr,
}
use advanced_golang_tutorial.WebSocket.Connections.{
  Message, MessageType, join, leave, chat, broadcast, private_message, heartbeat, error, system,
  other,
}
use advanced_golang_tutorial.WebSocket.{Handler, Error, update, join_channel, leave_channel}
use advanced_golang_tutorial.WebSocket.Workers.{
  send_to_channel, add_history, add_to_channel_history, send_error_message, succeed, answer,
  handle_join_message, handle_leave_message, after_chat, handle_chat_message,
  handle_unknown_message, dispatch,
}
use advanced_golang_tutorial.WebSocket.Members.{
  IsLeftBehind, KeepsRooms-IsLeftBehind, has_member, update-has_member,
}
use advanced_golang_tutorial.WebSocket.Members.Channels.{
  join_channel-IsLeftBehind, leave_channel-IsLeftBehind,
}
use advanced_golang_tutorial.WebSocket.Members.Queues.{
  KeepsRooms-refl, enqueue-KeepsRooms, send_to_channel-KeepsRooms, send_error_message-KeepsRooms,
  succeed-KeepsRooms, fail-KeepsRooms, handle_broadcast_message-KeepsRooms,
  handle_private_message-KeepsRooms, handle_heartbeat_message-KeepsRooms,
}

module _ (k : ℕ) (name : Text) where
  add_to_channel_history-IsLeftBehind :
      (t : Text) (m : Message) (h : Handler)
      → IsLeftBehind k name h
      → IsLeftBehind k name (add_to_channel_history t m h)
  unfolding add_to_channel_history has_member
  add_to_channel_history-IsLeftBehind t m h g = elim (Option-cases (h.channels t)) [
    | inl missing ↦ let kept : add_to_channel_history t m h ≡ h = ground arith in rw kept g
    | inr (ch, found) ↦
        let after = record ch {
          message_history = add_history h.config.max_channel_history m ch.message_history;
        } in
        let added : add_to_channel_history t m h
            ≡ record h { channels = update h.channels t after } =
          ground arith in
        rw added (record {
          made = g.made;
          unregistered = g.unregistered;
          member =
              update-has_member k name t after h.channels
                (λ old same o. ap (has_member k) (sym found ∙ same) ∙ o) g.member;
        })
  ]

  answer-IsLeftBehind :
      (kind : MessageType) (m : Message) (e : Option Error) (h : Handler)
      → IsLeftBehind k name h
      → IsLeftBehind k name (answer kind m (e, h))
  unfolding answer
  answer-IsLeftBehind kind m (some e) h g =
      KeepsRooms-IsLeftBehind k name h (send_error_message m.sender h)
        (send_error_message-KeepsRooms m.sender h) g
  answer-IsLeftBehind kind m none h g =
      KeepsRooms-IsLeftBehind k name h _ (succeed-KeepsRooms h _ (enqueue-KeepsRooms _ h)) g

  refuse-IsLeftBehind :
      (to : Option ℕ) (h : Handler)
      → IsLeftBehind k name h
      → IsLeftBehind k name (send_error_message to h)
  refuse-IsLeftBehind to h g =
      KeepsRooms-IsLeftBehind k name h (send_error_message to h)
        (send_error_message-KeepsRooms to h) g

  handle_join_message-IsLeftBehind :
      (m : Message) (h : Handler)
      → IsLeftBehind k name h
      → IsLeftBehind k name (handle_join_message m h)
  unfolding handle_join_message
  handle_join_message-IsLeftBehind m h g = elim (Option-cases m.sender) [
    | inl empty ↦
        let refused : handle_join_message m h ≡ send_error_message none h = ground arith in
        rw refused (refuse-IsLeftBehind none h g)
    | inr (j, from) ↦ elim (Option-cases m.channel) [
      | inl missing ↦
          let refused : handle_join_message m h ≡ send_error_message m.sender h = ground arith in
          rw refused (refuse-IsLeftBehind m.sender h g)
      | inr (t, given) ↦
          let joins : handle_join_message m h ≡ answer system m (join_channel j t h) =
            ground arith in
          rw joins (
            answer-IsLeftBehind system m (join_channel j t h).0 (join_channel j t h).1
              (join_channel-IsLeftBehind k j name t h g))
    ]
  ]

  handle_leave_message-IsLeftBehind :
      (m : Message) (h : Handler)
      → IsLeftBehind k name h
      → IsLeftBehind k name (handle_leave_message m h)
  unfolding handle_leave_message
  handle_leave_message-IsLeftBehind m h g = elim (Option-cases m.sender) [
    | inl empty ↦
        let refused : handle_leave_message m h ≡ send_error_message none h = ground arith in
        rw refused (refuse-IsLeftBehind none h g)
    | inr (j, from) ↦ elim (Option-cases m.channel) [
      | inl missing ↦
          let refused : handle_leave_message m h ≡ send_error_message m.sender h = ground arith in
          rw refused (refuse-IsLeftBehind m.sender h g)
      | inr (t, given) ↦
          let leaves : handle_leave_message m h ≡ answer system m (leave_channel j t h) =
            ground arith in
          rw leaves (
            answer-IsLeftBehind system m (leave_channel j t h).0 (leave_channel j t h).1
              (leave_channel-IsLeftBehind k j name t h g))
    ]
  ]

  after_chat-IsLeftBehind :
      (t : Text) (m : Message) (e : Option Error) (h : Handler)
      → IsLeftBehind k name h
      → IsLeftBehind k name (after_chat t m (e, h))
  unfolding after_chat
  after_chat-IsLeftBehind t m (some e) h g = refuse-IsLeftBehind m.sender h g
  after_chat-IsLeftBehind t m none h g =
      let added = add_to_channel_history t m h in
      KeepsRooms-IsLeftBehind k name added (succeed added)
        (succeed-KeepsRooms added added (KeepsRooms-refl added))
        (add_to_channel_history-IsLeftBehind t m h g)

  handle_chat_message-IsLeftBehind :
      (m : Message) (h : Handler)
      → IsLeftBehind k name h
      → IsLeftBehind k name (handle_chat_message m h)
  unfolding handle_chat_message
  handle_chat_message-IsLeftBehind m h g = elim (Option-cases m.channel) [
    | inl missing ↦
        let refused : handle_chat_message m h ≡ send_error_message m.sender h = ground arith in
        rw refused (refuse-IsLeftBehind m.sender h g)
    | inr (t, given) ↦
        let goes : handle_chat_message m h ≡ after_chat t m (send_to_channel t m h) =
          ground arith in
        rw goes (
          after_chat-IsLeftBehind t m (send_to_channel t m h).0 (send_to_channel t m h).1 (
            KeepsRooms-IsLeftBehind k name h (send_to_channel t m h).1
              (send_to_channel-KeepsRooms t m h) g))
  ]

  pub dispatch-IsLeftBehind :
      (now : ℕ) (kind : MessageType) (m : Message) (h : Handler)
      → IsLeftBehind k name h
      → IsLeftBehind k name (dispatch now kind m h)
  unfolding dispatch handle_unknown_message
  dispatch-IsLeftBehind now join m h g = handle_join_message-IsLeftBehind m h g
  dispatch-IsLeftBehind now leave m h g = handle_leave_message-IsLeftBehind m h g
  dispatch-IsLeftBehind now chat m h g = handle_chat_message-IsLeftBehind m h g
  dispatch-IsLeftBehind now broadcast m h g =
      KeepsRooms-IsLeftBehind k name h _ (handle_broadcast_message-KeepsRooms m h) g
  dispatch-IsLeftBehind now private_message m h g =
      KeepsRooms-IsLeftBehind k name h _ (handle_private_message-KeepsRooms m h) g
  dispatch-IsLeftBehind now heartbeat m h g =
      KeepsRooms-IsLeftBehind k name h _ (handle_heartbeat_message-KeepsRooms now m h) g
  dispatch-IsLeftBehind now error m h g =
      KeepsRooms-IsLeftBehind k name h _
        (fail-KeepsRooms h _ (send_error_message-KeepsRooms m.sender h)) g
  dispatch-IsLeftBehind now system m h g =
      KeepsRooms-IsLeftBehind k name h _
        (fail-KeepsRooms h _ (send_error_message-KeepsRooms m.sender h)) g
  dispatch-IsLeftBehind now other m h g =
      KeepsRooms-IsLeftBehind k name h _
        (fail-KeepsRooms h _ (send_error_message-KeepsRooms m.sender h)) g
