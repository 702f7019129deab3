-- ===== src/WebSocket/Workers.antt =====
-- The workers, the broadcast handler and the check of the heartbeats.
use advanced_golang_tutorial.Prelude.{
  ℕ, Bool, false, List, [], ◌∷◌, ◌++◌, Option, none, some, if◌then◌else◌, ltb, ◌==◌, length, Text,
  add_i64,
}
use advanced_golang_tutorial.WebSocket.Connections.{
  Message, MessageType, Connection, join, leave, chat, broadcast, private_message, heartbeat, error,
  system, other, try_send,
}
use advanced_golang_tutorial.WebSocket.{
  Handler, Error, connection_not_found, channel_not_found, send_failed, update, assign, find,
  enqueue, join_channel, leave_channel,
}

-- A send through a connection object.
unfoldable pub send_through : ℕ → Connection → Message → Handler → Option Error × Handler
unfolding try_send
send_through k c m h =
    let (sent, after) = try_send h.config m c in
    (if sent then none else some send_failed, record h { store = assign h.store k after })

unfoldable pub send_registered : ℕ → Message → Handler → Option Error × Handler
unfolding find send_through
send_registered k m h = elim (find k h) [
  | none ↦ (some connection_not_found, h)
  | some c ↦ send_through k c m h
]

-- No connection has the empty ID.
unfoldable pub send_to_connection : Option ℕ → Message → Handler → Option Error × Handler
unfolding send_registered
send_to_connection none m h = (some connection_not_found, h)
send_to_connection (some k) m h = send_registered k m h

unfoldable pub is_sender : ℕ → Message → Bool
is_sender k m = elim m.sender [ none ↦ false | some j ↦ k == j ]

-- To the connection object of an ID, except to the sender's.
unfoldable pub send_to_member : Message → ℕ → Handler → Handler
unfolding is_sender send_through
send_to_member m k h =
    let sent : Handler = elim (h.store k) [ none ↦ h | some c ↦ (send_through k c m h).1 ] in
    if is_sender k m then h else sent

unfoldable pub send_to_members : Message → List ℕ → Handler → Handler
unfolding send_to_member
send_to_members m [] h = h
send_to_members m (k ∷ ks) h = send_to_members m ks (send_to_member m k h)

unfoldable pub send_to_channel : Text → Message → Handler → Option Error × Handler
unfolding send_to_members
send_to_channel name m h = elim (h.channels name) [
  | none ↦ (some channel_not_found, h)
  | some ch ↦ (none, send_to_members m ch.members h)
]

-- The history without its oldest message, where it is too long.
unfoldable pub add_history : ℕ → Message → List Message → List Message
add_history limit m [] = if ltb limit 1 then [] else m ∷ []
add_history limit m (x ∷ xs) =
    let all = (x ∷ xs) ++ m ∷ [] in if ltb limit (length all) then xs ++ m ∷ [] else all

unfoldable pub add_to_channel_history : Text → Message → Handler → Handler
unfolding add_history
add_to_channel_history name m h = elim (h.channels name) [
  | none ↦ h
  | some ch ↦ record h {
    channels = update h.channels name (record ch {
      message_history = add_history h.config.max_channel_history m ch.message_history;
    });
  }
]

unfoldable pub send_error_message : Option ℕ → Handler → Handler
unfolding send_to_connection
send_error_message to h =
    let sent =
      (send_to_connection to (record { kind = error; channel = none; sender = none; to = to })
        h).1 in
    record sent {
      stats = record sent.stats { error_messages = add_i64 sent.stats.error_messages 1 };
    }

unfoldable pub succeed : Handler → Handler
succeed h = record h {
  stats = record h.stats { worker_successes = add_i64 h.stats.worker_successes 1 };
}

unfoldable pub fail : Handler → Handler
fail h = record h { stats = record h.stats { worker_errors = add_i64 h.stats.worker_errors 1 } }

-- The end of a handler that answers through the message queue.
unfoldable pub answer : MessageType → Message → Option Error × Handler → Handler
unfolding send_error_message enqueue succeed
answer kind m (some e, h) = send_error_message m.sender h
answer kind m (none, h) =
    succeed
      (enqueue (record { kind = kind; channel = m.channel; sender = none; to = m.sender }) h).1

unfoldable pub handle_join_message : Message → Handler → Handler
unfolding answer join_channel send_error_message
handle_join_message m h = elim m.sender [
  | none ↦ send_error_message none h
  | some k ↦ elim m.channel [
    | none ↦ send_error_message m.sender h
    | some name ↦ answer system m (join_channel k name h)
  ]
]

unfoldable pub handle_leave_message : Message → Handler → Handler
unfolding answer leave_channel send_error_message
handle_leave_message m h = elim m.sender [
  | none ↦ send_error_message none h
  | some k ↦ elim m.channel [
    | none ↦ send_error_message m.sender h
    | some name ↦ answer system m (leave_channel k name h)
  ]
]

-- What follows the sending of a chat message.
unfoldable pub after_chat : Text → Message → Option Error × Handler → Handler
unfolding send_error_message add_to_channel_history succeed
after_chat name m (some e, h) = send_error_message m.sender h
after_chat name m (none, h) = succeed (add_to_channel_history name m h)

unfoldable pub handle_chat_message : Message → Handler → Handler
unfolding after_chat send_to_channel send_error_message
handle_chat_message m h = elim m.channel [
  | none ↦ send_error_message m.sender h
  | some name ↦ after_chat name m (send_to_channel name m h)
]

unfoldable pub handle_broadcast_message : Message → Handler → Handler
unfolding send_error_message fail succeed
handle_broadcast_message m h =
    if ltb (length h.broadcast_queue) h.config.message_buffer_size
    then succeed (record h {
      broadcast_queue = h.broadcast_queue ++ m ∷ [];
      stats = record h.stats { broadcast_messages = add_i64 h.stats.broadcast_messages 1 };
    })
    else fail (send_error_message m.sender h)

unfoldable pub after_private : Message → Option Error × Handler → Handler
unfolding send_error_message succeed
after_private m (some e, h) = send_error_message m.sender h
after_private m (none, h) =
    succeed (record h {
      stats = record h.stats { private_messages = add_i64 h.stats.private_messages 1 };
    })

unfoldable pub handle_private_message : Message → Handler → Handler
unfolding after_private send_to_connection send_error_message
handle_private_message m h = elim m.to [
  | none ↦ send_error_message m.sender h
  | some k ↦ after_private m (send_to_connection (some k) m h)
]

-- The time of the heartbeat, and its answer.
unfoldable pub beat : ℕ → ℕ → Message → Handler → Handler
unfolding find enqueue
beat now k m h = elim (find k h) [
  | none ↦ h
  | some c ↦
      (enqueue (record { kind = heartbeat; channel = none; sender = none; to = m.sender })
        (record h { store = assign h.store k (record c { last_heartbeat = now }) })).1
]

unfoldable pub handle_heartbeat_message : ℕ → Message → Handler → Handler
unfolding beat succeed
handle_heartbeat_message now m h = succeed (elim m.sender [ none ↦ h | some k ↦ beat now k m h ])

unfoldable pub handle_unknown_message : Message → Handler → Handler
unfolding send_error_message fail
handle_unknown_message m h = fail (send_error_message m.sender h)

unfoldable pub dispatch : ℕ → MessageType → Message → Handler → Handler
unfolding handle_join_message handle_leave_message handle_chat_message handle_broadcast_message
    handle_private_message handle_heartbeat_message handle_unknown_message
dispatch now join m h = handle_join_message m h
dispatch now leave m h = handle_leave_message m h
dispatch now chat m h = handle_chat_message m h
dispatch now broadcast m h = handle_broadcast_message m h
dispatch now private_message m h = handle_private_message m h
dispatch now heartbeat m h = handle_heartbeat_message now m h
dispatch now error m h = handle_unknown_message m h
dispatch now system m h = handle_unknown_message m h
dispatch now other m h = handle_unknown_message m h

unfoldable pub process_message : ℕ → Message → Handler → Handler
unfolding dispatch
process_message now m h =
    dispatch now m.kind m
      (record h { stats = record h.stats { processed = add_i64 h.stats.processed 1 } })
