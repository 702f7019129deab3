-- ===== src/WebSocket/Connections.antt =====
-- Messages and connections of
-- 04_concurrent_programming_for_web_processing/02_websocket_handler/websocket_handler.go. A
-- connection's ID is a number; the empty ID is none. Of a message's Data only the channel is read.
use advanced_golang_tutorial.Prelude.{
  ℕ, Bool, true, false, List, [], ◌∷◌, ◌++◌, Option, if◌then◌else◌, ltb, ◌==◌, length, Text,
  same_text,
}

pub data MessageType : Type 0 where
  join : MessageType
  leave : MessageType
  chat : MessageType
  broadcast : MessageType
  private_message : MessageType
  heartbeat : MessageType
  error : MessageType
  system : MessageType
  other : MessageType

pub record Message : Type 0 where
  pub kind : MessageType
  pub channel : Option Text
  pub sender : Option ℕ
  pub to : Option ℕ

pub record HandlerConfig : Type 0 where
  pub message_buffer_size : ℕ
  pub send_buffer_size : ℕ
  pub connection_timeout : ℕ
  pub max_channel_history : ℕ

pub record Connection : Type 0 where
  pub channels : List Text
  pub send_queue : List Message
  pub send_buffer : List Message
  pub is_active : Bool
  pub closed : Bool
  pub is_open : Bool
  pub last_heartbeat : ℕ

-- The keys of the maps.
unfoldable pub mem : ℕ → List ℕ → Bool
mem k [] = false
mem k (x ∷ xs) = if k == x then true else mem k xs

unfoldable pub put : ℕ → List ℕ → List ℕ
unfolding mem
put k xs = if mem k xs then xs else k ∷ xs

unfoldable pub delete : ℕ → List ℕ → List ℕ
delete k [] = []
delete k (x ∷ xs) = let rest = delete k xs in if k == x then rest else x ∷ rest

unfoldable pub put_name : Text → List Text → List Text
put_name t [] = t ∷ []
put_name t (s ∷ ss) = if same_text t s then s ∷ ss else s ∷ put_name t ss

unfoldable pub delete_name : Text → List Text → List Text
delete_name t [] = []
delete_name t (s ∷ ss) = let rest = delete_name t ss in if same_text t s then rest else s ∷ rest

unfoldable pub new_connection : ℕ → Connection
new_connection now = record {
  channels = [];
  send_queue = [];
  send_buffer = [];
  is_active = true;
  closed = false;
  is_open = true;
  last_heartbeat = now;
}

-- trySend; a queue that stays full is a timeout.
unfoldable pub try_send : HandlerConfig → Message → Connection → Bool × Connection
try_send cfg m c =
    if c.closed
    then (false, c)
    else if ltb (length c.send_queue) cfg.send_buffer_size
    then (true, record c { send_queue = c.send_queue ++ m ∷ [] })
    else (false, c)

-- handleConnectionSend, for one message; a buffer that stays full is a timeout.
unfoldable pub send_first : HandlerConfig → Connection → Connection
send_first cfg c = elim c.send_queue [
  | [] ↦ c
  | m ∷ ms ↦
      if ltb (length c.send_buffer) cfg.send_buffer_size
      then record c { send_queue = ms; send_buffer = c.send_buffer ++ m ∷ [] }
      else record c { send_queue = ms }
]
