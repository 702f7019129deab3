-- ===== src/WebSocket.antt =====
-- The handler of 04_concurrent_programming_for_web_processing/02_websocket_handler/
-- websocket_handler.go, until it is shut down. `store` has every connection that was made, also the
-- closed ones, which the members of a channel still point to; `connections` has the IDs that are
-- registered. A map is run through in the order of a list.
use advanced_golang_tutorial.Prelude.{
  ℕ, suc, ◌+◌, ◌-◌, Bool, true, false, List, [], ◌∷◌, ◌++◌, Option, none, some, if◌then◌else◌, ltb,
  ◌==◌, length, Text, same_text, add_i64, sub_i64,
}
pub mod Connections
pub mod Workers
pub mod Runs
pub mod Members
pub mod Replies
pub mod Delivery
mod Tests
use Connections.{
  HandlerConfig, Message, MessageType, Connection, system, error, mem, put, delete, put_name,
  delete_name, new_connection, try_send, send_first,
}

pub record Channel : Type 0 where
  pub members : List ℕ
  pub message_history : List Message

-- `worker_successes` and `worker_errors` are the sums over the workers.
pub record HandlerStats : Type 0 where
  pub total_connections : ℕ
  pub active_connections : ℕ
  pub total_messages : ℕ
  pub broadcast_messages : ℕ
  pub private_messages : ℕ
  pub error_messages : ℕ
  pub channel_count : ℕ
  pub processed : ℕ
  pub worker_successes : ℕ
  pub worker_errors : ℕ

pub record Handler : Type 0 where
  pub config : HandlerConfig
  pub store : ℕ → Option Connection
  pub next_id : ℕ
  pub connections : List ℕ
  pub channels : Text → Option Channel
  pub message_queue : List Message
  pub broadcast_queue : List Message
  pub stats : HandlerStats
  pub is_running : Bool

pub data Error : Type 0 where
  not_running : Error
  already_running : Error
  connection_not_found : Error
  channel_not_found : Error
  queue_full : Error
  send_failed : Error

abbrev pub no_stats : HandlerStats
no_stats = record {
  total_connections = 0;
  active_connections = 0;
  total_messages = 0;
  broadcast_messages = 0;
  private_messages = 0;
  error_messages = 0;
  channel_count = 0;
  processed = 0;
  worker_successes = 0;
  worker_errors = 0;
}

abbrev pub new_channel : Channel
new_channel = record { members = []; message_history = [] }

abbrev pub update : (Text → Option Channel) → Text → Channel → Text → Option Channel
update m name ch t = if same_text name t then some ch else m t

abbrev pub assign : (ℕ → Option Connection) → ℕ → Connection → ℕ → Option Connection
assign m k c j = if k == j then some c else m j

-- A registered connection.
unfoldable pub find : ℕ → Handler → Option Connection
unfolding mem
find k h = if mem k h.connections then h.store k else none

unfoldable pub create_channel : Text → Handler → Handler
create_channel name h = record h {
  channels = update h.channels name new_channel;
  stats = record h.stats { channel_count = add_i64 h.stats.channel_count 1 };
}

abbrev pub general : Text
general = b'g' ∷ b'e' ∷ b'n' ∷ b'e' ∷ b'r' ∷ b'a' ∷ b'l' ∷ []

-- NewWebSocketHandler, with the channel "general".
unfoldable pub new_handler : HandlerConfig → Handler
unfolding create_channel
new_handler cfg = create_channel general (record {
  config = cfg;
  store = λ k. none;
  next_id = 0;
  connections = [];
  channels = λ name. none;
  message_queue = [];
  broadcast_queue = [];
  stats = no_stats;
  is_running = false;
})

unfoldable pub start : Handler → Option Error × Handler
start h = if h.is_running then (some already_running, h) else (none, record h { is_running = true })

-- A send to the message queue that does not wait.
unfoldable pub enqueue : Message → Handler → Option Error × Handler
enqueue m h =
    if ltb (length h.message_queue) h.config.message_buffer_size
    then (none, record h { message_queue = h.message_queue ++ m ∷ [] })
    else (some queue_full, h)

unfoldable pub send_message : Message → Handler → Option Error × Handler
unfolding enqueue
send_message m h = if h.is_running then enqueue m h else (some not_running, h)

unfoldable pub register : ℕ → Handler → Handler
unfolding new_connection put
register now h = record h {
  store = assign h.store h.next_id (new_connection now);
  next_id = suc h.next_id;
  connections = put h.next_id h.connections;
  stats = record h.stats {
    total_connections = add_i64 h.stats.total_connections 1;
    active_connections = add_i64 h.stats.active_connections 1;
  };
}

-- HandleConnection, with the notice that it sends to the new connection.
unfoldable pub handle_connection : ℕ → Handler → Option Error × Handler
unfolding register enqueue
handle_connection now h =
    if h.is_running
    then (
      none,
      (enqueue (record { kind = system; channel = none; sender = none; to = some h.next_id })
          (register now h)).1,
    )
    else (some not_running, h)

-- handleConnectionReceive, for one message.
unfoldable pub receive : ℕ → Message → Handler → Handler
unfolding enqueue
receive k m h =
    let (refused, queued) = enqueue (record m { sender = some k }) h in
    elim refused [
      | none ↦ record queued {
        stats = record queued.stats { total_messages = add_i64 queued.stats.total_messages 1 };
      }
      | some e ↦ queued
    ]

unfoldable pub ensure_channel : Text → Handler → Handler
unfolding create_channel
ensure_channel name h = elim (h.channels name) [ none ↦ create_channel name h | some ch ↦ h ]

unfoldable pub existing : Option Channel → Channel
existing none = new_channel
existing (some ch) = ch

unfoldable pub enter_channel : ℕ → Text → Connection → Handler → Handler
unfolding existing put put_name
enter_channel k name c h =
    let ch = existing (h.channels name) in
    record h {
      channels = update h.channels name (record ch { members = put k ch.members });
      store = assign h.store k (record c { channels = put_name name c.channels });
    }

unfoldable pub join_channel : ℕ → Text → Handler → Option Error × Handler
unfolding find ensure_channel enter_channel
join_channel k name h = elim (find k h) [
  | none ↦ (some connection_not_found, h)
  | some c ↦ (none, enter_channel k name c (ensure_channel name h))
]

-- Without the other goroutines that may come in after the lookup of the connection and after that of
-- the channel, where the code holds no lock.
unfoldable pub leave_channel : ℕ → Text → Handler → Option Error × Handler
unfolding find delete delete_name
leave_channel k name h = elim (find k h) [
  | none ↦ (some connection_not_found, h)
  | some c ↦ elim (h.channels name) [
    | none ↦ (some channel_not_found, h)
    | some ch ↦ (
      none,
      record h {
        channels = update h.channels name (record ch { members = delete k ch.members });
        store = assign h.store k (record c { channels = delete_name name c.channels });
      },
    )
  ]
]

unfoldable pub leave_channels : ℕ → List Text → Handler → Handler
unfolding leave_channel
leave_channels k [] h = h
leave_channels k (name ∷ names) h = leave_channels k names (leave_channel k name h).1

-- The parts of closeConnection before and after the channels are left.
unfoldable pub unregister : ℕ → Connection → Handler → Handler
unfolding delete
unregister k c h = record h {
  store = assign h.store k (record c { is_active = false; closed = true });
  connections = delete k h.connections;
}

unfoldable pub end_connection : ℕ → Handler → Handler
end_connection k h = record h {
  store = elim (h.store k) [
    | none ↦ h.store
    | some c ↦ assign h.store k (record c { is_open = false })
  ];
  stats = record h.stats { active_connections = sub_i64 h.stats.active_connections 1 };
}

unfoldable pub close_connection : ℕ → Handler → Handler
unfolding unregister leave_channels end_connection
close_connection k h = elim (h.store k) [
  | none ↦ h
  | some c ↦
      let gone = end_connection k (leave_channels k c.channels (unregister k c h)) in
      if c.is_active then gone else h
]
