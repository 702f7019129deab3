-- ===== src/WebSocket/Tests.antt =====
-- Runs of the WebSocket handler.
use advanced_golang_tutorial.Prelude.{
  ℕ, ◌≡◌, refl, true, false, List, [], ◌∷◌, none, some, arith, same_text, if◌then◌else◌, ltb,
}
use advanced_golang_tutorial.WebSocket.Connections.{
  HandlerConfig, Message, Connection, join, chat, error, mem,
}
use advanced_golang_tutorial.WebSocket.{
  Handler, Channel, receive, new_handler, general, close_connection, no_stats,
}
use advanced_golang_tutorial.WebSocket.Workers.{send_to_channel, is_sender}
use advanced_golang_tutorial.WebSocket.Runs.{Event, starts, connects, receives, works, run}
use advanced_golang_tutorial.WebSocket.Members.{has_member}
use advanced_golang_tutorial.WebSocket.Members.Steps.{closed_stays_member}
use advanced_golang_tutorial.WebSocket.Replies.{ArePassedOn}
use advanced_golang_tutorial.WebSocket.Replies.Answers.{no_reply_is_delivered}
use advanced_golang_tutorial.WebSocket.Delivery.{received, send_to_channel_lem}

abbrev small : HandlerConfig
small = record {
  message_buffer_size = 10;
  send_buffer_size = 2;
  connection_timeout = 60;
  max_channel_history = 3;
}

abbrev joining : Message
joining = record { kind = join; channel = some general; sender = none; to = none }

abbrev said : Message
said = record { kind = chat; channel = some general; sender = some 0; to = none }

abbrev nameless : Message
nameless = record joining { channel = none }

abbrev refusal : Message
refusal = record { kind = error; channel = none; sender = none; to = some 0 }

-- A connection joins; the worker takes the notice of the connection, the message, and the answer.
-- A second join has no channel.
abbrev entering : List Event
entering =
    starts
    ∷ connects 5
    ∷ receives 0 joining
    ∷ works 6
    ∷ works 7
    ∷ works 8
    ∷ receives 0 nameless
    ∷ works 9
    ∷ []

abbrev member_connection : Connection
member_connection = record {
  channels = general ∷ [];
  send_queue = refusal ∷ [];
  send_buffer = [];
  is_active = true;
  closed = false;
  is_open = true;
  last_heartbeat = 5;
}

entered : (run entering (new_handler small)).store 0 ≡ some member_connection
unfolding run new_handler same_text receive
entered = refl

no_reply_is_delivered_example : ArePassedOn (refusal ∷ []) × ArePassedOn []
no_reply_is_delivered_example = no_reply_is_delivered small entering 0 member_connection entered

abbrev open_connection : ℕ → Connection
open_connection k = record {
  channels = general ∷ [];
  send_queue = [];
  send_buffer = [];
  is_active = true;
  closed = false;
  is_open = true;
  last_heartbeat = k;
}

abbrev chatting : Channel
chatting = record { members = 1 ∷ 0 ∷ []; message_history = [] }

abbrev two_members : Handler
two_members = record {
  config = small;
  store = λ k. if ltb k 2 then some (open_connection 5) else none;
  next_id = 2;
  connections = 1 ∷ 0 ∷ [];
  channels = λ name. if same_text general name then some chatting else none;
  message_queue = [];
  broadcast_queue = [];
  stats = no_stats;
  is_running = true;
}

closed_stays_member_example :
    has_member 1 ((run (works 9 ∷ []) (close_connection 1 two_members)).channels general) ≡ true
unfolding has_member mem same_text
closed_stays_member_example =
    closed_stays_member 1 general (open_connection 5) (works 9 ∷ []) two_members (omega arith) refl
      refl refl

send_to_channel_lem_example :
    ((send_to_channel general said two_members).0 ≡ none)
    × ((send_to_channel general said two_members).1.store 1
        ≡ some (received small said (open_connection 5)))
unfolding mem is_sender same_text
send_to_channel_lem_example =
    send_to_channel_lem general said two_members chatting 1 (open_connection 5) refl (omega arith)
      refl
