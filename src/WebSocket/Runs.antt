-- ===== src/WebSocket/Runs.antt =====
-- The goroutines of the handler. The work for one message, one connection, one close or one check of
-- the heartbeats is one step, although it takes and releases several locks: a run is one in which
-- these come one after the other and do not overlap. A clock is read as a number that does not go
-- back.
use advanced_golang_tutorial.Prelude.{
  ℕ, ◌+◌, Bool, false, List, [], ◌∷◌, none, some, if◌then◌else◌, ltb,
}
use advanced_golang_tutorial.WebSocket.Connections.{Message, send_first}
use advanced_golang_tutorial.WebSocket.{
  Handler, find, assign, start, handle_connection, receive, send_message, close_connection,
}
use advanced_golang_tutorial.WebSocket.Workers.{process_message, send_to_members}

pub data Event : Type 0 where
  starts : Event
  connects : ℕ → Event
  receives : ℕ → Message → Event
  sends : Message → Event
  works : ℕ → Event
  broadcasts : Event
  writes : ℕ → Event
  closes : ℕ → Event
  checks : ℕ → Event

-- The worker that takes the next message.
unfoldable pub work : ℕ → Handler → Handler
unfolding process_message
work now h = elim h.message_queue [
  | [] ↦ h
  | m ∷ ms ↦ process_message now m (record h { message_queue = ms })
]

-- handleBroadcasts, for one message.
unfoldable pub handle_broadcast : Handler → Handler
unfolding send_to_members
handle_broadcast h = elim h.broadcast_queue [
  | [] ↦ h
  | m ∷ ms ↦ send_to_members m h.connections (record h { broadcast_queue = ms })
]

unfoldable pub write : ℕ → Handler → Handler
unfolding send_first
write k h = elim (h.store k) [
  | none ↦ h
  | some c ↦ record h { store = assign h.store k (send_first h.config c) }
]

unfoldable pub is_late : ℕ → Handler → ℕ → Bool
is_late now h k = elim (h.store k) [
  | none ↦ false
  | some c ↦ ltb (c.last_heartbeat + h.config.connection_timeout) now
]

unfoldable pub late : ℕ → Handler → List ℕ → List ℕ
unfolding is_late
late now h [] = []
late now h (k ∷ ks) = let rest = late now h ks in if is_late now h k then k ∷ rest else rest

unfoldable pub close_registered : List ℕ → Handler → Handler
unfolding find close_connection
close_registered [] h = h
close_registered (k ∷ ks) h =
    close_registered ks (elim (find k h) [ none ↦ h | some c ↦ close_connection k h ])

unfoldable pub check_heartbeats : ℕ → Handler → Handler
unfolding late close_registered
check_heartbeats now h = close_registered (late now h h.connections) h

unfoldable pub step : Event → Handler → Handler
unfolding start handle_connection send_message work handle_broadcast write check_heartbeats
step starts h = (start h).1
step (connects now) h = (handle_connection now h).1
step (receives k m) h = receive k m h
step (sends m) h = (send_message m h).1
step (works now) h = work now h
step broadcasts h = handle_broadcast h
step (writes k) h = write k h
step (closes k) h = close_connection k h
step (checks now) h = check_heartbeats now h

-- First to last.
unfoldable pub run : List Event → Handler → Handler
unfolding step
run [] h = h
run (e ∷ es) h = run es (step e h)
