-- ===== src/WebSocket/Replies/Answers.antt =====
-- The other goroutines, and all runs.
use advanced_golang_tutorial.Prelude.{
  ℕ, ◌≡◌, refl, List, [], ◌∷◌, none, some, arith, Bool-cases, Option-cases, List-cases, inl, inr,
  add_i64,
}
use advanced_golang_tutorial.WebSocket.Connections.{
  HandlerConfig, Connection, Message, system, send_first,
}
use advanced_golang_tutorial.WebSocket.{
  new_handler, create_channel, Handler, assign, find, start, enqueue, send_message, register,
  handle_connection, receive, close_connection,
}
use advanced_golang_tutorial.WebSocket.Workers.{send_to_members, dispatch, process_message}
use advanced_golang_tutorial.WebSocket.Runs.{
  Event, starts, connects, receives, sends, works, broadcasts, writes, closes, checks, work,
  handle_broadcast, write, late, close_registered, check_heartbeats, step, run,
}
use advanced_golang_tutorial.WebSocket.Replies.{
  ArePassedOn, HasNoReply, assign-IsPlain, send_first-IsPlain, enqueue-HasNoReply,
  register-HasNoReply, close_connection-HasNoReply,
}
use advanced_golang_tutorial.WebSocket.Replies.Sends.{send_to_members-HasNoReply}
use advanced_golang_tutorial.WebSocket.Replies.Handled.{dispatch-HasNoReply}

work-HasNoReply : (now : ℕ) (h : Handler) → HasNoReply h → HasNoReply (work now h)
unfolding work process_message
work-HasNoReply now h s = elim (List-cases h.message_queue) [
  | inl empty ↦ let kept : work now h ≡ h = ground arith in rw kept s
  | inr (m, (ms, waits)) ↦
      let taken = record h { message_queue = ms } in
      let counted = record taken {
        stats = record h.stats { processed = add_i64 h.stats.processed 1 };
      } in
      let works : work now h ≡ dispatch now m.kind m counted = ground arith in
      rw works (dispatch-HasNoReply now m.kind m counted refl s)
]

handle_broadcast-HasNoReply : (h : Handler) → HasNoReply h → HasNoReply (handle_broadcast h)
unfolding handle_broadcast
handle_broadcast-HasNoReply h s = elim (List-cases h.broadcast_queue) [
  | inl empty ↦ let kept : handle_broadcast h ≡ h = ground arith in rw kept s
  | inr (m, (ms, waits)) ↦
      let taken = record h { broadcast_queue = ms } in
      let sends : handle_broadcast h ≡ send_to_members m h.connections taken = ground arith in
      let queue : ArePassedOn (m ∷ ms) = (let q = s.1 in rw waits at q) in
      rw sends (send_to_members-HasNoReply m h.connections taken queue.0 (s.0, queue.1))
]

write-HasNoReply : (k : ℕ) (h : Handler) → HasNoReply h → HasNoReply (write k h)
unfolding write
write-HasNoReply k h s = elim (Option-cases (h.store k)) [
  | inl missing ↦ let kept : write k h ≡ h = ground arith in rw kept s
  | inr (c, found) ↦
      let writes : write k h ≡ record h { store = assign h.store k (send_first h.config c) } =
        ground arith in
      rw writes (
        assign-IsPlain h.store k (send_first h.config c) s.0
            (send_first-IsPlain h.config c (s.0 k c found)),
        s.1,
      )
]

start-HasNoReply : (h : Handler) → HasNoReply h → HasNoReply (start h).1
unfolding start
start-HasNoReply h s =
    let store : (start h).1.store ≡ h.store = ground arith in
    let queue : (start h).1.broadcast_queue ≡ h.broadcast_queue = ground arith in
    rw (store, queue) s

send_message-HasNoReply :
    (m : Message) (h : Handler) → HasNoReply h → HasNoReply (send_message m h).1
unfolding send_message enqueue
send_message-HasNoReply m h s =
    let store : (send_message m h).1.store ≡ h.store = ground arith in
    let queue : (send_message m h).1.broadcast_queue ≡ h.broadcast_queue = ground arith in
    rw (store, queue) s

receive-HasNoReply : (k : ℕ) (m : Message) (h : Handler) → HasNoReply h → HasNoReply (receive k m h)
unfolding receive enqueue
receive-HasNoReply k m h s =
    let store : (receive k m h).store ≡ h.store = ground arith in
    let queue : (receive k m h).broadcast_queue ≡ h.broadcast_queue = ground arith in
    rw (store, queue) s

handle_connection-HasNoReply :
    (now : ℕ) (h : Handler) → HasNoReply h → HasNoReply (handle_connection now h).1
unfolding handle_connection
handle_connection-HasNoReply now h s = elim (Bool-cases h.is_running) [
  | inl up ↦
      let notice : Message = record {
        kind = system;
        channel = none;
        sender = none;
        to = some h.next_id;
      } in
      let made : (handle_connection now h).1 ≡ (enqueue notice (register now h)).1 = ground arith in
      rw made (enqueue-HasNoReply notice (register now h) (register-HasNoReply now h s))
  | inr down ↦ let kept : (handle_connection now h).1 ≡ h = ground arith in rw kept s
]

close_registered-HasNoReply :
    (ks : List ℕ) (h : Handler) → HasNoReply h → HasNoReply (close_registered ks h)
unfolding close_registered
close_registered-HasNoReply [] h s = s
close_registered-HasNoReply (k ∷ ks) h s = elim (Option-cases (find k h)) [
  | inl missing ↦
      let skips : close_registered (k ∷ ks) h ≡ close_registered ks h = ground arith in
      rw skips (close_registered-HasNoReply ks h s)
  | inr (c, found) ↦
      let closes : close_registered (k ∷ ks) h ≡ close_registered ks (close_connection k h) =
        ground arith in
      rw closes
        (close_registered-HasNoReply ks (close_connection k h) (close_connection-HasNoReply k h s))
]

step-HasNoReply : (e : Event) (h : Handler) → HasNoReply h → HasNoReply (step e h)
unfolding step check_heartbeats
step-HasNoReply starts h s = start-HasNoReply h s
step-HasNoReply (connects now) h s = handle_connection-HasNoReply now h s
step-HasNoReply (receives k m) h s = receive-HasNoReply k m h s
step-HasNoReply (sends m) h s = send_message-HasNoReply m h s
step-HasNoReply (works now) h s = work-HasNoReply now h s
step-HasNoReply broadcasts h s = handle_broadcast-HasNoReply h s
step-HasNoReply (writes k) h s = write-HasNoReply k h s
step-HasNoReply (closes k) h s = close_connection-HasNoReply k h s
step-HasNoReply (checks now) h s = close_registered-HasNoReply (late now h h.connections) h s

run-HasNoReply : (es : List Event) (h : Handler) → HasNoReply h → HasNoReply (run es h)
unfolding run
run-HasNoReply [] h s = s
run-HasNoReply (e ∷ es) h s = run-HasNoReply es (step e h) (step-HasNoReply e h s)

new_handler-HasNoReply : (cfg : HandlerConfig) → HasNoReply (new_handler cfg)
unfolding new_handler create_channel
new_handler-HasNoReply cfg = (λ k c e. cc, tt)

-- In every run of a new handler, every message in a connection's queue or buffer is a chat message,
-- a broadcast, a private message or an error: no connection gets a system message or a heartbeat,
-- though the handler makes such messages in answer to joins, leaves, heartbeats and connections.
pub no_reply_is_delivered :
    (cfg : HandlerConfig) (es : List Event) (k : ℕ) (c : Connection)
    → (run es (new_handler cfg)).store k ≡ some c
    → ArePassedOn c.send_queue × ArePassedOn c.send_buffer
no_reply_is_delivered cfg es k c found =
    (run-HasNoReply es (new_handler cfg) (new_handler-HasNoReply cfg)).0 k c found
