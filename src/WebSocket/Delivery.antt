-- ===== src/WebSocket/Delivery.antt =====
-- What sendToChannel does to each connection.
use advanced_golang_tutorial.Prelude.{
  ℕ, ◌≤◌, ◌≡◌, refl, sym, ap, ◌∙◌, true, false, List, [], ◌∷◌, ◌++◌, none, some, arith,
  if◌then◌else◌, ltb, ◌==◌, Text, Bool-cases, inl, inr, count, length,
}
use advanced_golang_tutorial.WebSocket.Connections.{
  Connection, HandlerConfig, Message, mem, try_send,
}
use advanced_golang_tutorial.WebSocket.{Handler, Channel}
use advanced_golang_tutorial.WebSocket.Workers.{
  is_sender, send_through, send_to_member, send_to_members, send_to_channel,
}

-- What a connection becomes that a message is for: one more message in its queue, where it is open
-- and the queue has room.
unfoldable pub received : HandlerConfig → Message → Connection → Connection
received cfg m c =
    if c.closed
    then c
    else if ltb (length c.send_queue) cfg.send_buffer_size
    then record c { send_queue = c.send_queue ++ m ∷ [] }
    else c

try_send-received :
    (cfg : HandlerConfig) (m : Message) (c : Connection) → (try_send cfg m c).1 ≡ received cfg m c
unfolding try_send received
try_send-received cfg m c = ground arith

member_config : (m : Message) (j : ℕ) (h : Handler) → (send_to_member m j h).config ≡ h.config
unfolding send_to_member send_through
member_config m j h = ground arith

-- Another connection than the one that the message goes to.
member_other :
    (m : Message) (j k : ℕ) (h : Handler)
    → (k == j) ≡ false
    → (send_to_member m j h).store k ≡ h.store k
unfolding send_to_member send_through
member_other m j k h e = ground arith

member_sender :
    (m : Message) (k : ℕ) (h : Handler) → is_sender k m ≡ true → send_to_member m k h ≡ h
unfolding send_to_member
member_sender m k h e = ground arith

member_itself :
    (m : Message) (k : ℕ) (h : Handler) (c : Connection)
    → is_sender k m ≡ false
    → h.store k ≡ some c
    → (send_to_member m k h).store k ≡ some (received h.config m c)
unfolding send_to_member send_through
member_itself m k h c e found =
    let sent : (send_to_member m k h).store k ≡ some (try_send h.config m c).1 = ground arith in
    sent ∙ ap some (try_send-received h.config m c)

members_absent :
    (m : Message) (k : ℕ) (ks : List ℕ) (h : Handler)
    → mem k ks ≡ false
    → (send_to_members m ks h).store k ≡ h.store k
unfolding send_to_members mem
members_absent m k [] h e = refl
members_absent m k (j ∷ js) h e =
    let other : (k == j) ≡ false = ground arith in
    let rest : mem k js ≡ false = ground arith in
    members_absent m k js (send_to_member m j h) rest ∙ member_other m j k h other

mem_absent : (k : ℕ) (ks : List ℕ) → count k ks ≡ 0 → mem k ks ≡ false
unfolding mem
mem_absent k [] e = refl
mem_absent k (j ∷ js) e = ground (arith, mem_absent k js)

-- What becomes of a connection for a message that goes to a list of members.
outcome : HandlerConfig → Message → ℕ → List ℕ → Connection → Connection
unfolding mem is_sender received
outcome cfg m k ks c = if mem k ks then (if is_sender k m then c else received cfg m c) else c

member_first :
    (m : Message) (k : ℕ) (h : Handler) (c : Connection)
    → h.store k ≡ some c
    → (send_to_member m k h).store k ≡ some (if is_sender k m then c else received h.config m c)
member_first m k h c found = elim (Bool-cases (is_sender k m)) [
  | inl own ↦ rw own (ap (λ h'. h'.store k) (member_sender m k h own) ∙ found)
  | inr others ↦ rw others (member_itself m k h c others found)
]

outcome_first :
    (cfg : HandlerConfig) (m : Message) (k j : ℕ) (js : List ℕ) (c : Connection)
    → (k == j) ≡ true
    → outcome cfg m k (j ∷ js) c ≡ (if is_sender k m then c else received cfg m c)
unfolding outcome mem
outcome_first cfg m k j js c here = rw (here, mem) refl

outcome_later :
    (cfg : HandlerConfig) (m : Message) (k j : ℕ) (js : List ℕ) (c : Connection)
    → (k == j) ≡ false
    → outcome cfg m k (j ∷ js) c ≡ outcome cfg m k js c
unfolding outcome mem
outcome_later cfg m k j js c there = rw (there, mem) refl

-- The connection object of an ID after a message went to a list of members.
members_store :
    (m : Message) (k : ℕ) (ks : List ℕ) (h : Handler) (c : Connection)
    → count k ks ≤ 1
    → h.store k ≡ some c
    → (send_to_members m ks h).store k ≡ some (outcome h.config m k ks c)
unfolding send_to_members outcome mem
members_store m k [] h c once found = found
members_store m k (j ∷ js) h c once found = elim (Bool-cases (k == j)) [
  | inl here ↦
      let same : k ≡ j = ground arith in
      let absent = mem_absent k js (ground arith) in
      members_absent m k js (send_to_member m j h) absent
      ∙ (ap (λ i. (send_to_member m i h).store k) (sym same)
          ∙ (member_first m k h c found ∙ ap some (sym (outcome_first h.config m k j js c here))))
  | inr there ↦
      let kept = member_other m j k h there in
      let rest =
        members_store m k js (send_to_member m j h) c (ground (arith, once)) (kept ∙ found) in
      rest
      ∙ (ap (λ cfg. some (outcome cfg m k js c)) (member_config m j h)
          ∙ ap some (sym (outcome_later h.config m k j js c there)))
]

-- A message that goes to a channel, whose members are listed without repetition, is added to the
-- queue of each member but its sender, where the connection is open and its queue has room. Every
-- other connection is left as it is, and no error is returned.
pub send_to_channel_lem :
    (name : Text) (m : Message) (h : Handler) (ch : Channel) (k : ℕ) (c : Connection)
    → h.channels name ≡ some ch
    → count k ch.members ≤ 1
    → h.store k ≡ some c
    → ((send_to_channel name m h).0 ≡ none)
      × ((send_to_channel name m h).1.store k
          ≡ some
              (if mem k ch.members then if is_sender k m then c else received h.config m c else c))
unfolding send_to_channel outcome
send_to_channel_lem name m h ch k c there once found =
    let sends : send_to_channel name m h ≡ (none, send_to_members m ch.members h) = ground arith in
    (ap (λ r. r.0) sends, ap (λ r. r.1.store k) sends ∙ members_store m k ch.members h c once found)
