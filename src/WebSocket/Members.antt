-- ===== src/WebSocket/Members.antt =====
-- The members of the channels, where a connection that is no longer registered is one of them.
use advanced_golang_tutorial.Prelude.{
  ℕ, suc, ◌+◌, ◌<◌, ◌≡◌, ◌≢◌, refl, sym, ap, ◌∙◌, Bool, true, false, List, [], ◌∷◌, Option, none,
  some, arith, if◌then◌else◌, ◌==◌, Text, Bool-cases, Option-cases, inl, inr, same_text,
  same_text-eq,
}
use advanced_golang_tutorial.WebSocket.Connections.{
  Connection, Message, HandlerConfig, mem, put, delete, delete_name,
}
use advanced_golang_tutorial.WebSocket.{
  Handler, Channel, Error, update, assign, find, create_channel, start, enqueue, send_message,
  register, handle_connection, receive, ensure_channel, existing, enter_channel, join_channel,
  leave_channel, leave_channels, unregister, end_connection, close_connection, new_channel,
}
pub mod Channels
pub mod Queues
pub mod Handlers
pub mod Steps

mem-put : (k j : ℕ) (xs : List ℕ) → mem k xs ≡ true → mem k (put j xs) ≡ true
unfolding mem put
mem-put k j xs h = ground arith

pub mem-put_other : (k j : ℕ) (xs : List ℕ) → k ≢ j → mem k (put j xs) ≡ mem k xs
unfolding mem put
mem-put_other k j xs h = ground arith

pub mem-delete : (k j : ℕ) (xs : List ℕ) → k ≢ j → mem k (delete j xs) ≡ mem k xs
unfolding mem delete
mem-delete k j [] h = refl
mem-delete k j (x ∷ xs) h = ground (arith, mem-delete k j xs h)

pub mem-delete_absent : (k j : ℕ) (xs : List ℕ) → mem k xs ≡ false → mem k (delete j xs) ≡ false
unfolding mem delete
mem-delete_absent k j [] h = refl
mem-delete_absent k j (x ∷ xs) h = ground (arith, mem-delete_absent k j xs)

pub mem-delete_same : (k : ℕ) (xs : List ℕ) → mem k (delete k xs) ≡ false
unfolding mem delete
mem-delete_same k [] = refl
mem-delete_same k (x ∷ xs) = ground (arith, mem-delete_same k xs)

unfoldable pub has_member : ℕ → Option Channel → Bool
unfolding mem
has_member k none = false
has_member k (some ch) = mem k ch.members

-- A connection that was made and is no longer registered, but is a member of a channel.
pub record IsLeftBehind (k : ℕ) (name : Text) (h : Handler) : Type 0 where
  pub made : k < h.next_id
  pub unregistered : mem k h.connections ≡ false
  pub member : has_member k (h.channels name) ≡ true

-- Operations that change no registration and no channel.
pub record KeepsRooms (h h' : Handler) : Type 0 where
  pub same_next : h'.next_id ≡ h.next_id
  pub same_connections : h'.connections ≡ h.connections
  pub same_channels : h'.channels ≡ h.channels

pub KeepsRooms-trans : (h h' h'' : Handler) → KeepsRooms h h' → KeepsRooms h' h'' → KeepsRooms h h''
KeepsRooms-trans h h' h'' a b = record {
  same_next = b.same_next ∙ a.same_next;
  same_connections = b.same_connections ∙ a.same_connections;
  same_channels = b.same_channels ∙ a.same_channels;
}

pub KeepsRooms-IsLeftBehind :
    (k : ℕ) (name : Text) (h h' : Handler)
    → KeepsRooms h h'
    → IsLeftBehind k name h
    → IsLeftBehind k name h'
KeepsRooms-IsLeftBehind k name h h' s g = record {
  made = rw (s.same_next) g.made;
  unregistered = rw (s.same_connections) g.unregistered;
  member = rw (s.same_channels) g.member;
}

pub register-IsLeftBehind :
    (k : ℕ) (name : Text) (now : ℕ) (h : Handler)
    → IsLeftBehind k name h
    → IsLeftBehind k name (register now h)
unfolding register
register-IsLeftBehind k name now h g = record {
  made = omega (arith, g.made);
  unregistered = mem-put_other k h.next_id h.connections (omega (arith, g.made)) ∙ g.unregistered;
  member = g.member;
}

-- A change of a channel that keeps its members.
pub update-has_member :
    (k : ℕ) (name t : Text) (ch : Channel) (channels : Text → Option Channel)
    → ((old : Channel) → channels t ≡ some old → mem k old.members ≡ true → mem k ch.members ≡ true)
    → has_member k (channels name) ≡ true
    → has_member k (update channels t ch name) ≡ true
unfolding has_member
update-has_member k name t ch channels keeps h = elim (Bool-cases (same_text t name)) [
  | inl here ↦
      let same = ap channels (same_text-eq t name here) in
      elim (Option-cases (channels name)) [
        | inl missing ↦ (let absurd = rw missing at h in cc)
        | inr (old, found) ↦
            (let kept : mem k old.members ≡ true = rw (found, has_member) at h in
              rw (here, update) (keeps old (same ∙ found) kept))
      ]
  | inr there ↦ rw (there, update) h
]

pub add_member :
    (k j : ℕ) (name t : Text) (channels : Text → Option Channel) (ch : Channel)
    → ((old : Channel) → channels t ≡ some old → ch ≡ old)
    → has_member k (channels name) ≡ true
    → has_member k (update channels t (record ch { members = put j ch.members }) name) ≡ true
add_member k j name t channels ch same h =
    update-has_member k name t (record ch { members = put j ch.members }) channels
      (λ old found m. mem-put k j ch.members (ap (λ c. mem k c.members) (same old found) ∙ m)) h
