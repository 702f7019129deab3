-- ===== src/WebSocket/Members/Channels.antt =====
-- Joining and leaving channels, and closing connections.
use advanced_golang_tutorial.Prelude.{
  ℕ, ◌<◌, ◌≡◌, ◌≢◌, refl, sym, ap, ◌∙◌, true, false, List, [], ◌∷◌, some, arith, Text, Bool-cases,
  Option-cases, inl, inr,
}
use advanced_golang_tutorial.WebSocket.Connections.{Connection, mem, delete, delete_name}
use advanced_golang_tutorial.WebSocket.{
  Handler, Channel, update, assign, find, create_channel, ensure_channel, existing, enter_channel,
  join_channel, leave_channel, leave_channels, unregister, end_connection, close_connection,
  new_channel,
}
use advanced_golang_tutorial.WebSocket.Members.{
  has_member, IsLeftBehind, KeepsRooms, KeepsRooms-IsLeftBehind, update-has_member, add_member,
  mem-delete, mem-delete_absent, mem-delete_same,
}

enter_channel-IsLeftBehind :
    (k j : ℕ) (name t : Text) (c : Connection) (h : Handler)
    → IsLeftBehind k name h
    → IsLeftBehind k name (enter_channel j t c h)
unfolding enter_channel
enter_channel-IsLeftBehind k j name t c h g = record {
  made = g.made;
  unregistered = g.unregistered;
  member =
      add_member k j name t h.channels (existing (h.channels t))
        (λ old found. rw (found, existing) refl) g.member;
}

ensure_channel-IsLeftBehind :
    (k : ℕ) (name t : Text) (h : Handler)
    → IsLeftBehind k name h
    → IsLeftBehind k name (ensure_channel t h)
unfolding ensure_channel create_channel
ensure_channel-IsLeftBehind k name t h g = elim (Option-cases (h.channels t)) [
  | inl missing ↦
      let made : ensure_channel t h ≡ create_channel t h = ground arith in
      rw made (record {
        made = g.made;
        unregistered = g.unregistered;
        member = update-has_member k name t new_channel h.channels (λ old found m. cc) g.member;
      })
  | inr (ch, found) ↦ let kept : ensure_channel t h ≡ h = ground arith in rw kept g
]

pub join_channel-IsLeftBehind :
    (k j : ℕ) (name t : Text) (h : Handler)
    → IsLeftBehind k name h
    → IsLeftBehind k name (join_channel j t h).1
unfolding join_channel
join_channel-IsLeftBehind k j name t h g = elim (Option-cases (find j h)) [
  | inl missing ↦ let kept : (join_channel j t h).1 ≡ h = ground arith in rw kept g
  | inr (c, found) ↦
      let joined : (join_channel j t h).1 ≡ enter_channel j t c (ensure_channel t h) =
        ground arith in
      rw joined (
        enter_channel-IsLeftBehind k j name t c (ensure_channel t h)
          (ensure_channel-IsLeftBehind k name t h g))
]

-- Whoever leaves a channel is registered, and so not one that was left behind.
find_registered :
    (j : ℕ) (h : Handler) (c : Connection) → find j h ≡ some c → mem j h.connections ≡ true
unfolding find
find_registered j h c e = ground arith

other_id : (k j : ℕ) (xs : List ℕ) → mem k xs ≡ false → mem j xs ≡ true → k ≢ j
other_id k j xs a b = cc

pub leave_forms :
    (j : ℕ) (t : Text) (h : Handler) (c : Connection) (ch : Channel)
    → find j h ≡ some c
    → h.channels t ≡ some ch
    → (leave_channel j t h).1 ≡ record h {
      channels = update h.channels t (record ch { members = delete j ch.members });
      store = assign h.store j (record c { channels = delete_name t c.channels });
    }
unfolding leave_channel
leave_forms j t h c ch found there = ground arith

pub leave_channel-IsLeftBehind :
    (k j : ℕ) (name t : Text) (h : Handler)
    → IsLeftBehind k name h
    → IsLeftBehind k name (leave_channel j t h).1
unfolding leave_channel has_member
leave_channel-IsLeftBehind k j name t h g = elim (Option-cases (find j h)) [
  | inl missing ↦ let kept : (leave_channel j t h).1 ≡ h = ground arith in rw kept g
  | inr (c, found) ↦ elim (Option-cases (h.channels t)) [
    | inl missing ↦ let kept : (leave_channel j t h).1 ≡ h = ground arith in rw kept g
    | inr (ch, there) ↦
        let other = other_id k j h.connections g.unregistered (find_registered j h c found) in
        rw (leave_forms j t h c ch found there) (record {
          made = g.made;
          unregistered = g.unregistered;
          member =
              update-has_member k name t (record ch { members = delete j ch.members }) h.channels
                (λ old same m.
                  mem-delete k j ch.members other ∙ ap (λ x. has_member k x) (sym there ∙ same) ∙ m)
                g.member;
        })
  ]
]

leave_channels-IsLeftBehind :
    (k j : ℕ) (name : Text) (names : List Text) (h : Handler)
    → IsLeftBehind k name h
    → IsLeftBehind k name (leave_channels j names h)
unfolding leave_channels
leave_channels-IsLeftBehind k j name [] h g = g
leave_channels-IsLeftBehind k j name (t ∷ ts) h g =
    leave_channels-IsLeftBehind k j name ts (leave_channel j t h).1
      (leave_channel-IsLeftBehind k j name t h g)

unregister-IsLeftBehind :
    (k j : ℕ) (name : Text) (c : Connection) (h : Handler)
    → IsLeftBehind k name h
    → IsLeftBehind k name (unregister j c h)
unfolding unregister
unregister-IsLeftBehind k j name c h g = record {
  made = g.made;
  unregistered = mem-delete_absent k j h.connections g.unregistered;
  member = g.member;
}

end_connection-KeepsRooms : (j : ℕ) (h : Handler) → KeepsRooms h (end_connection j h)
unfolding end_connection
end_connection-KeepsRooms j h = record {
  same_next = refl;
  same_connections = refl;
  same_channels = refl;
}

pub close_connection-IsLeftBehind :
    (k j : ℕ) (name : Text) (h : Handler)
    → IsLeftBehind k name h
    → IsLeftBehind k name (close_connection j h)
unfolding close_connection
close_connection-IsLeftBehind k j name h g = elim (Option-cases (h.store j)) [
  | inl missing ↦ let kept : close_connection j h ≡ h = ground arith in rw kept g
  | inr (c, found) ↦
      let left = leave_channels j c.channels (unregister j c h) in
      let ended : IsLeftBehind k name (end_connection j left) =
        KeepsRooms-IsLeftBehind k name left (end_connection j left)
          (end_connection-KeepsRooms j left)
          (leave_channels-IsLeftBehind k j name c.channels (unregister j c h)
            (unregister-IsLeftBehind k j name c h g)) in
      elim (Bool-cases c.is_active) [
        | inl active ↦
            let closed : close_connection j h ≡ end_connection j left = ground arith in
            rw closed ended
        | inr inactive ↦ let kept : close_connection j h ≡ h = ground arith in rw kept g
      ]
]

-- A connection that is closed while it is a member is left behind.
pub close_leaves_behind :
    (k : ℕ) (name : Text) (c : Connection) (h : Handler)
    → k < h.next_id
    → h.store k ≡ some c
    → c.is_active ≡ true
    → has_member k (h.channels name) ≡ true
    → IsLeftBehind k name (close_connection k h)
unfolding close_connection unregister
close_leaves_behind k name c h made found active member =
    let gone : IsLeftBehind k name (unregister k c h) = record {
      made = made;
      unregistered = mem-delete_same k h.connections;
      member = member;
    } in
    let left = leave_channels k c.channels (unregister k c h) in
    let closed : close_connection k h ≡ end_connection k left = ground arith in
    rw closed (
      KeepsRooms-IsLeftBehind k name left (end_connection k left) (end_connection-KeepsRooms k left)
        (leave_channels-IsLeftBehind k k name c.channels (unregister k c h) gone))
