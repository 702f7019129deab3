-- ===== src/WebSocket/Replies/Sends.antt =====
-- The sends to connections.
use advanced_golang_tutorial.Prelude.{
  ℕ, ◌≡◌, refl, true, List, [], ◌∷◌, Option, none, some, arith, Text, Bool-cases, Option-cases, inl,
  inr,
}
use advanced_golang_tutorial.WebSocket.Connections.{Connection, Message, try_send}
use advanced_golang_tutorial.WebSocket.{Handler, find}
use advanced_golang_tutorial.WebSocket.Workers.{
  send_through, send_registered, send_to_connection, is_sender, send_to_member, send_to_members,
  send_to_channel, send_error_message,
}
use advanced_golang_tutorial.WebSocket.Replies.{
  is_passed_on, IsPlain, HasNoReply, assign-IsPlain, try_send-IsPlain, find_store,
}

pub send_through-HasNoReply :
    (k : ℕ) (c : Connection) (m : Message) (h : Handler)
    → is_passed_on m.kind ≡ true
    → IsPlain c
    → HasNoReply h
    → HasNoReply (send_through k c m h).1
unfolding send_through
send_through-HasNoReply k c m h passed p s = (
  assign-IsPlain h.store k (try_send h.config m c).1 s.0 (try_send-IsPlain h.config m c passed p),
  s.1,
)

pub send_to_connection-HasNoReply :
    (to : Option ℕ) (m : Message) (h : Handler)
    → is_passed_on m.kind ≡ true
    → HasNoReply h
    → HasNoReply (send_to_connection to m h).1
unfolding send_to_connection send_registered
send_to_connection-HasNoReply none m h passed s = s
send_to_connection-HasNoReply (some k) m h passed s = elim (Option-cases (find k h)) [
  | inl missing ↦ let kept : (send_registered k m h).1 ≡ h = ground arith in rw kept s
  | inr (c, found) ↦
      let sent : (send_registered k m h).1 ≡ (send_through k c m h).1 = ground arith in
      rw sent (send_through-HasNoReply k c m h passed (s.0 k c (find_store k h c found)) s)
]

pub send_to_member-HasNoReply :
    (m : Message) (k : ℕ) (h : Handler)
    → is_passed_on m.kind ≡ true
    → HasNoReply h
    → HasNoReply (send_to_member m k h)
unfolding send_to_member
send_to_member-HasNoReply m k h passed s = elim (Bool-cases (is_sender k m)) [
  | inl own ↦ let kept : send_to_member m k h ≡ h = ground arith in rw kept s
  | inr others ↦ elim (Option-cases (h.store k)) [
    | inl missing ↦ let kept : send_to_member m k h ≡ h = ground arith in rw kept s
    | inr (c, found) ↦
        let sent : send_to_member m k h ≡ (send_through k c m h).1 = ground arith in
        rw sent (send_through-HasNoReply k c m h passed (s.0 k c found) s)
  ]
]

pub send_to_members-HasNoReply :
    (m : Message) (ks : List ℕ) (h : Handler)
    → is_passed_on m.kind ≡ true
    → HasNoReply h
    → HasNoReply (send_to_members m ks h)
unfolding send_to_members
send_to_members-HasNoReply m [] h passed s = s
send_to_members-HasNoReply m (k ∷ ks) h passed s =
    send_to_members-HasNoReply m ks (send_to_member m k h) passed
      (send_to_member-HasNoReply m k h passed s)

pub send_to_channel-HasNoReply :
    (t : Text) (m : Message) (h : Handler)
    → is_passed_on m.kind ≡ true
    → HasNoReply h
    → HasNoReply (send_to_channel t m h).1
unfolding send_to_channel
send_to_channel-HasNoReply t m h passed s = elim (Option-cases (h.channels t)) [
  | inl missing ↦ let kept : (send_to_channel t m h).1 ≡ h = ground arith in rw kept s
  | inr (ch, found) ↦
      let sent : (send_to_channel t m h).1 ≡ send_to_members m ch.members h = ground arith in
      rw sent (send_to_members-HasNoReply m ch.members h passed s)
]

pub send_error_message-HasNoReply :
    (to : Option ℕ) (h : Handler) → HasNoReply h → HasNoReply (send_error_message to h)
unfolding send_error_message is_passed_on
send_error_message-HasNoReply to h s = send_to_connection-HasNoReply to _ h refl s
