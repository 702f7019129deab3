-- ===== src/PubSub/Subscribers.antt =====
-- Subscribers of a topic. A message's ID is "msg-" with its sequence number, so that the number
-- stands for it. `taken`, `acknowledged` and `unacknowledged` record what happened and are read by
-- no operation: the messages taken up for the handler with all its attempts, latest first, those
-- whose acknowledgement was processed, and those that were done with without one.
use advanced_golang_tutorial.Prelude.{
  ℕ, zero, suc, Bool, true, false, ◌&&◌, List, [], ◌∷◌, ◌++◌, Option, none, some, if◌then◌else◌,
  ltb, ◌==◌, length, Text,
}

pub record PubSubConfig : Type 0 where
  pub buffer_size : ℕ
  pub max_retries : ℕ
  pub enable_duplication : Bool
  pub enable_ordering : Bool
  pub enable_delivery_guarantee : Bool

pub record Message (P : Type 0) : Type 0 where
  pub sequence : ℕ
  pub payload : P

pub record Subscriber (P : Type 0) : Type 0 where
  pub id : Text
  pub messages : List (Message P)
  pub processed : List ℕ
  pub acks : List ℕ
  pub pending : List ℕ
  pub handling : Option (Message P)
  pub taken : List (Message P)
  pub acknowledged : List ℕ
  pub unacknowledged : List ℕ

-- Keys of a map.
abbrev pub has : ℕ → List ℕ → Bool
has k [] = false
has k (x ∷ xs) = if k == x then true else has k xs

abbrev pub put : ℕ → List ℕ → List ℕ
put k xs = if has k xs then xs else k ∷ xs

abbrev pub delete : ℕ → List ℕ → List ℕ
delete k [] = []
delete k (x ∷ xs) = let rest = delete k xs in if k == x then rest else x ∷ rest

-- Whether one of the attempts that are left is without an error; `cancels i` ends the wait before
-- attempt i.
unfoldable pub handles : (ℕ → Bool) → (ℕ → Bool) → ℕ → ℕ → Bool
handles works cancels zero i = false
handles works cancels (suc n) i =
    let rest = if cancels (suc i) then false else handles works cancels n (suc i) in
    if works i then true else rest

module _ {P : Type 0} where
  unfoldable pub new_subscriber : Text → Subscriber P
  new_subscriber id = record {
    id = id;
    messages = [];
    processed = [];
    acks = [];
    pending = [];
    handling = none;
    taken = [];
    acknowledged = [];
    unacknowledged = [];
  }

  unfoldable pub send : PubSubConfig → Message P → Subscriber P → Subscriber P
  send cfg m s =
      if ltb (length s.messages) cfg.buffer_size
      then record s { messages = s.messages ++ m ∷ [] }
      else if cfg.enable_delivery_guarantee
      then record s { pending = delete m.sequence s.pending }
      else s

  -- The message waits before it is sent, so that no acknowledgement can come first. The entry, the
  -- send and, where the queue is full, the deletion are composed to one step.
  unfoldable pub deliver_to_subscriber : PubSubConfig → Message P → Subscriber P → Subscriber P
  unfolding send
  deliver_to_subscriber cfg m s =
      let waits =
        if cfg.enable_delivery_guarantee
        then record s { pending = put m.sequence s.pending }
        else s in
      if cfg.enable_duplication && has m.sequence s.processed then s else send cfg m waits

  -- The first part of handleMessage, up to the call of the handler.
  unfoldable pub begin : Message P → Subscriber P → Subscriber P
  begin m s =
      if has m.sequence s.processed
      then s
      else record s { processed = m.sequence ∷ s.processed; handling = some m; taken = m ∷ s.taken }

  unfoldable pub take_first : List (Message P) → Subscriber P → Subscriber P
  unfolding begin
  take_first [] s = s
  take_first (m ∷ ms) s = begin m (record s { messages = ms })

  -- processMessages takes the next message when it is done with the last.
  unfoldable pub process_message : Subscriber P → Subscriber P
  unfolding take_first
  process_message s = elim s.handling [ none ↦ take_first s.messages s | some m ↦ s ]

  -- The end of handleMessage.
  unfoldable pub acknowledge : PubSubConfig → Message P → Subscriber P → Subscriber P
  acknowledge cfg m s =
      if ltb (length s.acks) cfg.buffer_size
      then record s { acks = s.acks ++ m.sequence ∷ []; handling = none }
      else record s { handling = none; unacknowledged = m.sequence ∷ s.unacknowledged }

  unfoldable pub finish_message :
      PubSubConfig → (ℕ → Bool) → (ℕ → Bool) → Subscriber P → Subscriber P
  unfolding acknowledge
  finish_message cfg works cancels s = elim s.handling [
    | none ↦ s
    | some m ↦
        if handles works cancels (suc cfg.max_retries) 0
        then acknowledge cfg m s
        else record s { handling = none; unacknowledged = m.sequence ∷ s.unacknowledged }
  ]

  -- processAcknowledgments, for one acknowledgement: its receipt and the deletion under the lock are
  -- composed to one step.
  unfoldable pub process_acknowledgment : Subscriber P → Subscriber P
  process_acknowledgment s = elim s.acks [
    | [] ↦ s
    | k ∷ acks ↦ record s {
      acks = acks;
      pending = delete k s.pending;
      acknowledged = k ∷ s.acknowledged;
    }
  ]
