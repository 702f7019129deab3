-- ===== src/PubSub/Runs.antt =====
-- The goroutines of the system. What a goroutine does with one message is one step: the distribution
-- to the subscribers, a delivery with the entry in the pending map and the send, the taking up of a
-- message for the handler, the end of its work, and an acknowledgement with its receipt and the
-- deletion from the pending map. Other goroutines come in between these steps and not within them.
use advanced_golang_tutorial.Prelude.{
  ℕ, zero, suc, List, [], ◌∷◌, none, some, get_elem?, erase_idx, Text, Bool,
}
use advanced_golang_tutorial.PubSub.Subscribers.{
  Subscriber, deliver_to_subscriber, process_message, finish_message, process_acknowledgment,
}
use advanced_golang_tutorial.PubSub.{
  PubSubSystem, Topic, update, start, stop, create_topic, subscribe, publish, process_topic_message,
}

pub data Event (P : Type 0) : Type 0 where
  creates : Text → Event P
  subscribes : Text → Text → Event P
  publishes : Text → P → Event P
  distributes : Text → Event P
  delivers : Text → ℕ → Event P
  processes : Text → ℕ → Event P
  finishes : Text → ℕ → (ℕ → Bool) → (ℕ → Bool) → Event P
  acknowledges : Text → ℕ → Event P
  starts : Event P
  stops : Event P

module _ {P : Type 0} where
  abbrev pub modify : ℕ → (Subscriber P → Subscriber P) → List (Subscriber P) → List (Subscriber P)
  modify i f [] = []
  modify zero f (s ∷ ss) = f s ∷ ss
  modify (suc i) f (s ∷ ss) = s ∷ modify i f ss

  abbrev pub at_topic : Text → (Topic P → Topic P) → PubSubSystem P → PubSubSystem P
  at_topic name f ps = elim (ps.topics name) [
    | none ↦ ps
    | some t ↦ record ps { topics = update ps.topics name (f t) }
  ]

  abbrev pub at_subscriber : ℕ → (Subscriber P → Subscriber P) → Topic P → Topic P
  at_subscriber i f t = record t { subscribers = modify i f t.subscribers }

  unfoldable pub step : Event P → PubSubSystem P → PubSubSystem P
  step (creates name) ps = (create_topic name ps).1
  step (subscribes name id) ps = (subscribe name id ps).1
  step (publishes name payload) ps = (publish name payload ps).1
  step (distributes name) ps = at_topic name (process_topic_message ps.config) ps
  step (delivers name k) ps =
      at_topic name
        (λ t. elim (get_elem? t.in_flight k) [
          | none ↦ t
          | some (i, m) ↦
              at_subscriber i (deliver_to_subscriber ps.config m)
                (record t { in_flight = erase_idx t.in_flight k })
        ])
        ps
  step (processes name i) ps = at_topic name (at_subscriber i process_message) ps
  step (finishes name i works cancels) ps =
      at_topic name (at_subscriber i (finish_message ps.config works cancels)) ps
  step (acknowledges name i) ps = at_topic name (at_subscriber i process_acknowledgment) ps
  step starts ps = (start ps).1
  step stops ps = (stop ps).1

  -- First to last.
  unfoldable pub run : List (Event P) → PubSubSystem P → PubSubSystem P
  unfolding step
  run [] ps = ps
  run (e ∷ es) ps = run es (step e ps)
