-- ===== src/PubSub/Ordering/Topics.antt =====
-- Topics whose messages and subscribers are in order.
use advanced_golang_tutorial.Prelude.{
  ℕ, zero, suc, ◌≤◌, ◌<◌, ◌≡◌, refl, true, List, [], ◌∷◌, ◌++◌, arith, All, All-mono, All-snoc, map,
  Text,
}
use advanced_golang_tutorial.PubSub.Subscribers.{
  PubSubConfig, Message, Subscriber, new_subscriber, deliver_to_subscriber,
}
use advanced_golang_tutorial.PubSub.{Topic, new_topic, distribute_message, process_topic_message}
use advanced_golang_tutorial.PubSub.Runs.{modify, at_subscriber}
use advanced_golang_tutorial.PubSub.Guarantee.{new_subscriber-Accounts}
use advanced_golang_tutorial.PubSub.Guarantee.Serving.{Serves, Serves-deliver}
use advanced_golang_tutorial.PubSub.Ordering.{
  Ascends, Below, Ascends-snoc, Below-snoc, Below-weaken, Ascends-weaken, Follows-publish,
  Tracks-later,
}

module _ {P : Type 0} where
  pub record IsSorted (cfg : PubSubConfig) (bound : ℕ) (t : Topic P) : Type 0 where
    pub queue_ascends : Ascends 0 t.messages
    pub queue_numbered : All (λ m. m.sequence ≤ bound) t.messages
    pub tracks : All (λ s. Serves cfg bound t.messages s) t.subscribers
    pub none_in_flight : t.in_flight ≡ []

  All-map :
      (Q R : Subscriber P → Type 0) (f : Subscriber P → Subscriber P)
      → ((s : Subscriber P) → Q s → R (f s))
      → (ss : List (Subscriber P)) → All Q ss
      → All R (map f ss)
  All-map Q R f step [] h = tt
  All-map Q R f step (s ∷ ss) h = (step s h.0, All-map Q R f step ss h.1)

  All-modify :
      (Q : Subscriber P → Type 0) (f : Subscriber P → Subscriber P)
      → ((s : Subscriber P) → Q s → Q (f s))
      → (i : ℕ) (ss : List (Subscriber P)) → All Q ss
      → All Q (modify i f ss)
  All-modify Q f step i [] h = tt
  All-modify Q f step zero (s ∷ ss) h = (step s h.0, h.1)
  All-modify Q f step (suc i) (s ∷ ss) h = (h.0, All-modify Q f step i ss h.1)

  pub new_topic-IsSorted : (cfg : PubSubConfig) (bound : ℕ) → IsSorted cfg bound new_topic
  new_topic-IsSorted cfg bound = record {
    queue_ascends = tt;
    queue_numbered = tt;
    tracks = tt;
    none_in_flight = refl;
  }

  pub later-IsSorted :
      (cfg : PubSubConfig) (bound bound' : ℕ) (t : Topic P)
      → bound ≤ bound'
      → IsSorted cfg bound t
      → IsSorted cfg bound' t
  later-IsSorted cfg bound bound' t h s = record {
    queue_ascends = s.queue_ascends;
    queue_numbered = Below-weaken bound bound' t.messages h s.queue_numbered;
    tracks =
        All-mono (Serves cfg bound t.messages) (Serves cfg bound' t.messages)
          (λ x v. (Tracks-later bound bound' t.messages x h v.0, v.1)) t.subscribers s.tracks;
    none_in_flight = s.none_in_flight;
  }

  pub join-IsSorted :
      (cfg : PubSubConfig) (bound : ℕ) (id : Text) (t : Topic P)
      → IsSorted cfg bound t
      → IsSorted cfg bound (record t { subscribers = t.subscribers ++ new_subscriber id ∷ [] })
  unfolding new_subscriber
  join-IsSorted cfg bound id t s = record {
    queue_ascends = s.queue_ascends;
    queue_numbered = s.queue_numbered;
    tracks = All-snoc (Serves cfg bound t.messages) t.subscribers (new_subscriber id) s.tracks (
        (
          record {
            in_order = tt;
            ahead = s.queue_ascends;
            recent = omega arith;
            numbered = s.queue_numbered;
          },
          λ g. new_subscriber-Accounts id,
        ));
    none_in_flight = s.none_in_flight;
  }

  pub publish-IsSorted :
      (cfg : PubSubConfig) (bound : ℕ) (m : Message P) (t : Topic P)
      → bound < m.sequence
      → IsSorted cfg bound t
      → IsSorted cfg m.sequence (record t { messages = t.messages ++ m ∷ [] })
  publish-IsSorted cfg bound m t h s = record {
    queue_ascends =
        Ascends-snoc 0 bound t.messages m s.queue_ascends s.queue_numbered (omega arith) h;
    queue_numbered = Below-snoc bound t.messages m s.queue_numbered h;
    tracks =
        All-mono (Serves cfg bound t.messages) (Serves cfg m.sequence (t.messages ++ m ∷ []))
          (λ x v. (Follows-publish bound t.messages x.taken x.messages m h v.0, v.1)) t.subscribers
          s.tracks;
    none_in_flight = s.none_in_flight;
  }

  pub modify-IsSorted :
      (cfg : PubSubConfig) (bound i : ℕ) (f : Subscriber P → Subscriber P) (t : Topic P)
      → ((s : Subscriber P) → Serves cfg bound t.messages s → Serves cfg bound t.messages (f s))
      → IsSorted cfg bound t
      → IsSorted cfg bound (at_subscriber i f t)
  modify-IsSorted cfg bound i f t step s = record {
    queue_ascends = s.queue_ascends;
    queue_numbered = s.queue_numbered;
    tracks = All-modify (Serves cfg bound t.messages) f step i t.subscribers s.tracks;
    none_in_flight = s.none_in_flight;
  }

  distribute-IsSorted :
      (cfg : PubSubConfig) (bound : ℕ) (m : Message P) (ms : List (Message P)) (t : Topic P)
      → cfg.enable_ordering ≡ true
      → t.messages ≡ m ∷ ms
      → IsSorted cfg bound t
      → IsSorted cfg bound (distribute_message cfg m (record t { messages = ms }))
  unfolding distribute_message
  distribute-IsSorted cfg bound m ms t o e s =
      let ascends : Ascends 0 (m ∷ ms) = (let a = s.queue_ascends in rw e at a) in
      let numbered : Below bound (m ∷ ms) = (let b = s.queue_numbered in rw e at b) in
      let tracks : All (Serves cfg bound (m ∷ ms)) t.subscribers =
        (let a = s.tracks in rw e at a) in
      rw (o, distribute_message)
        (record {
          queue_ascends = Ascends-weaken m.sequence 0 ms (omega arith) ascends.1;
          queue_numbered = numbered.1;
          tracks =
              All-map (Serves cfg bound (m ∷ ms)) (Serves cfg bound ms)
                (deliver_to_subscriber cfg m) (Serves-deliver cfg bound ms m) t.subscribers tracks;
          none_in_flight = s.none_in_flight;
        })

  process_from :
      (cfg : PubSubConfig) (bound : ℕ) (ms : List (Message P)) (t : Topic P)
      → cfg.enable_ordering ≡ true
      → t.messages ≡ ms
      → IsSorted cfg bound t
      → IsSorted cfg bound (process_topic_message cfg t)
  unfolding process_topic_message
  process_from cfg bound [] t o e s =
      let stays : process_topic_message cfg t ≡ t = ground arith in rw stays s
  process_from cfg bound (m ∷ ms) t o e s =
      let goes : process_topic_message cfg t
          ≡ distribute_message cfg m (record t { messages = ms }) =
        ground arith in
      rw goes (distribute-IsSorted cfg bound m ms t o e s)

  pub process_topic_message-IsSorted :
      (cfg : PubSubConfig) (bound : ℕ) (t : Topic P)
      → cfg.enable_ordering ≡ true
      → IsSorted cfg bound t
      → IsSorted cfg bound (process_topic_message cfg t)
  process_topic_message-IsSorted cfg bound t o s = process_from cfg bound t.messages t o refl s
