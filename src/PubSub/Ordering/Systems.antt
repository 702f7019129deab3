-- ===== src/PubSub/Ordering/Systems.antt =====
-- Systems that deliver in order: every operation keeps each topic in order.
use advanced_golang_tutorial.Prelude.{
  ℕ, suc, ◌+◌, ◌≤◌, ◌<◌, ◌≡◌, refl, subst, ◌⊎◌, true, [], ◌∷◌, ◌++◌, Option, none, some, arith,
  Text, u64, two_64, Option-cases, Bool-cases, inl, inr, same_text,
}
use advanced_golang_tutorial.PubSub.Subscribers.{PubSubConfig, Message, new_subscriber}
use advanced_golang_tutorial.PubSub.{
  PubSubSystem, Topic, update, new_topic, create_topic, subscribe, publish, add_subscriber, enqueue,
}
use advanced_golang_tutorial.PubSub.Runs.{at_topic}
use advanced_golang_tutorial.PubSub.Ordering.Topics.{
  IsSorted, new_topic-IsSorted, later-IsSorted, join-IsSorted, publish-IsSorted,
}

module _ {P : Type 0} where
  -- Every topic of a map is in order.
  abbrev pub AreSorted : PubSubConfig → ℕ → (Text → Option (Topic P)) → Type 0
  AreSorted cfg bound topics =
      (name : Text) (t : Topic P) → topics name ≡ some t → IsSorted cfg bound t

  pub record IsOrdered (ps : PubSubSystem P) : Type 0 where
    pub ordering : ps.config.enable_ordering ≡ true
    pub sorted :
        (name : Text) (t : Topic P) → ps.topics name ≡ some t → IsSorted ps.config ps.message_seq t

  update-AreSorted :
      (cfg : PubSubConfig) (bound : ℕ) (topics : Text → Option (Topic P)) (name : Text)
      (t : Topic P)
      → AreSorted cfg bound topics
      → IsSorted cfg bound t
      → AreSorted cfg bound (update topics name t)
  update-AreSorted cfg bound topics name t h s j x e = elim (Bool-cases (same_text name j)) [
    | inl here ↦
        let same : some t ≡ some x = rw (here, update) at e in
        let equal : t ≡ x = cc in subst (IsSorted cfg bound) equal s
    | inr there ↦ let same : topics j ≡ some x = rw (there, update) at e in h j x same
  ]

  later-AreSorted :
      (cfg : PubSubConfig) (bound bound' : ℕ) (topics : Text → Option (Topic P))
      → bound ≤ bound'
      → AreSorted cfg bound topics
      → AreSorted cfg bound' topics
  later-AreSorted cfg bound bound' topics h a j x e = later-IsSorted cfg bound bound' x h (a j x e)

  create_topic_cases :
      (name : Text) (ps : PubSubSystem P)
      → let ps' = (create_topic name ps).1 in
        (ps' ≡ ps) ⊎ (ps' ≡ record ps { topics = update ps.topics name new_topic })
  unfolding create_topic
  create_topic_cases name ps = ground arith

  pub create_topic-IsOrdered :
      (name : Text) (ps : PubSubSystem P)
      → IsOrdered ps
      → IsOrdered (create_topic name ps).1 × ((create_topic name ps).1.message_seq ≡ ps.message_seq)
  create_topic-IsOrdered name ps o = elim (create_topic_cases name ps) [
    | inl same ↦ rw same (o, refl)
    | inr made ↦ rw made (
      record {
        ordering = o.ordering;
        sorted =
            update-AreSorted ps.config ps.message_seq ps.topics name new_topic o.sorted
              (new_topic-IsSorted ps.config ps.message_seq);
      },
      refl,
    )
  ]

  subscribe_cases :
      (name id : Text) (ps : PubSubSystem P) (t : Topic P)
      → ps.topics name ≡ some t
      → let ps' = (subscribe name id ps).1 in
        let joined = record t { subscribers = t.subscribers ++ new_subscriber id ∷ [] } in
        (ps' ≡ ps) ⊎ (ps' ≡ record ps { topics = update ps.topics name joined })
  unfolding subscribe add_subscriber
  subscribe_cases name id ps t found = ground arith

  subscribe_missing :
      (name id : Text) (ps : PubSubSystem P) → ps.topics name ≡ none → (subscribe name id ps).1 ≡ ps
  unfolding subscribe
  subscribe_missing name id ps missing = ground arith

  pub subscribe-IsOrdered :
      (name id : Text) (ps : PubSubSystem P)
      → IsOrdered ps
      → IsOrdered (subscribe name id ps).1 × ((subscribe name id ps).1.message_seq ≡ ps.message_seq)
  subscribe-IsOrdered name id ps o = elim (Option-cases (ps.topics name)) [
    | inl missing ↦ rw (subscribe_missing name id ps missing) (o, refl)
    | inr (t, found) ↦ elim (subscribe_cases name id ps t found) [
      | inl same ↦ rw same (o, refl)
      | inr made ↦ rw made (
        record {
          ordering = o.ordering;
          sorted =
              update-AreSorted ps.config ps.message_seq ps.topics name
                (record t { subscribers = t.subscribers ++ new_subscriber id ∷ [] }) o.sorted
                (join-IsSorted ps.config ps.message_seq id t (o.sorted name t found));
        },
        refl,
      )
    ]
  ]

  publish_cases :
      (name : Text) (payload : P) (ps : PubSubSystem P) (t : Topic P)
      → ps.topics name ≡ some t
      → let ps' = (publish name payload ps).1 in
        let seq = u64 (ps.message_seq + 1) in
        let m : Message P = record { sequence = seq; payload = payload } in
        let sent = record t { messages = t.messages ++ m ∷ [] } in
        (ps' ≡ ps)
        ⊎ ((ps' ≡ record ps { message_seq = seq })
            ⊎ (ps' ≡ record ps { message_seq = seq; topics = update ps.topics name sent }))
  unfolding publish enqueue
  publish_cases name payload ps t found = ground arith

  publish_missing :
      (name : Text) (payload : P) (ps : PubSubSystem P)
      → ps.topics name ≡ none
      → (publish name payload ps).1 ≡ ps
  unfolding publish
  publish_missing name payload ps missing = ground arith

  pub publish-IsOrdered :
      (name : Text) (payload : P) (ps : PubSubSystem P)
      → ps.message_seq + 1 < two_64
      → IsOrdered ps
      → IsOrdered (publish name payload ps).1
        × ((publish name payload ps).1.message_seq ≤ suc ps.message_seq)
  publish-IsOrdered name payload ps fits o = elim (Option-cases (ps.topics name)) [
    | inl missing ↦ rw (publish_missing name payload ps missing) (o, omega arith)
    | inr (t, found) ↦
        let seq = u64 (ps.message_seq + 1) in
        let above : ps.message_seq < seq = omega arith in
        let m : Message P = record { sequence = seq; payload = payload } in
        let sorted =
          later-AreSorted ps.config ps.message_seq seq ps.topics (omega arith) o.sorted in
        elim (publish_cases name payload ps t found) [
          | inl same ↦ rw same (o, omega arith)
          | inr (inl full) ↦
              rw full (record { ordering = o.ordering; sorted = sorted }, omega arith)
          | inr (inr sent) ↦ rw sent (
            record {
              ordering = o.ordering;
              sorted =
                  update-AreSorted ps.config seq ps.topics name
                    (record t { messages = t.messages ++ m ∷ [] }) sorted
                    (publish-IsSorted ps.config ps.message_seq m t above (o.sorted name t found));
            },
            omega arith,
          )
        ]
  ]

  -- A topic that an event changes.
  pub at_topic-IsOrdered :
      (name : Text) (f : Topic P → Topic P) (ps : PubSubSystem P)
      → ((t : Topic P)
          → IsSorted ps.config ps.message_seq t
          → IsSorted ps.config ps.message_seq (f t))
      → IsOrdered ps
      → IsOrdered (at_topic name f ps) × ((at_topic name f ps).message_seq ≡ ps.message_seq)
  at_topic-IsOrdered name f ps keeps o = elim (Option-cases (ps.topics name)) [
    | inl missing ↦ rw (missing, at_topic) (o, refl)
    | inr (t, found) ↦
        rw (found, at_topic)
          (
            record {
              ordering = o.ordering;
              sorted =
                  update-AreSorted ps.config ps.message_seq ps.topics name (f t) o.sorted
                    (keeps t (o.sorted name t found));
            },
            refl,
          )
  ]
