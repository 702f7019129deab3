-- ===== src/PubSub/Ordering/Handled.antt =====
-- Runs of a system that delivers in order.
use advanced_golang_tutorial.Prelude.{
  All-mono, ℕ, suc, ◌+◌, ◌≤◌, ◌<◌, ◌≡◌, refl, ap, ◌∙◌, count, true, List, [], ◌∷◌, none, some,
  arith, All, Text, length, two_64, get_elem?, erase_idx,
}
use advanced_golang_tutorial.PubSub.Subscribers.{
  PubSubConfig, deliver_to_subscriber, process_message, finish_message, process_acknowledgment,
}
use advanced_golang_tutorial.PubSub.{
  PubSubSystem, Topic, new_pub_sub_system, process_topic_message, start, stop, create_topic,
  subscribe, publish, add_subscriber, enqueue,
}
use advanced_golang_tutorial.PubSub.Runs.{
  Event, creates, subscribes, publishes, distributes, delivers, processes, finishes, acknowledges,
  starts, stops, step, run, at_topic, at_subscriber,
}
use advanced_golang_tutorial.PubSub.Counts.{numbers}
use advanced_golang_tutorial.PubSub.Guarantee.{handled}
use advanced_golang_tutorial.PubSub.Guarantee.Serving.{
  Serves, balanced, Serves-process, Serves-finish, Serves-acknowledgment,
}
use advanced_golang_tutorial.PubSub.Ordering.Topics.{
  modify-IsSorted, process_topic_message-IsSorted,
}
use advanced_golang_tutorial.PubSub.Ordering.Systems.{
  IsOrdered, create_topic-IsOrdered, subscribe-IsOrdered, publish-IsOrdered, at_topic-IsOrdered,
}

module _ {P : Type 0} where
  -- With no delivery in flight there is nothing for a goroutine of its own to do.
  delivers_nothing :
      (cfg : PubSubConfig) (k : ℕ) (t : Topic P)
      → t.in_flight ≡ []
      → elim (get_elem? t.in_flight k) [
        | none ↦ t
        | some (i, m) ↦
            at_subscriber i
              (deliver_to_subscriber cfg m)
              (record t { in_flight = erase_idx t.in_flight k })
      ]
        ≡ t
  delivers_nothing cfg k t e = ground arith

  -- An event of one topic that changes no sequence number.
  Advances : PubSubSystem P → PubSubSystem P → Type 0
  Advances ps ps' = IsOrdered ps' × (ps'.message_seq ≤ suc ps.message_seq)

  seq_unchanged :
      (ps ps' : PubSubSystem P)
      → IsOrdered ps' × (ps'.message_seq ≡ ps.message_seq)
      → Advances ps ps'
  unfolding Advances
  seq_unchanged ps ps' h = (h.0, omega (arith, h.1))

  -- Start and Stop change no topic.
  lifecycle :
      (ps : PubSubSystem P)
      → ((start ps).1 ≡ record ps { is_running = (start ps).1.is_running })
        × ((stop ps).1
            ≡ record ps { is_running = (stop ps).1.is_running; stopped = (stop ps).1.stopped })
  unfolding start stop
  lifecycle ps = ground arith

  lifecycle-IsOrdered :
      (ps : PubSubSystem P)
      → IsOrdered ps
      → (IsOrdered (start ps).1 × ((start ps).1.message_seq ≡ ps.message_seq))
        × (IsOrdered (stop ps).1 × ((stop ps).1.message_seq ≡ ps.message_seq))
  lifecycle-IsOrdered ps o =
      let (started, stopped) = lifecycle ps in
      (
        rw started (record { ordering = o.ordering; sorted = o.sorted }, refl),
        rw stopped (record { ordering = o.ordering; sorted = o.sorted }, refl),
      )

  step-IsOrdered :
      (e : Event P) (ps : PubSubSystem P)
      → ps.message_seq + 1 < two_64
      → IsOrdered ps
      → Advances ps (step e ps)
  unfolding step Advances
  step-IsOrdered (creates name) ps h o = seq_unchanged ps _ (create_topic-IsOrdered name ps o)
  step-IsOrdered (subscribes name id) ps h o = seq_unchanged ps _ (subscribe-IsOrdered name id ps o)
  step-IsOrdered (publishes name payload) ps h o = publish-IsOrdered name payload ps h o
  step-IsOrdered (distributes name) ps h o = seq_unchanged ps _ (
      at_topic-IsOrdered name (process_topic_message ps.config) ps
        (λ t. process_topic_message-IsSorted ps.config ps.message_seq t o.ordering) o)
  step-IsOrdered (delivers name k) ps h o = seq_unchanged ps _ (
      at_topic-IsOrdered name _ ps (λ t s. rw (delivers_nothing ps.config k t s.none_in_flight) s)
        o)
  step-IsOrdered (processes name i) ps h o = seq_unchanged ps _ (
      at_topic-IsOrdered name (at_subscriber i process_message) ps
        (λ t.
          modify-IsSorted ps.config ps.message_seq i process_message t
            (Serves-process ps.config ps.message_seq t.messages))
        o)
  step-IsOrdered (finishes name i works cancels) ps h o = seq_unchanged ps _ (
      at_topic-IsOrdered name (at_subscriber i (finish_message ps.config works cancels)) ps
        (λ t.
          modify-IsSorted ps.config ps.message_seq i (finish_message ps.config works cancels) t
            (Serves-finish ps.config works cancels ps.message_seq t.messages))
        o)
  step-IsOrdered (acknowledges name i) ps h o = seq_unchanged ps _ (
      at_topic-IsOrdered name (at_subscriber i process_acknowledgment) ps
        (λ t.
          modify-IsSorted ps.config ps.message_seq i process_acknowledgment t
            (Serves-acknowledgment ps.config ps.message_seq t.messages))
        o)
  step-IsOrdered starts ps h o = seq_unchanged ps _ (lifecycle-IsOrdered ps o).0
  step-IsOrdered stops ps h o = seq_unchanged ps _ (lifecycle-IsOrdered ps o).1

  run-IsOrdered :
      (es : List (Event P)) (ps : PubSubSystem P)
      → ps.message_seq + length es < two_64
      → IsOrdered ps
      → IsOrdered (run es ps)
  unfolding run Advances
  run-IsOrdered [] ps h o = o
  run-IsOrdered (e ∷ es) ps h o =
      let (ordered, counted) = step-IsOrdered e ps (omega arith) o in
      run-IsOrdered es (step e ps) (omega arith) ordered

  new-IsOrdered :
      (cfg : PubSubConfig)
      → cfg.enable_ordering ≡ true
      → let ps = new_pub_sub_system {P = P} cfg in IsOrdered ps × (ps.message_seq ≡ 0)
  unfolding new_pub_sub_system
  new-IsOrdered cfg o = (record { ordering = o; sorted = λ name t e. cc }, refl)

  at_topic_config :
      (name : Text) (f : Topic P → Topic P) (ps : PubSubSystem P)
      → (at_topic name f ps).config ≡ ps.config
  at_topic_config name f ps = ground arith

  step_config : (e : Event P) (ps : PubSubSystem P) → (step e ps).config ≡ ps.config
  unfolding step start stop create_topic subscribe publish add_subscriber enqueue
  step_config (creates name) ps = ground arith
  step_config (subscribes name id) ps = ground arith
  step_config (publishes name payload) ps = ground arith
  step_config (distributes name) ps = at_topic_config name _ ps
  step_config (delivers name k) ps = at_topic_config name _ ps
  step_config (processes name i) ps = at_topic_config name _ ps
  step_config (finishes name i works cancels) ps = at_topic_config name _ ps
  step_config (acknowledges name i) ps = at_topic_config name _ ps
  step_config starts ps = ground arith
  step_config stops ps = ground arith

  run_config : (es : List (Event P)) (ps : PubSubSystem P) → (run es ps).config ≡ ps.config
  unfolding run
  run_config [] ps = refl
  run_config (e ∷ es) ps = run_config es (step e ps) ∙ step_config e ps

  guaranteed :
      (cfg : PubSubConfig) (es : List (Event P))
      → (run es (new_pub_sub_system {P = P} cfg)).config.enable_delivery_guarantee
        ≡ cfg.enable_delivery_guarantee
  unfolding new_pub_sub_system
  guaranteed cfg es =
      ap (λ c. c.enable_delivery_guarantee) (run_config es (new_pub_sub_system {P = P} cfg))

  ends-IsOrdered :
      (cfg : PubSubConfig) (es : List (Event P))
      → cfg.enable_ordering ≡ true
      → length es < two_64
      → IsOrdered (run es (new_pub_sub_system cfg))
  ends-IsOrdered cfg es o fits =
      let (ordered, zeroth) = new-IsOrdered cfg o in
      run-IsOrdered es (new_pub_sub_system cfg) (omega arith) ordered

  -- In every run of a new system whose EnableOrdering and EnableDeliveryGuarantee are set, with
  -- fewer than 2 ^ 64 events, in which each message is distributed and each acknowledgement processed
  -- as a whole before anything else happens: between these events, the map of pending messages of
  -- each subscriber has, once each, the messages that are in its queue, that its handler has, whose
  -- acknowledgement waits to be processed, or that were done with without an acknowledgement; and it
  -- has no other. In the midst of a delivery or of an acknowledgement it may have one more.
  pub pending_until_acknowledged :
      (cfg : PubSubConfig) (es : List (Event P)) (name : Text) (t : Topic P)
      → cfg.enable_ordering ≡ true
      → cfg.enable_delivery_guarantee ≡ true
      → length es < two_64
      → (run es (new_pub_sub_system cfg)).topics name ≡ some t
      → All
          (λ s.
            (k : ℕ)
            → count k s.pending
              ≡ count k (numbers s.messages)
                + count k (handled s.handling)
                + count k s.acks
                + count k s.unacknowledged)
          t.subscribers
  pending_until_acknowledged cfg es name t o g fits found =
      let ps = run es (new_pub_sub_system cfg) in
      let sorted = (ends-IsOrdered cfg es o fits).sorted name t found in
      All-mono (Serves ps.config ps.message_seq t.messages)
        (λ s.
          (k : ℕ)
          → count k s.pending
            ≡ count k (numbers s.messages)
              + count k (handled s.handling)
              + count k s.acks
              + count k s.unacknowledged)
        (λ s v k. balanced s k (v.1 (guaranteed cfg es ∙ g))) t.subscribers sorted.tracks
