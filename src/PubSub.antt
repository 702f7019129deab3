-- ===== src/PubSub.antt =====
-- The publish and subscribe system of 07_error_handling_and_monitoring/ans_03/pubsub_synctest.go.
-- A topic with its queue and its subscribers; the system's own map of subscribers has the same
-- entries as the topics' maps and is left out. MaxRetries and BufferSize are not negative.
use advanced_golang_tutorial.Prelude.{
  ℕ, suc, ◌+◌, Bool, true, false, List, [], ◌∷◌, ◌++◌, Option, none, some, if◌then◌else◌, ltb, ◌==◌,
  length, map, u64, Text, same_text, get_elem?, set,
}
pub mod Subscribers
pub mod Runs
pub mod Ordering
pub mod Counts
pub mod Guarantee
mod Tests
use Subscribers.{
  PubSubConfig, Message, Subscriber, new_subscriber, deliver_to_subscriber, process_message,
  finish_message, process_acknowledgment,
}

-- Deliveries of goroutines of their own wait in `in_flight`, by the place of the subscriber.
pub record Topic (P : Type 0) : Type 0 where
  pub messages : List (Message P)
  pub subscribers : List (Subscriber P)
  pub in_flight : List (ℕ × Message P)

pub record PubSubSystem (P : Type 0) : Type 0 where
  pub config : PubSubConfig
  pub topics : Text → Option (Topic P)
  pub message_seq : ℕ
  pub is_running : Bool
  pub stopped : Bool

pub data Error : Type 0 where
  system_stopped : Error
  topic_exists : Error
  no_topic : Error
  subscriber_exists : Error
  channel_full : Error
  already_running : Error
  not_running : Error

-- The default values of NewPubSubSystem.
abbrev or_default : ℕ → ℕ → ℕ
or_default n d = if n == 0 then d else n

module _ {P : Type 0} where
  unfoldable pub new_pub_sub_system : PubSubConfig → PubSubSystem P
  new_pub_sub_system cfg = record {
    config = record cfg {
      buffer_size = or_default cfg.buffer_size 1000;
      max_retries = or_default cfg.max_retries 3;
    };
    topics = λ name. none;
    message_seq = 0;
    is_running = false;
    stopped = false;
  }

  unfoldable pub start : PubSubSystem P → Option Error × PubSubSystem P
  start ps =
      if ps.stopped
      then (some system_stopped, ps)
      else if ps.is_running
      then (some already_running, ps)
      else (none, record ps { is_running = true })

  -- Stop, with the wait for the goroutines.
  unfoldable pub stop : PubSubSystem P → Option Error × PubSubSystem P
  stop ps =
      if ps.is_running
      then (none, record ps { is_running = false; stopped = true })
      else (some not_running, ps)

  abbrev pub update : (Text → Option (Topic P)) → Text → Topic P → Text → Option (Topic P)
  update m k t j = if same_text k j then some t else m j

  abbrev pub new_topic : Topic P
  new_topic = record { messages = []; subscribers = []; in_flight = [] }

  unfoldable pub create_topic : Text → PubSubSystem P → Option Error × PubSubSystem P
  create_topic name ps =
      let made : Option Error × PubSubSystem P = elim (ps.topics name) [
        | some t ↦ (some topic_exists, ps)
        | none ↦ (none, record ps { topics = update ps.topics name new_topic })
      ] in
      if ps.stopped then (some system_stopped, ps) else made

  has_subscriber : Text → List (Subscriber P) → Bool
  has_subscriber id [] = false
  has_subscriber id (s ∷ ss) = if same_text id s.id then true else has_subscriber id ss

  unfoldable pub add_subscriber :
      Text → Text → Topic P → PubSubSystem P → Option Error × PubSubSystem P
  unfolding has_subscriber new_subscriber
  add_subscriber name id t ps =
      if has_subscriber id t.subscribers then (some subscriber_exists, ps) else (
        none,
        record ps {
          topics =
              update ps.topics name
                (record t { subscribers = t.subscribers ++ new_subscriber id ∷ [] });
        },
      )

  unfoldable pub subscribe : Text → Text → PubSubSystem P → Option Error × PubSubSystem P
  unfolding add_subscriber
  subscribe name id ps =
      let made : Option Error × PubSubSystem P = elim (ps.topics name) [
        | none ↦ (some no_topic, ps)
        | some t ↦ add_subscriber name id t ps
      ] in
      if ps.stopped then (some system_stopped, ps) else made

  -- The number is taken before the message is sent, also where the channel is full.
  unfoldable pub enqueue : Text → P → Topic P → PubSubSystem P → Option Error × PubSubSystem P
  enqueue name payload t ps =
      let counted = record ps { message_seq = u64 (ps.message_seq + 1) } in
      let m : Message P = record { sequence = counted.message_seq; payload = payload } in
      if ltb (length t.messages) ps.config.buffer_size
      then (
        none,
        record counted {
          topics = update ps.topics name (record t { messages = t.messages ++ m ∷ [] });
        },
      )
      else (some channel_full, counted)

  unfoldable pub publish : Text → P → PubSubSystem P → Option Error × PubSubSystem P
  unfolding enqueue
  publish name payload ps =
      let made : Option Error × PubSubSystem P = elim (ps.topics name) [
        | none ↦ (some no_topic, ps)
        | some t ↦ enqueue name payload t ps
      ] in
      if ps.stopped then (some system_stopped, ps) else made

  spread : Message P → ℕ → List (Subscriber P) → List (ℕ × Message P)
  spread m i [] = []
  spread m i (s ∷ ss) = (i, m) ∷ spread m (suc i) ss

  -- distributeMessage: in order, or by a goroutine for each subscriber.
  unfoldable pub distribute_message : PubSubConfig → Message P → Topic P → Topic P
  unfolding spread deliver_to_subscriber
  distribute_message cfg m t =
      if cfg.enable_ordering
      then record t { subscribers = map (deliver_to_subscriber cfg m) t.subscribers }
      else record t { in_flight = t.in_flight ++ spread m 0 t.subscribers }

  -- processTopicMessages, for one message.
  unfoldable pub process_topic_message : PubSubConfig → Topic P → Topic P
  unfolding distribute_message
  process_topic_message cfg t = elim t.messages [
    | [] ↦ t
    | m ∷ ms ↦ distribute_message cfg m (record t { messages = ms })
  ]
