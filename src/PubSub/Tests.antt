-- ===== src/PubSub/Tests.antt =====
-- Runs of the publish and subscribe system.
use advanced_golang_tutorial.Prelude.{
  ℕ, ◌+◌, ◌≡◌, refl, true, false, List, [], ◌∷◌, some, arith, All, Text, count, same_text, ◌==◌,
}
use advanced_golang_tutorial.PubSub.Subscribers.{
  PubSubConfig, process_message, finish_message, handles,
}
use advanced_golang_tutorial.PubSub.{
  Topic, new_pub_sub_system, start, create_topic, subscribe, publish, process_topic_message,
}
use advanced_golang_tutorial.PubSub.Runs.{
  Event, starts, creates, subscribes, publishes, distributes, processes, finishes, run,
}
use advanced_golang_tutorial.PubSub.Counts.{numbers}
use advanced_golang_tutorial.PubSub.Guarantee.{handled}
use advanced_golang_tutorial.PubSub.Ordering.Handled.{pending_until_acknowledged}

abbrev ordered : PubSubConfig
ordered = record {
  buffer_size = 2;
  max_retries = 1;
  enable_duplication = true;
  enable_ordering = true;
  enable_delivery_guarantee = true;
}

abbrev orders : Text
orders = b'o' ∷ []

abbrev reader : Text
reader = b'r' ∷ []

-- Four messages are published; the second fails at both attempts, the third waits for the handler's
-- end and the fourth stays in the topic.
abbrev session : List (Event ℕ)
session =
    starts
    ∷ creates orders
    ∷ subscribes orders reader
    ∷ publishes orders 10
    ∷ publishes orders 20
    ∷ distributes orders
    ∷ processes orders 0
    ∷ distributes orders
    ∷ finishes orders 0 (λ i. i == 1) (λ i. false)
    ∷ publishes orders 30
    ∷ publishes orders 40
    ∷ processes orders 0
    ∷ finishes orders 0 (λ i. false) (λ i. false)
    ∷ distributes orders
    ∷ processes orders 0
    ∷ []

abbrev after_session : Topic ℕ
after_session = record {
  messages = record { sequence = 4; payload = 40 } ∷ [];
  subscribers =
      record {
        id = reader;
        messages = [];
        processed = 3 ∷ 2 ∷ 1 ∷ [];
        acks = 1 ∷ [];
        pending = 3 ∷ 2 ∷ 1 ∷ [];
        handling = some (record { sequence = 3; payload = 30 });
        taken =
            record { sequence = 3; payload = 30 }
            ∷ record { sequence = 2; payload = 20 }
            ∷ record { sequence = 1; payload = 10 }
            ∷ [];
        acknowledged = [];
        unacknowledged = 2 ∷ [];
      }
      ∷ [];
  in_flight = [];
}

session_ends : (run session (new_pub_sub_system ordered)).topics orders ≡ some after_session
unfolding run new_pub_sub_system start create_topic subscribe publish process_topic_message
    process_message finish_message same_text handles
session_ends = refl

pending_until_acknowledged_example :
    All
      (λ s.
        (k : ℕ)
        → count k s.pending
          ≡ count k (numbers s.messages)
            + count k (handled s.handling)
            + count k s.acks
            + count k s.unacknowledged)
      after_session.subscribers
pending_until_acknowledged_example =
    pending_until_acknowledged ordered session orders after_session refl refl (omega arith)
      session_ends
