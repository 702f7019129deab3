-- ===== src/PubSub/Guarantee/Serving.antt =====
-- What a subscriber keeps: the order and the accounts.
use advanced_golang_tutorial.Prelude.{ℕ, ◌+◌, ◌≡◌, Bool, true, List, ◌∷◌, arith, count}
use advanced_golang_tutorial.PubSub.Subscribers.{
  PubSubConfig, Message, Subscriber, deliver_to_subscriber, process_message, finish_message,
  process_acknowledgment,
}
use advanced_golang_tutorial.PubSub.Ordering.{
  Tracks, Tracks-deliver, Tracks-process, Tracks-finish, Tracks-acknowledgment,
}
use advanced_golang_tutorial.PubSub.Counts.{numbers}
use advanced_golang_tutorial.PubSub.Guarantee.{Accounts, handled, deliver-Accounts}
use advanced_golang_tutorial.PubSub.Guarantee.Calls.{process-Accounts, finish-Accounts}
use advanced_golang_tutorial.PubSub.Guarantee.Acknowledgments.{acknowledgment-Accounts}

module _ {P : Type 0} where
  -- What a subscriber keeps, with the messages that wait in its topic.
  abbrev pub Serves : PubSubConfig → ℕ → List (Message P) → Subscriber P → Type 0
  Serves cfg bound waiting s =
      Tracks bound waiting s × (cfg.enable_delivery_guarantee ≡ true → Accounts s)

  pub Serves-deliver :
      (cfg : PubSubConfig) (bound : ℕ) (waiting : List (Message P)) (m : Message P)
      (s : Subscriber P)
      → Serves cfg bound (m ∷ waiting) s
      → Serves cfg bound waiting (deliver_to_subscriber cfg m s)
  Serves-deliver cfg bound waiting m s (f, acc) = (
    Tracks-deliver cfg bound waiting m s f,
    λ g. deliver-Accounts cfg bound waiting m s g f (acc g),
  )

  pub Serves-process :
      (cfg : PubSubConfig) (bound : ℕ) (waiting : List (Message P)) (s : Subscriber P)
      → Serves cfg bound waiting s
      → Serves cfg bound waiting (process_message s)
  Serves-process cfg bound waiting s (f, acc) =
      (Tracks-process bound waiting s f, λ g. process-Accounts bound waiting s f (acc g))

  pub Serves-finish :
      (cfg : PubSubConfig) (works cancels : ℕ → Bool) (bound : ℕ) (waiting : List (Message P))
      (s : Subscriber P)
      → Serves cfg bound waiting s
      → Serves cfg bound waiting (finish_message cfg works cancels s)
  Serves-finish cfg works cancels bound waiting s (f, acc) = (
    Tracks-finish cfg works cancels bound waiting s f,
    λ g. finish-Accounts cfg works cancels s (acc g),
  )

  pub Serves-acknowledgment :
      (cfg : PubSubConfig) (bound : ℕ) (waiting : List (Message P)) (s : Subscriber P)
      → Serves cfg bound waiting s
      → Serves cfg bound waiting (process_acknowledgment s)
  Serves-acknowledgment cfg bound waiting s (f, acc) = (
    Tracks-acknowledgment bound waiting s f,
    λ g. acknowledgment-Accounts bound waiting s f (acc g),
  )

  pub balanced :
      (s : Subscriber P) (k : ℕ)
      → Accounts s
      → count k s.pending
        ≡ count k (numbers s.messages)
          + count k (handled s.handling)
          + count k s.acks
          + count k s.unacknowledged
  balanced s k acc = let total = acc.done_with k in let balance = acc.waiting k in omega arith
