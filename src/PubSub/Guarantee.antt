-- ===== src/PubSub/Guarantee.antt =====
-- What the map of pending messages of a subscriber holds, with EnableDeliveryGuarantee.
use advanced_golang_tutorial.Prelude.{
  ℕ, suc, ◌+◌, ◌≤◌, ◌≡◌, refl, ap, ◌∙◌, ◌⊎◌, Bool, true, false, List, [], ◌∷◌, ◌++◌, Option, none,
  some, arith, count, ltb, Bool-cases, Option-cases, inl, inr,
}
use advanced_golang_tutorial.PubSub.Subscribers.{
  PubSubConfig, Message, Subscriber, has, put, delete, new_subscriber, send, deliver_to_subscriber,
  begin, process_message, acknowledge, finish_message, process_acknowledgment, take_first,
}
use advanced_golang_tutorial.PubSub.Ordering.{
  Ascends, newest, Tracks, Tracks-deliver, Tracks-process, Tracks-finish, Tracks-acknowledgment,
}
use advanced_golang_tutorial.PubSub.Counts.{
  has_absent, count-put, count-append, count-delete-put, count-delete-first, numbers, numbers_snoc,
  Ascends-count, Ascends-above, Ascends-prefix, Descends-absent, Descends-once,
}
pub mod Calls
pub mod Acknowledgments
pub mod Serving

module _ {P : Type 0} where
  abbrev pub handled : Option (Message P) → List ℕ
  handled none = []
  handled (some m) = m.sequence ∷ []

  -- Every message that came to the subscriber is in its queue or with its handler, and is pending
  -- until its acknowledgement is processed.
  pub record Accounts (s : Subscriber P) : Type 0 where
    pub handed_over : s.processed ≡ numbers s.taken
    pub done_with :
        (k : ℕ)
        → count k s.processed
          ≡ count k (handled s.handling)
            + count k s.acks
            + count k s.unacknowledged
            + count k s.acknowledged
    pub waiting :
        (k : ℕ)
        → count k s.pending + count k s.acknowledged
          ≡ count k (numbers s.messages) + count k s.processed

  pub new_subscriber-Accounts : (id : List ℕ) → Accounts (new_subscriber id)
  unfolding new_subscriber
  new_subscriber-Accounts id = record {
    handed_over = refl;
    done_with = λ k. refl;
    waiting = λ k. refl;
  }

  -- A message that is new to the subscriber.
  IsNew : Message P → Subscriber P → Type 0
  IsNew m s = (count m.sequence s.pending ≡ 0) × (has m.sequence s.processed ≡ false)

  incoming-IsNew :
      (bound : ℕ) (waiting : List (Message P)) (m : Message P) (s : Subscriber P)
      → Tracks bound (m ∷ waiting) s
      → Accounts s
      → IsNew m s
  unfolding IsNew
  incoming-IsNew bound waiting m s f acc =
      let (above, unqueued) = Ascends-above (newest s.taken) s.messages m waiting f.ahead in
      let uncalled : count m.sequence s.processed ≡ 0 =
        ap (count m.sequence) acc.handed_over
        ∙ Descends-absent m.sequence s.taken f.in_order above in
      let balance = acc.waiting m.sequence in
      (omega arith, has_absent m.sequence s.processed uncalled)

  deliver_forms :
      (cfg : PubSubConfig) (m : Message P) (s : Subscriber P)
      → cfg.enable_delivery_guarantee ≡ true
      → has m.sequence s.processed ≡ false
      → let added = put m.sequence s.pending in
        (deliver_to_subscriber cfg m s
          ≡ record s { pending = added; messages = s.messages ++ m ∷ [] })
        ⊎ (deliver_to_subscriber cfg m s ≡ record s { pending = delete m.sequence added })
  unfolding deliver_to_subscriber send
  deliver_forms cfg m s g unprocessed = ground arith

  pub deliver-Accounts :
      (cfg : PubSubConfig) (bound : ℕ) (waiting : List (Message P)) (m : Message P)
      (s : Subscriber P)
      → cfg.enable_delivery_guarantee ≡ true
      → Tracks bound (m ∷ waiting) s
      → Accounts s
      → Accounts (deliver_to_subscriber cfg m s)
  unfolding IsNew
  deliver-Accounts cfg bound waiting m s g f acc =
      let (unpending, unprocessed) = incoming-IsNew bound waiting m s f acc in
      elim (deliver_forms cfg m s g unprocessed) [
        | inl sent ↦ rw sent (record {
          handed_over = acc.handed_over;
          done_with = acc.done_with;
          waiting = λ k.
              let balance = acc.waiting k in
              let put_in = count-put k m.sequence s.pending unpending in
              let queued =
                ap (count k) (numbers_snoc s.messages m)
                ∙ count-append k m.sequence (numbers s.messages) in
              omega arith;
        })
        | inr dropped ↦ rw dropped (record {
          handed_over = acc.handed_over;
          done_with = acc.done_with;
          waiting = λ k. rw (count-delete-put k m.sequence s.pending unpending) (acc.waiting k);
        })
      ]
