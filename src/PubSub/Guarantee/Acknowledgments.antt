-- ===== src/PubSub/Guarantee/Acknowledgments.antt =====
-- The acknowledgements that are processed.
use advanced_golang_tutorial.Prelude.{
  ℕ, suc, ◌≤◌, ◌≡◌, refl, ap, List, [], ◌∷◌, arith, count, ltb, Bool-cases, inl, inr,
}
use advanced_golang_tutorial.PubSub.Subscribers.{
  Message, Subscriber, delete, process_acknowledgment,
}
use advanced_golang_tutorial.PubSub.Ordering.{newest, Tracks}
use advanced_golang_tutorial.PubSub.Counts.{
  count-delete-first, numbers, Ascends-count, Ascends-prefix, Descends-absent, Descends-once,
}
use advanced_golang_tutorial.PubSub.Guarantee.{Accounts}

module _ {P : Type 0} where
  -- A number that a call has is in no message of the queue.
  called_unqueued :
      (bound : ℕ) (waiting : List (Message P)) (s : Subscriber P) (k : ℕ)
      → Tracks bound waiting s
      → 1 ≤ count k (numbers s.taken)
      → count k (numbers s.messages) ≡ 0
  called_unqueued bound waiting s k f called = elim (Bool-cases (ltb (newest s.taken) k)) [
    | inl later ↦ let absent = Descends-absent k s.taken f.in_order (ground arith) in omega arith
    | inr early ↦
        Ascends-count (newest s.taken) k s.messages
          (Ascends-prefix (newest s.taken) s.messages waiting f.ahead) (ground arith)
  ]

  ack_once :
      (bound : ℕ) (waiting : List (Message P)) (s : Subscriber P) (k : ℕ) (acks : List ℕ)
      → s.acks ≡ k ∷ acks
      → Tracks bound waiting s
      → Accounts s
      → count k s.pending ≡ 1
  ack_once bound waiting s k acks e f acc =
      let one = Descends-once k s.taken f.in_order in
      let same = ap (count k) acc.handed_over in
      let acked : count k s.acks ≡ suc (count k acks) = ground arith in
      let total = acc.done_with k in
      let balance = acc.waiting k in
      let unqueued = called_unqueued bound waiting s k f (omega arith) in omega arith

  acknowledged_form :
      (s : Subscriber P) (k : ℕ) (acks : List ℕ)
      → s.acks ≡ k ∷ acks
      → process_acknowledgment s
        ≡ record s { acks = acks; pending = delete k s.pending; acknowledged = k ∷ s.acknowledged }
  unfolding process_acknowledgment
  acknowledged_form s k acks e = ground arith

  acknowledgment_from :
      (bound : ℕ) (waiting : List (Message P)) (acks : List ℕ) (s : Subscriber P)
      → s.acks ≡ acks
      → Tracks bound waiting s
      → Accounts s
      → Accounts (process_acknowledgment s)
  unfolding process_acknowledgment
  acknowledgment_from bound waiting [] s e f acc =
      let stays : process_acknowledgment s ≡ s = ground arith in rw stays acc
  acknowledgment_from bound waiting (k ∷ acks) s e f acc =
      rw (acknowledged_form s k acks e) (record {
        handed_over = acc.handed_over;
        done_with = λ i. let total = acc.done_with i in let moved = ap (count i) e in omega arith;
        waiting = λ i.
            let balance = acc.waiting i in
            let moved =
              count-delete-first i k s.pending (ack_once bound waiting s k acks e f acc) in
            omega arith;
      })

  pub acknowledgment-Accounts :
      (bound : ℕ) (waiting : List (Message P)) (s : Subscriber P)
      → Tracks bound waiting s
      → Accounts s
      → Accounts (process_acknowledgment s)
  acknowledgment-Accounts bound waiting s f acc =
      acknowledgment_from bound waiting s.acks s refl f acc
