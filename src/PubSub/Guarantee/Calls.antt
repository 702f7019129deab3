-- ===== src/PubSub/Guarantee/Calls.antt =====
-- The calls of the handler.
use advanced_golang_tutorial.Prelude.{
  ℕ, ◌≡◌, refl, ap, ◌∙◌, ◌⊎◌, Bool, false, List, [], ◌∷◌, ◌++◌, none, some, arith, count,
  Option-cases, inl, inr,
}
use advanced_golang_tutorial.PubSub.Subscribers.{
  PubSubConfig, Message, Subscriber, has, begin, process_message, acknowledge, finish_message,
  take_first,
}
use advanced_golang_tutorial.PubSub.Ordering.{Ascends, newest, Tracks}
use advanced_golang_tutorial.PubSub.Counts.{has_absent, count-append, numbers, Descends-absent}
use advanced_golang_tutorial.PubSub.Guarantee.{Accounts, handled}

module _ {P : Type 0} where
  -- The first message of the queue is new to the handler.
  begins :
      (m : Message P) (ms : List (Message P)) (s : Subscriber P)
      → has m.sequence s.processed ≡ false
      → take_first (m ∷ ms) s ≡ record s {
        messages = ms;
        processed = m.sequence ∷ s.processed;
        handling = some m;
        taken = m ∷ s.taken;
      }
  unfolding take_first begin
  begins m ms s new = ground arith

  take_first-Accounts :
      (bound : ℕ) (waiting ms : List (Message P)) (s : Subscriber P)
      → s.messages ≡ ms
      → s.handling ≡ none
      → Tracks bound waiting s
      → Accounts s
      → Accounts (take_first ms s)
  unfolding take_first
  take_first-Accounts bound waiting [] s e idle f acc = acc
  take_first-Accounts bound waiting (m ∷ ms) s e idle f acc =
      let ahead : Ascends (newest s.taken) ((m ∷ ms) ++ waiting) = (let a = f.ahead in rw e at a) in
      let uncalled : count m.sequence s.processed ≡ 0 =
        ap (count m.sequence) acc.handed_over
        ∙ Descends-absent m.sequence s.taken f.in_order ahead.0 in
      rw (begins m ms s (has_absent m.sequence s.processed uncalled)) (record {
        handed_over = ap (λ ks. m.sequence ∷ ks) acc.handed_over;
        done_with = λ k.
            let total = acc.done_with k in
            let idle_count = ap (λ h. count k (handled h)) idle in omega arith;
        waiting = λ k.
            let balance = acc.waiting k in
            let queued = ap (λ ms'. count k (numbers ms')) e in omega arith;
      })

  pub process-Accounts :
      (bound : ℕ) (waiting : List (Message P)) (s : Subscriber P)
      → Tracks bound waiting s
      → Accounts s
      → Accounts (process_message s)
  unfolding process_message
  process-Accounts bound waiting s f acc = elim (Option-cases s.handling) [
    | inl idle ↦
        let takes : process_message s ≡ take_first s.messages s = ground arith in
        rw takes (take_first-Accounts bound waiting s.messages s refl idle f acc)
    | inr (m, busy) ↦ let stays : process_message s ≡ s = ground arith in rw stays acc
  ]

  finish_forms :
      (cfg : PubSubConfig) (works cancels : ℕ → Bool) (s : Subscriber P) (m : Message P)
      → s.handling ≡ some m
      → (finish_message cfg works cancels s
          ≡ record s { acks = s.acks ++ m.sequence ∷ []; handling = none })
        ⊎ (finish_message cfg works cancels s
            ≡ record s { handling = none; unacknowledged = m.sequence ∷ s.unacknowledged })
  unfolding finish_message acknowledge
  finish_forms cfg works cancels s m busy = ground arith

  pub finish-Accounts :
      (cfg : PubSubConfig) (works cancels : ℕ → Bool) (s : Subscriber P)
      → Accounts s
      → Accounts (finish_message cfg works cancels s)
  unfolding finish_message
  finish-Accounts cfg works cancels s acc = elim (Option-cases s.handling) [
    | inl idle ↦ let stays : finish_message cfg works cancels s ≡ s = ground arith in rw stays acc
    | inr (m, busy) ↦
        let moved = λ (k : ℕ). ap (λ h. count k (handled h)) busy in
        elim (finish_forms cfg works cancels s m busy) [
          | inl acked ↦ rw acked (record {
            handed_over = acc.handed_over;
            done_with = λ k.
                let total = acc.done_with k in
                let now = moved k in let joined = count-append k m.sequence s.acks in omega arith;
            waiting = acc.waiting;
          })
          | inr unacked ↦ rw unacked (record {
            handed_over = acc.handed_over;
            done_with = λ k. let total = acc.done_with k in let now = moved k in omega arith;
            waiting = acc.waiting;
          })
        ]
  ]
