-- ===== src/PubSub/Ordering.antt =====
-- The order in which a subscriber's handler gets the messages of its topic.
use mathlib.Core.List.{append_assoc, append-nil}
pub mod Topics
pub mod Systems
pub mod Handled
use advanced_golang_tutorial.Prelude.{
  ℕ, zero, suc, ◌+◌, ◌≤◌, ◌<◌, ◌≡◌, refl, sym, ap, ◌∙◌, ◌⊎◌, Bool, true, false, List, [], ◌∷◌, ◌++◌,
  Option, none, some, arith, All, map, length, ltb, if◌then◌else◌, Bool-cases, Option-cases, inl,
  inr, two_64,
}
use advanced_golang_tutorial.PubSub.Subscribers.{
  PubSubConfig, Message, Subscriber, has, new_subscriber, send, deliver_to_subscriber, begin,
  process_message, acknowledge, finish_message, process_acknowledgment, take_first,
}

module _ {P : Type 0} where
  -- Sequence numbers that go up, from above a first bound.
  abbrev pub Ascends : ℕ → List (Message P) → Type 0
  Ascends low [] = Unit {0}
  Ascends low (m ∷ ms) = (low < m.sequence) × Ascends m.sequence ms

  abbrev pub newest : List (Message P) → ℕ
  newest [] = 0
  newest (m ∷ ms) = m.sequence

  -- Latest first: each message has a greater number than the one before it.
  abbrev pub Descends : List (Message P) → Type 0
  Descends [] = Unit {0}
  Descends (m ∷ ms) = (newest ms < m.sequence) × Descends ms

  abbrev pub Below : ℕ → List (Message P) → Type 0
  Below bound = All (λ m. m.sequence ≤ bound)

  -- The calls and the queue of a subscriber, with the messages that wait in its topic.
  pub record Follows (bound : ℕ) (waiting calls messages : List (Message P)) : Type 0 where
    pub in_order : Descends calls
    pub ahead : Ascends (newest calls) (messages ++ waiting)
    pub recent : newest calls ≤ bound
    pub numbered : All (λ m. m.sequence ≤ bound) (messages ++ waiting)

  pub Ascends-snoc :
      (low bound : ℕ) (ms : List (Message P)) (m : Message P)
      → Ascends low ms
      → Below bound ms
      → low ≤ bound
      → bound < m.sequence
      → Ascends low (ms ++ m ∷ [])
  Ascends-snoc low bound [] m a b l h = (omega arith, tt)
  Ascends-snoc low bound (x ∷ ms) m a b l h =
      (a.0, Ascends-snoc x.sequence bound ms m a.1 b.1 b.0 h)

  pub Below-snoc :
      (bound : ℕ) (ms : List (Message P)) (m : Message P)
      → Below bound ms
      → bound < m.sequence
      → Below m.sequence (ms ++ m ∷ [])
  Below-snoc bound [] m b h = (omega arith, tt)
  Below-snoc bound (x ∷ ms) m b h = (omega (arith, b.0), Below-snoc bound ms m b.1 h)

  pub Ascends-weaken :
      (low low' : ℕ) (ms : List (Message P)) → low' ≤ low → Ascends low ms → Ascends low' ms
  Ascends-weaken low low' [] h a = tt
  Ascends-weaken low low' (m ∷ ms) h a = (omega (arith, a.0), a.1)

  Ascends-drop :
      (low : ℕ) (xs : List (Message P)) (m : Message P) (ms : List (Message P))
      → Ascends low (xs ++ m ∷ ms)
      → Ascends low (xs ++ ms)
  Ascends-drop low [] m ms a = Ascends-weaken m.sequence low ms (omega (arith, a.0)) a.1
  Ascends-drop low (x ∷ xs) m ms a = (a.0, Ascends-drop x.sequence xs m ms a.1)

  Below-drop :
      (bound : ℕ) (xs : List (Message P)) (m : Message P) (ms : List (Message P))
      → Below bound (xs ++ m ∷ ms)
      → Below bound (xs ++ ms)
  Below-drop bound [] m ms b = b.1
  Below-drop bound (x ∷ xs) m ms b = (b.0, Below-drop bound xs m ms b.1)

  -- A message comes into the topic.
  pub Follows-publish :
      (bound : ℕ) (waiting calls messages : List (Message P)) (m : Message P)
      → bound < m.sequence
      → Follows bound waiting calls messages
      → Follows m.sequence (waiting ++ m ∷ []) calls messages
  Follows-publish bound waiting calls messages m e f =
      let joined = append_assoc messages waiting (m ∷ []) in
      record {
        in_order = f.in_order;
        ahead = rw (← joined) (
            Ascends-snoc (newest calls) bound (messages ++ waiting) m f.ahead f.numbered f.recent
              e);
        recent = omega (arith, f.recent);
        numbered = rw (← joined) (Below-snoc bound (messages ++ waiting) m f.numbered e);
      }

  -- The first message of the topic goes to the queue, or is dropped.
  Follows-sent :
      (bound : ℕ) (waiting calls messages : List (Message P)) (m : Message P)
      → Follows bound (m ∷ waiting) calls messages
      → Follows bound waiting calls (messages ++ m ∷ [])
  Follows-sent bound waiting calls messages m f =
      let joined = append_assoc messages (m ∷ []) waiting in
      record {
        in_order = f.in_order;
        ahead = rw joined f.ahead;
        recent = f.recent;
        numbered = rw joined f.numbered;
      }

  Follows-dropped :
      (bound : ℕ) (waiting calls messages : List (Message P)) (m : Message P)
      → Follows bound (m ∷ waiting) calls messages
      → Follows bound waiting calls messages
  Follows-dropped bound waiting calls messages m f = record {
    in_order = f.in_order;
    ahead = Ascends-drop (newest calls) messages m waiting f.ahead;
    recent = f.recent;
    numbered = Below-drop bound messages m waiting f.numbered;
  }

  deliver_cases :
      (cfg : PubSubConfig) (m : Message P) (s : Subscriber P)
      → let s' = deliver_to_subscriber cfg m s in
        (s'.taken ≡ s.taken) × ((s'.messages ≡ s.messages ++ m ∷ []) ⊎ (s'.messages ≡ s.messages))
  unfolding deliver_to_subscriber send
  deliver_cases cfg m s = ground arith

  abbrev pub Tracks : ℕ → List (Message P) → Subscriber P → Type 0
  Tracks bound waiting s = Follows bound waiting s.taken s.messages

  pub Tracks-deliver :
      (cfg : PubSubConfig) (bound : ℕ) (waiting : List (Message P)) (m : Message P)
      (s : Subscriber P)
      → Tracks bound (m ∷ waiting) s
      → Tracks bound waiting (deliver_to_subscriber cfg m s)
  Tracks-deliver cfg bound waiting m s f =
      let (calls, cases) = deliver_cases cfg m s in
      elim cases [
        | inl sent ↦ rw (calls, sent) (Follows-sent bound waiting s.taken s.messages m f)
        | inr dropped ↦ rw (calls, dropped) (Follows-dropped bound waiting s.taken s.messages m f)
      ]

  -- The first message of the queue goes to the handler, or was processed before.
  Follows-begin :
      (bound : ℕ) (waiting calls messages : List (Message P)) (m : Message P)
      → Follows bound waiting calls (m ∷ messages)
      → Follows bound waiting (m ∷ calls) messages × Follows bound waiting calls messages
  Follows-begin bound waiting calls messages m f = (
    record {
      in_order = (f.ahead.0, f.in_order);
      ahead = f.ahead.1;
      recent = f.numbered.0;
      numbered = f.numbered.1;
    },
    record {
      in_order = f.in_order;
      ahead =
          Ascends-weaken m.sequence (newest calls) (messages ++ waiting) (omega (arith, f.ahead.0))
            f.ahead.1;
      recent = f.recent;
      numbered = f.numbered.1;
    },
  )

  Tracks-take_first :
      (bound : ℕ) (waiting ms : List (Message P)) (s : Subscriber P)
      → Follows bound waiting s.taken ms
      → s.messages ≡ ms
      → Tracks bound waiting (take_first ms s)
  unfolding take_first begin
  Tracks-take_first bound waiting [] s f e = rw e f
  Tracks-take_first bound waiting (m ∷ ms) s f e =
      let (called, skipped) = Follows-begin bound waiting s.taken ms m f in
      elim (Bool-cases (has m.sequence s.processed)) [
        | inl old ↦ rw (old, begin) skipped
        | inr new ↦ rw (new, begin) called
      ]

  pub Tracks-process :
      (bound : ℕ) (waiting : List (Message P)) (s : Subscriber P)
      → Tracks bound waiting s
      → Tracks bound waiting (process_message s)
  unfolding process_message
  Tracks-process bound waiting s f = elim (Option-cases s.handling) [
    | inl idle ↦ rw (idle, process_message) (Tracks-take_first bound waiting s.messages s f refl)
    | inr (m, busy) ↦ rw (busy, process_message) f
  ]

  finish_keeps :
      (cfg : PubSubConfig) (works cancels : ℕ → Bool) (s : Subscriber P)
      → ((finish_message cfg works cancels s).taken ≡ s.taken)
        × ((finish_message cfg works cancels s).messages ≡ s.messages)
  unfolding finish_message acknowledge
  finish_keeps cfg works cancels s = ground arith

  pub Tracks-finish :
      (cfg : PubSubConfig) (works cancels : ℕ → Bool) (bound : ℕ) (waiting : List (Message P))
      (s : Subscriber P)
      → Tracks bound waiting s
      → Tracks bound waiting (finish_message cfg works cancels s)
  Tracks-finish cfg works cancels bound waiting s f =
      let (calls, messages) = finish_keeps cfg works cancels s in rw (calls, messages) f

  acknowledgment_keeps :
      (s : Subscriber P)
      → ((process_acknowledgment s).taken ≡ s.taken)
        × ((process_acknowledgment s).messages ≡ s.messages)
  unfolding process_acknowledgment
  acknowledgment_keeps s = ground arith

  pub Tracks-acknowledgment :
      (bound : ℕ) (waiting : List (Message P)) (s : Subscriber P)
      → Tracks bound waiting s
      → Tracks bound waiting (process_acknowledgment s)
  Tracks-acknowledgment bound waiting s f =
      let (calls, messages) = acknowledgment_keeps s in rw (calls, messages) f

  pub Below-weaken :
      (bound bound' : ℕ) (ms : List (Message P)) → bound ≤ bound' → Below bound ms → Below bound' ms
  Below-weaken bound bound' [] h b = tt
  Below-weaken bound bound' (m ∷ ms) h b = (omega (arith, b.0), Below-weaken bound bound' ms h b.1)

  pub Tracks-later :
      (bound bound' : ℕ) (waiting : List (Message P)) (s : Subscriber P)
      → bound ≤ bound'
      → Tracks bound waiting s
      → Tracks bound' waiting s
  Tracks-later bound bound' waiting s h f = record {
    in_order = f.in_order;
    ahead = f.ahead;
    recent = omega (arith, f.recent);
    numbered = Below-weaken bound bound' (s.messages ++ waiting) h f.numbered;
  }
