-- ===== src/AdvancedBreaker/Sliding/Ring.antt =====
-- The ring buffer and the bounded queue of results, oldest first, that it holds.
use mathlib.Core.List.{append-nil, append_assoc}
use native.Mathlib.Nat.{mod-eq_of_lt, mod_self}
use advanced_golang_tutorial.Prelude.{
  ℕ, ◌+◌, ◌%◌, ◌<◌, ◌≡◌, sym, ap, ◌∙◌, true, false, List, [], ◌∷◌, ◌++◌, arith, ◌==◌, if◌then◌else◌,
  length, length-append, length-snoc, set-length_append,
}
use advanced_golang_tutorial.AdvancedBreaker.Sliding.{RequestResult, Window, add_to_window}

-- A bounded queue: the oldest result leaves when the queue is full.
abbrev pub tail : List RequestResult → List RequestResult
tail [] = []
tail (r ∷ rs) = rs

unfoldable pub push_recent : ℕ → RequestResult → List RequestResult → List RequestResult
push_recent size r rs = (if length rs == size then tail rs else rs) ++ r ∷ []

-- How a ring of `size` places holds a queue: while it is not full, the queue stands before the
-- index; afterwards it begins at the index and goes on at the start of the ring.
pub data Holds (size : ℕ) (w : Window) (rs : List RequestResult) : Type 0 where
  filling :
      (pad : List RequestResult)
      → w.full ≡ false
      → w.requests ≡ rs ++ pad
      → w.index ≡ length rs
      → 0 < length pad
      → length rs + length pad ≡ size
      → Holds size w rs
  wrapped :
      (newer older : List RequestResult)
      → w.full ≡ true
      → w.requests ≡ newer ++ older
      → rs ≡ older ++ newer
      → w.index ≡ length newer
      → 0 < length older
      → length newer + length older ≡ size
      → Holds size w rs

next_inside : (i n : ℕ) → i + 1 < n → (i + 1) % n ≡ i + 1
next_inside i n h = mod-eq_of_lt h

next_around : (i n : ℕ) → i + 1 ≡ n → (i + 1) % n ≡ 0
next_around i n h = rw h (mod_self n)

-- The index after the write, and whether it came round.
step_inside :
    (r : RequestResult) (w : Window)
    → w.index + 1 < length w.requests
    → ((add_to_window r w).index ≡ w.index + 1) × ((add_to_window r w).full ≡ w.full)
unfolding add_to_window
step_inside r w h = ground (arith, next_inside w.index (length w.requests) h)

step_around :
    (r : RequestResult) (w : Window)
    → w.index + 1 ≡ length w.requests
    → ((add_to_window r w).index ≡ 0) × ((add_to_window r w).full ≡ true)
unfolding add_to_window
step_around r w h = ground (arith, next_around w.index (length w.requests) h)

pub push_recent-room :
    (size : ℕ) (r : RequestResult) (rs : List RequestResult)
    → length rs < size
    → push_recent size r rs ≡ rs ++ r ∷ []
unfolding push_recent
push_recent-room size r rs h = ground arith

pub push_recent-full :
    (size : ℕ) (r : RequestResult) (rs : List RequestResult)
    → length rs ≡ size
    → push_recent size r rs ≡ tail rs ++ r ∷ []
unfolding push_recent
push_recent-full size r rs h = ground arith

add_to_window-filling :
    (size : ℕ) (w : Window) (rs pad : List RequestResult) (p r : RequestResult)
    → w.full ≡ false
    → w.requests ≡ rs ++ p ∷ pad
    → w.index ≡ length rs
    → length rs + length (p ∷ pad) ≡ size
    → Holds size (add_to_window r w) (rs ++ r ∷ [])
unfolding add_to_window
add_to_window-filling size w rs [] p r f e i s =
    let around = step_around r w (omega (arith, ap length e, length-append rs (p ∷ []))) in
    wrapped [] (rs ++ r ∷ []) around.1 (rw (e, i) (set-length_append rs p [] r))
      (sym (append-nil (rs ++ r ∷ []))) around.0 (omega (arith, length-snoc rs r))
      (omega (arith, length-snoc rs r))
add_to_window-filling size w rs (q ∷ pad) p r f e i s =
    let inside = step_inside r w (omega (arith, ap length e, length-append rs (p ∷ q ∷ pad))) in
    filling (q ∷ pad) (inside.1 ∙ f)
      (rw (e, i) (set-length_append rs p (q ∷ pad) r ∙ sym (append_assoc rs (r ∷ []) (q ∷ pad))))
      (omega (arith, inside.0, length-snoc rs r)) (omega arith) (omega (arith, length-snoc rs r))

add_to_window-wrapped :
    (size : ℕ) (w : Window) (newer older : List RequestResult) (p r : RequestResult)
    → w.full ≡ true
    → w.requests ≡ newer ++ p ∷ older
    → w.index ≡ length newer
    → length newer + length (p ∷ older) ≡ size
    → Holds size (add_to_window r w) ((older ++ newer) ++ r ∷ [])
unfolding add_to_window
add_to_window-wrapped size w newer [] p r f e i s =
    let around = step_around r w (omega (arith, ap length e, length-append newer (p ∷ []))) in
    wrapped [] (newer ++ r ∷ []) around.1 (rw (e, i) (set-length_append newer p [] r))
      (sym (append-nil (newer ++ r ∷ []))) around.0 (omega (arith, length-snoc newer r))
      (omega (arith, length-snoc newer r))
add_to_window-wrapped size w newer (q ∷ older) p r f e i s =
    let inside =
      step_inside r w (omega (arith, ap length e, length-append newer (p ∷ q ∷ older))) in
    wrapped (newer ++ r ∷ []) (q ∷ older) (inside.1 ∙ f)
      (rw (e, i)
        (set-length_append newer p (q ∷ older) r ∙ sym (append_assoc newer (r ∷ []) (q ∷ older))))
      (append_assoc (q ∷ older) newer (r ∷ [])) (omega (arith, inside.0, length-snoc newer r))
      (omega arith) (omega (arith, length-snoc newer r))

-- Each write to the ring is a push to the bounded queue that it holds.
pub add_to_window-Holds :
    (size : ℕ) (w : Window) (rs : List RequestResult) (r : RequestResult)
    → Holds size w rs
    → Holds size (add_to_window r w) (push_recent size r rs)
add_to_window-Holds size w rs r (filling [] f e i n s) = absurd (omega arith)
add_to_window-Holds size w rs r (filling (p ∷ pad) f e i n s) =
    rw (push_recent-room size r rs (omega arith)) (add_to_window-filling size w rs pad p r f e i s)
add_to_window-Holds size w rs r (wrapped newer [] f e q i n s) = absurd (omega arith)
add_to_window-Holds size w rs r (wrapped newer (p ∷ older) f e q i n s) =
    rw (q, push_recent-full size r (p ∷ older ++ newer) (omega (arith, length-append older newer)))
      (add_to_window-wrapped size w newer older p r f e i s)
