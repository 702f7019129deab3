-- ===== src/AdvancedBreaker/Sliding/Recent.antt =====
-- What the trip decision reads off the ring buffer: effectiveWindowSize and the two rates' counts.
use mathlib.Core.List.{append-nil, append_assoc}
use native.Mathlib.Decide.{dec_le}
use advanced_golang_tutorial.Prelude.{
  length-snoc, ℕ, zero, suc, ◌-◌, ◌<◌, ◌≡◌, refl, sym, ap, ◌∙◌, Bool, not, List, [], ◌∷◌, ◌++◌,
  arith, length, take, drop, replicate, count_if, length-append, length-replicate, length-drop,
  count_if-append, take-length, take-length_append,
}
use advanced_golang_tutorial.AdvancedBreaker.Sliding.{
  RequestResult, zero_result, Window, add_to_window, effective_window_size, failures, slow_calls,
  empty_window,
}
use advanced_golang_tutorial.AdvancedBreaker.Sliding.Ring.{
  tail, push_recent, Holds, filling, wrapped, add_to_window-Holds, push_recent-room,
  push_recent-full,
}

empty_window-Holds : (size : ℕ) → 0 < size → Holds size (empty_window size) []
unfolding empty_window
empty_window-Holds size h =
    let full_length = length-replicate size zero_result in
    filling (replicate size zero_result) refl refl refl (omega arith) (omega arith)

-- What the trip decision reads is what the queue holds.
Holds-figures :
    (size : ℕ) (w : Window) (rs : List RequestResult)
    → Holds size w rs
    → (effective_window_size w ≡ length rs)
      × (failures w ≡ count_if (λ r. not r.success) rs)
      × (slow_calls w ≡ count_if (λ r. r.is_slow_call) rs)
unfolding failures slow_calls
Holds-figures size w rs (filling pad f e i n s) =
    let size_of : effective_window_size w ≡ length rs = ground arith in
    let taken : take (effective_window_size w) w.requests ≡ rs =
      rw (size_of, e) (take-length_append rs pad) in
    (size_of, ap (count_if λ r. not r.success) taken, ap (count_if λ r. r.is_slow_call) taken)
Holds-figures size w rs (wrapped newer older f e q i n s) =
    let size_of : effective_window_size w ≡ length w.requests = ground arith in
    let taken : take (effective_window_size w) w.requests ≡ newer ++ older =
      rw size_of (take-length w.requests ∙ e) in
    (
      omega (
        arith,
        size_of,
        ap length e,
        ap length q,
        length-append newer older,
        length-append older newer,
      ),
      count_around (λ r. not r.success) taken q,
      count_around (λ r. r.is_slow_call) taken q,
    )
  where
    count_around :
        (p : RequestResult → Bool) {xs : List RequestResult}
        → xs ≡ newer ++ older
        → rs ≡ older ++ newer
        → count_if p xs ≡ count_if p rs
    count_around p a b =
        rw (a, b) (omega (arith, count_if-append p newer older, count_if-append p older newer))

-- The last `size` entries.
abbrev pub last_entries : ℕ → List RequestResult → List RequestResult
last_entries size rs = drop (length rs - size) rs

drop-snoc :
    (k : ℕ) (xs : List RequestResult) (r : RequestResult)
    → k < length xs
    → drop (suc k) (xs ++ r ∷ []) ≡ tail (drop k xs) ++ r ∷ []
drop-snoc k [] r h = absurd (omega arith)
drop-snoc zero (x ∷ xs) r h = refl
drop-snoc (suc k) (x ∷ xs) r h = drop-snoc k xs r (omega arith)

push_recent-last :
    (size : ℕ) (done : List RequestResult) (r : RequestResult)
    → 0 < size
    → push_recent size r (last_entries size done) ≡ last_entries size (done ++ r ∷ [])
push_recent-last size done r h = elim (dec_le size (length done)) [
  | no short ↦
      let none_left : length done - size ≡ 0 = omega arith in
      let none_left' : length (done ++ r ∷ []) - size ≡ 0 = omega (arith, length-snoc done r) in
      rw (none_left, none_left') (push_recent-room size r done (omega arith))
  | yes long ↦
      let one_more : length (done ++ r ∷ []) - size ≡ suc (length done - size) =
        omega (arith, length-snoc done r) in
      let fits : length (last_entries size done) ≡ size =
        omega (arith, length-drop (length done - size) done) in
      rw one_more (
        push_recent-full size r (last_entries size done) fits
        ∙ sym (drop-snoc (length done - size) done r (omega arith)))
]

-- The window after a list of results, oldest first.
pub fill : Window → List RequestResult → Window
fill w [] = w
fill w (r ∷ rs) = fill (add_to_window r w) rs

fill-Holds :
    (size : ℕ) (w : Window) (done rs : List RequestResult)
    → 0 < size
    → Holds size w (last_entries size done)
    → Holds size (fill w rs) (last_entries size (done ++ rs))
unfolding fill
fill-Holds size w done [] h held = rw append-nil held
fill-Holds size w done (r ∷ rs) h held = rw (sym (append_assoc done (r ∷ []) rs)) (
    fill-Holds size (add_to_window r w) (done ++ r ∷ []) rs h (
      rw (push_recent-last size done r h) at
        (add_to_window-Holds size w (last_entries size done) r held)))

-- After any results at all, the size, the failures and the slow calls that the trip decision reads
-- off the ring are those of the most recent results, as many as the window has places.
pub window_figures :
    (size : ℕ) (rs : List RequestResult)
    → 0 < size
    → let w = fill (empty_window size) rs in
      let recent = last_entries size rs in
      (effective_window_size w ≡ length recent)
      × (failures w ≡ count_if (λ r. not r.success) recent)
      × (slow_calls w ≡ count_if (λ r. r.is_slow_call) recent)
window_figures size rs h = Holds-figures size (fill (empty_window size) rs) (last_entries size rs) (
    fill-Holds size (empty_window size) [] rs h
      (let none_left : 0 - size ≡ 0 = omega arith in rw none_left (empty_window-Holds size h)))
