-- ===== src/Fallback/Clearing.antt =====
-- Successes clear the window: once as many were added as it has room for, no failure is left in it.
use mathlib.Core.List.{append-nil, append_assoc}
use native.Mathlib.Nat.{mod-eq_of_lt, mod_self}
use advanced_golang_tutorial.Prelude.{
  ℕ, suc, ◌+◌, ◌%◌, ◌≤◌, ◌<◌, ◌≡◌, sym, ap, subst, ◌∙◌, true, not, List, [], ◌∷◌, ◌++◌, arith,
  length, set, take, count_if, length-append, set-length_append, take-length, List-cases, inl, inr,
  All, All-append, All-set, All-snoc, length-set, append-snoc, length-snoc,
}
use advanced_golang_tutorial.Fallback.Sliding.{
  RequestResult, Window, add_to_window, get_effective_window_size, failures,
}
use advanced_golang_tutorial.Fallback.Successes.{IsSuccess, split_at_index, count-successes}

-- How far `n` successes in a row have come: in the first round over the buffer, `good` are behind
-- the index; in the second, `early` are before it and `late` at the end; then there are no others.
pub data Clearing (size : ℕ) : Window → ℕ → Type 0 where
  first_round :
      {w : Window} {n : ℕ} (old good rest : List RequestResult)
      → w.results ≡ (old ++ good) ++ rest
      → length w.results ≡ size
      → w.index ≡ length (old ++ good)
      → All IsSuccess good
      → n ≤ length good
      → 1 ≤ length rest
      → Clearing size w n
  second_round :
      {w : Window} {n : ℕ} (early old late : List RequestResult)
      → w.results ≡ early ++ (old ++ late)
      → length w.results ≡ size
      → w.index ≡ length early
      → w.full ≡ true
      → All IsSuccess early
      → All IsSuccess late
      → n ≤ length early + length late
      → 1 ≤ length old
      → Clearing size w n
  cleared :
      {w : Window} {n : ℕ}
      → length w.results ≡ size
      → w.index < size
      → w.full ≡ true
      → All IsSuccess w.results
      → Clearing size w n

pub begins_Clearing :
    (size : ℕ) (w : Window) → length w.results ≡ size → w.index < size → Clearing size w 0
begins_Clearing size w l i =
    let (old, (x, (rest, (parts, index)))) = split_at_index w.results w.index (omega arith) in
    let none_yet : old ++ [] ≡ old = append-nil old in
    first_round old [] (x ∷ rest) (rw none_yet parts) l (rw none_yet (sym index)) tt (omega arith)
      (omega arith)

-- The index after the write.
next_inside :
    (r : RequestResult) (w : Window)
    → w.index + 1 < length w.results
    → ((add_to_window r w).index ≡ w.index + 1) × ((add_to_window r w).full ≡ w.full)
unfolding add_to_window
next_inside r w h =
    let next : (w.index + 1) % length w.results ≡ w.index + 1 = mod-eq_of_lt h in ground arith

next_around :
    (r : RequestResult) (w : Window)
    → w.index + 1 ≡ length w.results
    → ((add_to_window r w).index ≡ 0) × ((add_to_window r w).full ≡ true)
unfolding add_to_window
next_around r w h =
    let next : (w.index + 1) % length w.results ≡ 0 = rw h (mod_self (length w.results)) in
    ground arith

-- The last place is written: the index comes round.
first-around :
    (size : ℕ) (w : Window) (n : ℕ) (r y : RequestResult) (old good : List RequestResult)
    → w.results ≡ (old ++ good) ++ y ∷ []
    → length w.results ≡ size
    → w.index ≡ length (old ++ good)
    → All IsSuccess (good ++ r ∷ [])
    → n ≤ length good
    → Clearing size (add_to_window r w) (suc n)
unfolding add_to_window
first-around size w n r y old good parts l i h k =
    let around =
      next_around r w (omega (arith, ap length parts, length-append (old ++ good) (y ∷ []))) in
    let written : set w.results w.index r ≡ old ++ (good ++ r ∷ []) =
      rw (parts, i) (set-length_append (old ++ good) y [] r) ∙ append_assoc old good (r ∷ []) in
    let sized = length-set w.results w.index r ∙ l in
    elim (List-cases old) [
      | inl none_left ↦
          let all_good : set w.results w.index r ≡ good ++ r ∷ [] = rw none_left at written in
          cleared sized
            (omega (arith, around.0, ap length parts, length-append (old ++ good) (y ∷ [])))
            around.1 (subst (All IsSuccess) (sym all_good) h)
      | inr (x, (xs, some_left)) ↦
          second_round [] old (good ++ r ∷ []) written sized around.0 around.1 tt h
            (omega (arith, length-snoc good r, k)) (omega (arith, ap length some_left))
    ]

pub Clearing-step :
    (size : ℕ) (w : Window) (n : ℕ) (r : RequestResult)
    → Clearing size w n
    → IsSuccess r
    → Clearing size (add_to_window r w) (suc n)
unfolding add_to_window
Clearing-step size w n r (first_round old good [] parts l i h k m) s =
    let never : ⊥ = omega arith in elim never [ ]
Clearing-step size w n r (first_round old good (y ∷ []) parts l i h k m) s =
    first-around size w n r y old good parts l i (All-snoc IsSuccess good r h s) k
Clearing-step size w n r (first_round old good (y ∷ z ∷ rest) parts l i h k m) s =
    let inside =
      next_inside r w
        (omega (arith, ap length parts, length-append (old ++ good) (y ∷ z ∷ rest))) in
    let written : set w.results w.index r ≡ (old ++ (good ++ r ∷ [])) ++ z ∷ rest =
      rw (parts, i) (set-length_append (old ++ good) y (z ∷ rest) r)
      ∙ append-snoc (old ++ good) r (z ∷ rest)
      ∙ ap (λ xs. xs ++ z ∷ rest) (append_assoc old good (r ∷ [])) in
    first_round old (good ++ r ∷ []) (z ∷ rest) written (length-set w.results w.index r ∙ l)
      (inside.0
        ∙ omega (
          arith,
          i,
          length-append old good,
          length-append old (good ++ r ∷ []),
          length-snoc good r,
        ))
      (All-snoc IsSuccess good r h s) (omega (arith, length-snoc good r, k)) (omega arith)
Clearing-step size w n r (second_round early [] late parts l i f h h' k o) s =
    let never : ⊥ = omega arith in elim never [ ]
Clearing-step size w n r (second_round early (y ∷ old) late parts l i f h h' k o) s =
    let written : set w.results w.index r ≡ (early ++ r ∷ []) ++ (old ++ late) =
      rw (parts, i) (set-length_append early y (old ++ late) r)
      ∙ append-snoc early r (old ++ late) in
    let sized = length-set w.results w.index r ∙ l in
    elim (List-cases old) [
      | inl none_left ↦
          let all_good : set w.results w.index r ≡ (early ++ r ∷ []) ++ late =
            rw none_left at written in
          cleared sized (omega (arith, ap length parts, length-append early (y ∷ (old ++ late))))
            (ground arith)
            (subst (All IsSuccess) (sym all_good)
              (All-append IsSuccess (early ++ r ∷ []) late (All-snoc IsSuccess early r h s) h'))
      | inr (z, (zs, some_left)) ↦
          let inside = next_inside r w (
            omega (
              arith,
              ap length parts,
              ap length some_left,
              length-append early (y ∷ (old ++ late)),
              length-append old late,
            )) in
          second_round (early ++ r ∷ []) old late written sized
            (inside.0 ∙ omega (arith, i, length-snoc early r)) (inside.1 ∙ f)
            (All-snoc IsSuccess early r h s) h' (omega (arith, length-snoc early r, k))
            (omega (arith, ap length some_left))
    ]
Clearing-step size w n r (cleared l i f h) s =
    cleared (length-set w.results w.index r ∙ l) (omega arith) (ground arith)
      (All-set IsSuccess w.results w.index r h s)

-- The figures of a window that was cleared.
abbrev pub IsClear : ℕ → Window → Type 0
IsClear size w = (get_effective_window_size w ≡ size) × (failures w ≡ 0)

pub Clearing-IsClear :
    (size : ℕ) (w : Window) (n : ℕ) → Clearing size w n → size ≤ n → IsClear size w
unfolding get_effective_window_size failures
Clearing-IsClear size w n (first_round old good rest parts l i h k m) enough =
    let never : ⊥ =
      omega (arith, ap length parts, length-append (old ++ good) rest, length-append old good) in
    elim never [ ]
Clearing-IsClear size w n (second_round early old late parts l i f h h' k o) enough =
    let never : ⊥ =
      omega (arith, ap length parts, length-append early (old ++ late), length-append old late) in
    elim never [ ]
Clearing-IsClear size w n (cleared l i f h) enough =
    let whole : get_effective_window_size w ≡ length w.results = ground arith in
    let taken : take (get_effective_window_size w) w.results ≡ w.results =
      rw whole (take-length w.results) in
    (whole ∙ l, ap (count_if λ r. not r.success) taken ∙ count-successes w.results h)
