-- ===== src/PubSub/Counts.antt =====
-- How often a number occurs in the lists of the subscribers.
use advanced_golang_tutorial.Prelude.{
  ℕ, ◌+◌, ◌≤◌, ◌<◌, ◌≡◌, refl, ap, false, List, [], ◌∷◌, ◌++◌, arith, count, if◌then◌else◌, ◌==◌,
}
use advanced_golang_tutorial.PubSub.Subscribers.{Message, has, put, delete}
use advanced_golang_tutorial.PubSub.Ordering.{Ascends, newest, Descends}

pub has_absent : (k : ℕ) (xs : List ℕ) → count k xs ≡ 0 → has k xs ≡ false
has_absent k [] h = refl
has_absent k (x ∷ xs) h = ground (arith, has_absent k xs)

pub count-put :
    (k j : ℕ) (xs : List ℕ)
    → count j xs ≡ 0
    → count k (put j xs) ≡ (if j == k then 1 else 0) + count k xs
count-put k j xs h = let absent = has_absent j xs h in ground arith

pub count-delete :
    (k j : ℕ) (xs : List ℕ) → count k (delete j xs) ≡ (if j == k then 0 else count k xs)
count-delete k j [] = ground arith
count-delete k j (x ∷ xs) = ground (arith, count-delete k j xs)

pub count-append :
    (k j : ℕ) (xs : List ℕ) → count k (xs ++ j ∷ []) ≡ (if j == k then 1 else 0) + count k xs
count-append k j [] = ground arith
count-append k j (x ∷ xs) = ground (arith, count-append k j xs)

-- A message that the full queue refuses is not pending, as before it came.
pub count-delete-put :
    (k j : ℕ) (xs : List ℕ) → count j xs ≡ 0 → count k (delete j (put j xs)) ≡ count k xs
count-delete-put k j xs absent =
    let put_in = count-put k j xs absent in
    let taken_out = count-delete k j (put j xs) in grind arith

pub count-delete-first :
    (i k : ℕ) (pending : List ℕ)
    → count k pending ≡ 1
    → count i (delete k pending) + (if k == i then 1 else 0) ≡ count i pending
count-delete-first i k pending once = let taken_out = count-delete i k pending in grind arith

module _ {P : Type 0} where
  abbrev pub numbers : List (Message P) → List ℕ
  numbers [] = []
  numbers (m ∷ ms) = m.sequence ∷ numbers ms

  pub numbers_snoc :
      (ms : List (Message P)) (m : Message P)
      → numbers (ms ++ m ∷ []) ≡ numbers ms ++ m.sequence ∷ []
  numbers_snoc [] m = refl
  numbers_snoc (x ∷ ms) m = ap (λ ks. x.sequence ∷ ks) (numbers_snoc ms m)

  pub Ascends-count :
      (low k : ℕ) (ms : List (Message P)) → Ascends low ms → k ≤ low → count k (numbers ms) ≡ 0
  Ascends-count low k [] a h = refl
  Ascends-count low k (m ∷ ms) a h = ground (arith, a.0, Ascends-count m.sequence k ms a.1)

  pub Ascends-above :
      (low : ℕ) (xs : List (Message P)) (m : Message P) (ms : List (Message P))
      → Ascends low (xs ++ m ∷ ms)
      → (low < m.sequence) × (count m.sequence (numbers xs) ≡ 0)
  Ascends-above low [] m ms a = (a.0, refl)
  Ascends-above low (x ∷ xs) m ms a =
      let (above, absent) = Ascends-above x.sequence xs m ms a.1 in
      (omega (arith, a.0), ground (arith, a.0))

  pub Descends-absent :
      (k : ℕ) (ms : List (Message P)) → Descends ms → newest ms < k → count k (numbers ms) ≡ 0
  Descends-absent k [] d h = refl
  Descends-absent k (m ∷ ms) d h = ground (arith, d.0, Descends-absent k ms d.1)

  pub Descends-once : (k : ℕ) (ms : List (Message P)) → Descends ms → count k (numbers ms) ≤ 1
  Descends-once k [] d = omega arith
  Descends-once k (m ∷ ms) d = ground (arith, d.0, Descends-absent k ms d.1, Descends-once k ms d.1)

  pub Ascends-prefix :
      (low : ℕ) (xs ys : List (Message P)) → Ascends low (xs ++ ys) → Ascends low xs
  Ascends-prefix low [] ys a = tt
  Ascends-prefix low (x ∷ xs) ys a = (a.0, Ascends-prefix x.sequence xs ys a.1)
