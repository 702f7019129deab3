-- ===== src/RateLimiter/Tests/Sorting.antt =====
-- A sort by descending priority.
use mathlib.Core.List.{Perm}
use mathlib.Core.List.Perm
use advanced_golang_tutorial.Prelude.{
  List, [], ◌∷◌, arith, All, ◌≤ℤ◌, leb_ℤ, if◌then◌else◌, Bool-cases, inl, inr,
}
use advanced_golang_tutorial.RateLimiter.Rules.{Rule}
use advanced_golang_tutorial.RateLimiter.Rules.Selection.{IsDescending, SortsByPriority}

unfoldable pub insert : Rule → List Rule → List Rule
insert r [] = r ∷ []
insert r (q ∷ qs) = if leb_ℤ q.priority r.priority then r ∷ q ∷ qs else q ∷ insert r qs

unfoldable pub sort : List Rule → List Rule
unfolding insert
sort [] = []
sort (r ∷ rs) = insert r (sort rs)

insert-Perm : (r : Rule) (rs : List Rule) → Perm (insert r rs) (r ∷ rs)
unfolding insert
insert-Perm r [] = Perm.refl (r ∷ [])
insert-Perm r (q ∷ qs) = elim (Bool-cases (leb_ℤ q.priority r.priority)) [
  | inl first ↦ rw first (Perm.refl (r ∷ q ∷ qs))
  | inr later ↦ rw later (Perm.trans (Perm.cons q (insert-Perm r qs)) (Perm.swap r q qs))
]

sort-Perm : (rs : List Rule) → Perm (sort rs) rs
unfolding sort
sort-Perm [] = Perm.refl []
sort-Perm (r ∷ rs) = Perm.trans (insert-Perm r (sort rs)) (Perm.cons r (sort-Perm rs))

insert-All :
    (p r : Rule) (rs : List Rule)
    → r.priority ≤ℤ p.priority
    → All (λ q. q.priority ≤ℤ p.priority) rs
    → All (λ q. q.priority ≤ℤ p.priority) (insert r rs)
unfolding insert
insert-All p r [] h a = (h, tt)
insert-All p r (q ∷ qs) h a = elim (Bool-cases (leb_ℤ q.priority r.priority)) [
  | inl first ↦ rw first (h, a)
  | inr later ↦ rw later (a.0, insert-All p r qs h a.1)
]

All-trans :
    (p r : Rule) (rs : List Rule)
    → p.priority ≤ℤ r.priority
    → All (λ q. q.priority ≤ℤ p.priority) rs
    → All (λ q. q.priority ≤ℤ r.priority) rs
All-trans p r [] h a = tt
All-trans p r (q ∷ qs) h a = (omega (arith, a.0), All-trans p r qs h a.1)

insert-IsDescending : (r : Rule) (rs : List Rule) → IsDescending rs → IsDescending (insert r rs)
unfolding insert
insert-IsDescending r [] d = (tt, tt)
insert-IsDescending r (q ∷ qs) d = elim (Bool-cases (leb_ℤ q.priority r.priority)) [
  | inl first ↦
      let below : q.priority ≤ℤ r.priority = ground arith in
      rw first ((below, All-trans q r qs below d.0), d)
  | inr later ↦
      let above : r.priority ≤ℤ q.priority = ground arith in
      rw later (insert-All q r qs above d.0, insert-IsDescending r qs d.1)
]

sort-IsDescending : (rs : List Rule) → IsDescending (sort rs)
unfolding sort
sort-IsDescending [] = tt
sort-IsDescending (r ∷ rs) = insert-IsDescending r (sort rs) (sort-IsDescending rs)

pub sort-SortsByPriority : SortsByPriority sort
sort-SortsByPriority = record { rearranges = sort-Perm; descends = sort-IsDescending }
