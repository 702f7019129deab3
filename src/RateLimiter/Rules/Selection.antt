-- ===== src/RateLimiter/Rules/Selection.antt =====
-- Which of the rules that were added a request gets. The sort of the package slices is a parameter.
use mathlib.Core.List.{
  Mem, Perm, mem-cons, mem-cons_self, mem-cons_of_mem, not-mem-nil, append-nil, append_assoc,
}
use mathlib.Core.List.Perm
use mathlib.Core.HLevel.{⊥_prop}
use mathlib.Core.Logic.Or
use native.Mathlib.Bridge.{le_prop}
use advanced_golang_tutorial.Prelude.{
  ◌≡◌, ◌≢◌, sym, true, List, [], ◌∷◌, ◌++◌, none, some, arith, All, ◌≤ℤ◌, Bool-cases, inl, inr,
}
use advanced_golang_tutorial.RateLimiter.Rules.{
  Request, Rule, rule_matches, find_applicable_rule, add_rule, add_rules,
}

abbrev pub IsDescending : List Rule → Type 0
IsDescending [] = Unit {0}
IsDescending (r ∷ rs) = All (λ q. q.priority ≤ℤ r.priority) rs × IsDescending rs

-- slices.SortFunc by descending priority: a rearrangement, in descending order. It need not be
-- stable.
pub record SortsByPriority (sort : List Rule → List Rule) : Type 0 where
  pub rearranges : (rules : List Rule) → Perm (sort rules) rules
  pub descends : (rules : List Rule) → IsDescending (sort rules)

le_of_mem :
    (p : Rule) (q : Rule) (rules : List Rule)
    → All (λ x. x.priority ≤ℤ p.priority) rules
    → Mem q rules
    → q.priority ≤ℤ p.priority
le_of_mem p q [] h m = absurd (not-mem-nil m)
le_of_mem p q (x ∷ xs) h m = Or.elim le_prop (mem-cons.0 m) (λ e. rw e h.0) (le_of_mem p q xs h.1)

find-highest :
    (rules : List Rule) (r : Request) (rule q : Rule)
    → IsDescending rules
    → find_applicable_rule rules r ≡ some rule
    → rule_matches q r ≡ true
    → Mem q rules
    → q.priority ≤ℤ rule.priority
unfolding find_applicable_rule
find-highest [] r rule q d f h m = absurd (not-mem-nil m)
find-highest (x ∷ xs) r rule q d f h m = elim (Bool-cases (rule_matches x r)) [
  | inl hit ↦
      let chosen : x ≡ rule = ground arith in
      Or.elim le_prop (mem-cons.0 m) (λ e. rw (e, chosen) (omega arith))
        (λ rest. rw chosen at (le_of_mem x q xs d.0 rest))
  | inr miss ↦
      let next : find_applicable_rule xs r ≡ some rule = ground arith in
      Or.elim le_prop (mem-cons.0 m) (λ e. absurd (let both = (rw e at h) in ground arith))
        (find-highest xs r rule q d.1 next h)
]

find-chosen :
    (rules : List Rule) (r : Request) (rule : Rule)
    → find_applicable_rule rules r ≡ some rule
    → Mem rule rules × (rule_matches rule r ≡ true)
unfolding find_applicable_rule
find-chosen [] r rule f = cc
find-chosen (x ∷ xs) r rule f = elim (Bool-cases (rule_matches x r)) [
  | inl hit ↦ let chosen : x ≡ rule = ground arith in rw (← chosen) (mem-cons_self, hit)
  | inr miss ↦
      let next : find_applicable_rule xs r ≡ some rule = ground arith in
      let (m, h) = find-chosen xs r rule next in (mem-cons_of_mem x m, h)
]

find-none :
    (rules : List Rule) (r : Request) (q : Rule)
    → find_applicable_rule rules r ≡ none
    → Mem q rules
    → rule_matches q r ≢ true
unfolding find_applicable_rule
find-none [] r q f m h = absurd (not-mem-nil m)
find-none (x ∷ xs) r q f m h = elim (Bool-cases (rule_matches x r)) [
  | inl hit ↦ absurd (ground arith)
  | inr miss ↦
      let next : find_applicable_rule xs r ≡ none = ground arith in
      Or.elim ⊥_prop (mem-cons.0 m) (λ e. absurd (let both = (rw e at h) in ground arith))
        (λ rest. find-none xs r q next rest h)
]

module _ (sort : List Rule → List Rule) (sorts : SortsByPriority sort) where
  add_rules-perm : (added rules : List Rule) → Perm (add_rules sort added rules) (rules ++ added)
  unfolding add_rules
  add_rules-perm [] rules = rw append-nil (Perm.refl rules)
  add_rules-perm (x ∷ xs) rules = rw (sym (append_assoc rules (x ∷ []) xs)) (
      Perm.trans (add_rules-perm xs (add_rule sort x rules))
        (Perm.append_right xs (sorts.rearranges (rules ++ x ∷ []))))

  add_rules-IsDescending :
      (added rules : List Rule) → IsDescending rules → IsDescending (add_rules sort added rules)
  unfolding add_rules
  add_rules-IsDescending [] rules d = d
  add_rules-IsDescending (x ∷ xs) rules d =
      add_rules-IsDescending xs (add_rule sort x rules) (sorts.descends (rules ++ x ∷ []))

  -- Over the rules that were added to an empty limiter, in any order: the rule that a request gets
  -- was added and matches it, and no added rule that matches has a higher priority; a request that
  -- gets none is matched by no added rule.
  pub find_applicable_rule-highest :
      (added : List Rule) (r : Request)
      → ((rule : Rule)
          → find_applicable_rule (add_rules sort added []) r ≡ some rule
          → Mem rule added
            × (rule_matches rule r ≡ true)
            × ((q : Rule) → Mem q added → rule_matches q r ≡ true → q.priority ≤ℤ rule.priority))
        × (find_applicable_rule (add_rules sort added []) r ≡ none
            → (q : Rule) → Mem q added
            → rule_matches q r ≢ true)
  find_applicable_rule-highest added r =
      let rules = add_rules sort added [] in
      let same = add_rules-perm added [] in
      (
        λ rule f.
            let (m, h) = find-chosen rules r rule f in
            (
              Perm.subset same rule m,
              h,
              λ q mq hq.
                  find-highest rules r rule q (add_rules-IsDescending added [] tt) f hq
                    (Perm.subset (Perm.symm same) q mq),
            ),
        λ f q mq. find-none rules r q f (Perm.subset (Perm.symm same) q mq),
      )
