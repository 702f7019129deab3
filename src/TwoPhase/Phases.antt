-- ===== src/TwoPhase/Phases.antt =====
-- The prepare phase, the commit phase and the rollback.
use advanced_golang_tutorial.Prelude.{
  ◌≡◌, ◌≢◌, refl, sym, ap, ◌∙◌, Bool, true, false, List, [], ◌∷◌, Option, none, some, arith,
  if◌then◌else◌, Bool-cases, Option-cases, inl, inr, ◌⊎◌,
}
use advanced_golang_tutorial.TwoPhase.{
  Participant, order, inventory, payment, TxState, not_begun, opened, committed, rolled_back,
  unknown, Error, Answers, Coordinator, same_participant, set_tx, record_failure,
  participant_not_found, begin_failure, prepare_phase_failure, commit_phase_failure, commit_failure,
  rolled, rollback_all, prepare_one, prepare_all, commit_one, commit_all,
}

-- Whether a participant is in a list.
unfoldable pub lists : Participant → List Participant → Bool
unfolding same_participant
lists p [] = false
lists p (q ∷ qs) = if same_participant q p then true else lists p qs

same_participant-eq : (p q : Participant) → same_participant p q ≡ true → p ≡ q
unfolding same_participant
same_participant-eq order order e = refl
same_participant-eq inventory inventory e = refl
same_participant-eq payment payment e = refl
same_participant-eq order inventory e = cc
same_participant-eq order payment e = cc
same_participant-eq inventory order e = cc
same_participant-eq inventory payment e = cc
same_participant-eq payment order e = cc
same_participant-eq payment inventory e = cc

rolled_twice : (s : TxState) → rolled (rolled s) ≡ rolled s
unfolding rolled
rolled_twice not_begun = refl
rolled_twice opened = refl
rolled_twice committed = refl
rolled_twice rolled_back = refl
rolled_twice unknown = refl

rolled_closed : (s : TxState) → rolled s ≢ opened
unfolding rolled
rolled_closed not_begun e = cc
rolled_closed opened e = cc
rolled_closed committed e = cc
rolled_closed rolled_back e = cc
rolled_closed unknown e = cc

pub rollback_all-rolled :
    (ps : List Participant) (c : Coordinator) (p : Participant)
    → (rollback_all ps c).tx p ≡ (if lists p ps then rolled (c.tx p) else c.tx p)
unfolding rollback_all lists
rollback_all-rolled [] c p = refl
rollback_all-rolled (q ∷ qs) c p =
    let rest = rollback_all-rolled qs (set_tx q (rolled (c.tx q)) c) p in
    elim (Bool-cases (same_participant q p)) [
      | inl here ↦
          let same = ap (λ r. rolled (c.tx r)) (same_participant-eq q p here) in
          let twice = rolled_twice (c.tx p) in ground arith
      | inr there ↦ ground arith
    ]

-- Nothing is committed in the prepare phase: the prepared transactions are open, the others not.
unfoldable pub ArePrepared : List Participant → Coordinator → Type 0
ArePrepared ps c = (p : Participant) → c.tx p ≡ (if lists p ps then opened else not_begun)

-- No transaction is open, and none has come as far as a commit.
unfoldable pub IsUndone : Coordinator → Type 0
IsUndone c = (p : Participant) → (c.tx p ≡ not_begun) ⊎ (c.tx p ≡ rolled_back)

undone_at :
    (ps : List Participant) (c : Coordinator) (p : Participant)
    → c.tx p ≡ (if lists p ps then opened else not_begun)
    → ((rollback_all ps c).tx p ≡ not_begun) ⊎ ((rollback_all ps c).tx p ≡ rolled_back)
unfolding rolled
undone_at ps c p before =
    let after = rollback_all-rolled ps c p in
    elim (Bool-cases (lists p ps)) [
      | inl in_list ↦
          let was : c.tx p ≡ opened = rw in_list at before in
          let is : (rollback_all ps c).tx p ≡ rolled (c.tx p) = rw in_list at after in
          inr (is ∙ ap rolled was)
      | inr not_in ↦
          let was : c.tx p ≡ not_begun = rw not_in at before in
          let is : (rollback_all ps c).tx p ≡ c.tx p = rw not_in at after in inl (is ∙ was)
    ]

rollback_all-IsUndone :
    (ps : List Participant) (c : Coordinator) → ArePrepared ps c → IsUndone (rollback_all ps c)
unfolding ArePrepared IsUndone
rollback_all-IsUndone ps c h p = undone_at ps c p (h p)

unfoldable pub is_commit_error : Error → Bool
is_commit_error commit_phase_failure = true
is_commit_error commit_failure = true
is_commit_error record_failure = false
is_commit_error participant_not_found = false
is_commit_error begin_failure = false
is_commit_error prepare_phase_failure = false

-- An error of the commit phase, or of an earlier one.
abbrev pub FailsIn : Bool → Option Error → Type 0
FailsIn phase none = true ≡ false
FailsIn phase (some e) = is_commit_error e ≡ phase

-- The end of one round of the prepare phase.
PrepareEnds : Participant → List Participant → Option Error × Coordinator → Type 0
PrepareEnds p ps (none, c) = ArePrepared (p ∷ ps) c
PrepareEnds p ps (some e, c) = (is_commit_error e ≡ false) × IsUndone c

prepared-ArePrepared :
    (ps : List Participant) (p : Participant) (c : Coordinator)
    → ArePrepared ps c
    → ArePrepared (p ∷ ps) (set_tx p opened c)
unfolding ArePrepared lists
prepared-ArePrepared ps p c h q = let before = h q in ground arith

rolled_back-IsUndone :
    (ps : List Participant) (p : Participant) (c : Coordinator)
    → ArePrepared ps c
    → IsUndone (rollback_all ps (set_tx p rolled_back c))
unfolding ArePrepared IsUndone rolled
rolled_back-IsUndone ps p c h q = elim (Bool-cases (same_participant p q)) [
  | inl here ↦
      let after = rollback_all-rolled ps (set_tx p rolled_back c) q in
      let it : (rollback_all ps (set_tx p rolled_back c)).tx q ≡ rolled_back = ground arith in
      inr it
  | inr there ↦
      let same : (set_tx p rolled_back c).tx q ≡ c.tx q = rw (there, set_tx) refl in
      undone_at ps (set_tx p rolled_back c) q (same ∙ h q)
]

prepare_one-PrepareEnds :
    (a : Answers) (ps : List Participant) (p : Participant) (c : Coordinator)
    → ArePrepared ps c
    → PrepareEnds p ps (prepare_one a ps p c)
unfolding PrepareEnds prepare_one IsUndone is_commit_error
prepare_one-PrepareEnds a ps p c h = elim (Bool-cases (a.is_registered p)) [
  | inr missing ↦ rw (missing, prepare_one, PrepareEnds) (refl, rollback_all-IsUndone ps c h)
  | inl there ↦ elim (Bool-cases (a.begins p)) [
    | inr refused ↦
        rw (there, refused, prepare_one, PrepareEnds) (refl, rollback_all-IsUndone ps c h)
    | inl begun ↦ elim (Bool-cases (a.prepares p)) [
      | inr failed ↦
          rw (there, begun, failed, prepare_one, PrepareEnds) (refl, rolled_back-IsUndone ps p c h)
      | inl done ↦ rw (there, begun, done, prepare_one, PrepareEnds) (prepared-ArePrepared ps p c h)
    ]
  ]
]

pub prepare_all-PrepareEnds :
    (a : Answers) (ps prepared : List Participant) (c : Coordinator)
    → ArePrepared prepared c
    → let r = prepare_all a ps prepared c in
      ((r.0 ≡ none) × ArePrepared r.1.0 r.1.1) ⊎ (FailsIn false r.0 × IsUndone r.1.1)
unfolding prepare_all PrepareEnds
prepare_all-PrepareEnds a [] prepared c h = inl (refl, h)
prepare_all-PrepareEnds a (p ∷ ps) prepared c h =
    let ends = prepare_one-PrepareEnds a prepared p c h in
    let c' = (prepare_one a prepared p c).1 in
    elim (Option-cases (prepare_one a prepared p c).0) [
      | inl prepares ↦
          let now : ArePrepared (p ∷ prepared) c' = rw (prepares, PrepareEnds) at ends in
          rw (prepares, prepare_all) (prepare_all-PrepareEnds a ps (p ∷ prepared) c' now)
      | inr (e, refused) ↦
          let now : (is_commit_error e ≡ false) × IsUndone c' = rw (refused, PrepareEnds) at ends in
          rw (refused, prepare_all) (inr now)
    ]

-- No transaction is open.
unfoldable pub IsEnded : Coordinator → Type 0
IsEnded c = (p : Participant) → c.tx p ≢ opened

-- The open transactions are in the list.
unfoldable pub Holds : List Participant → Coordinator → Type 0
Holds ps c = (p : Participant) → lists p ps ≡ false → c.tx p ≢ opened

rollback_all-IsEnded :
    (ps : List Participant) (c : Coordinator) → Holds ps c → IsEnded (rollback_all ps c)
unfolding Holds IsEnded
rollback_all-IsEnded ps c h p =
    let after = rollback_all-rolled ps c p in
    elim (Bool-cases (lists p ps)) [
      | inl in_list ↦
          let is : (rollback_all ps c).tx p ≡ rolled (c.tx p) = rw in_list at after in
          λ e. rolled_closed (c.tx p) (sym is ∙ e)
      | inr not_in ↦
          let is : (rollback_all ps c).tx p ≡ c.tx p = rw not_in at after in
          λ e. h p not_in (sym is ∙ e)
    ]

set_tx-Holds :
    (ps : List Participant) (p : Participant) (s : TxState) (c : Coordinator)
    → s ≢ opened
    → Holds ps c
    → Holds ps (set_tx p s c)
unfolding Holds
set_tx-Holds ps p s c closed h q out = elim (Bool-cases (same_participant p q)) [
  | inl here ↦ rw (here, set_tx) closed
  | inr there ↦ rw (there, set_tx) (h q out)
]

-- The end of one round of the commit phase.
CommitEnds : Participant → List Participant → Coordinator → Option Error × Coordinator → Type 0
CommitEnds p ps c (none, c') = Path Coordinator c' (set_tx p committed c)
CommitEnds p ps c (some e, c') = (is_commit_error e ≡ true) × IsEnded c'

commit_one-CommitEnds :
    (a : Answers) (ps : List Participant) (p : Participant) (c : Coordinator)
    → Holds ps c
    → CommitEnds p ps c (commit_one a ps p c)
unfolding CommitEnds commit_one IsEnded is_commit_error
commit_one-CommitEnds a ps p c h = elim (Bool-cases (a.commits p)) [
  | inr failed ↦ rw (failed, commit_one, CommitEnds) (refl, rollback_all-IsEnded ps c h)
  | inl written ↦ elim (Bool-cases (a.tx_commits p)) [
    | inr failed ↦
        rw (written, failed, commit_one, CommitEnds)
          (
            refl,
            rollback_all-IsEnded ps (set_tx p unknown c) (set_tx-Holds ps p unknown c (λ e. cc) h),
          )
    | inl done ↦ rw (written, done, commit_one, CommitEnds) refl
  ]
]

visited_state :
    (q : Participant) (qs : List Participant) (c : Coordinator) (p : Participant)
    → (if lists p qs then committed else (set_tx q committed c).tx p)
      ≡ (if lists p (q ∷ qs) then committed else c.tx p)
unfolding lists
visited_state q qs c p = ground arith

pub commit_all-outcome :
    (a : Answers) (ps visits : List Participant) (c : Coordinator)
    → Holds ps c
    → let r = commit_all a ps visits c in
      ((r.0 ≡ none)
        × ((p : Participant) → r.1.tx p ≡ (if lists p visits then committed else c.tx p)))
      ⊎ (FailsIn true r.0 × IsEnded r.1)
unfolding commit_all lists CommitEnds
commit_all-outcome a ps [] c h = inl (refl, λ p. refl)
commit_all-outcome a ps (q ∷ qs) c h =
    let ends = commit_one-CommitEnds a ps q c h in
    elim (Option-cases (commit_one a ps q c).0) [
      | inl commits ↦
          let now : (commit_one a ps q c).1 ≡ set_tx q committed c =
            rw (commits, CommitEnds) at ends in
          let later =
            commit_all-outcome a ps qs (set_tx q committed c)
              (set_tx-Holds ps q committed c (λ e. cc) h) in
          let goes : commit_all a ps (q ∷ qs) c ≡ commit_all a ps qs (set_tx q committed c) =
            rw (commits, commit_all) (ap (commit_all a ps qs) now) in
          rw goes (elim later [
            | inl (none_left, states) ↦ inl (none_left, λ p. states p ∙ visited_state q qs c p)
            | inr failed ↦ inr failed
          ])
      | inr (e, refused) ↦
          let now : (is_commit_error e ≡ true) × IsEnded (commit_one a ps q c).1 =
            rw (refused, CommitEnds) at ends in
          rw (refused, commit_all) (inr now)
    ]
