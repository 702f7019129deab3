-- ===== src/TwoPhase/Atomicity.antt =====
-- Where the commit phase stops halfway.
use advanced_golang_tutorial.Prelude.{
  ◌≡◌, refl, ap, ◌∙◌, true, false, List, [], ◌∷◌, none, some, arith,
}
use advanced_golang_tutorial.TwoPhase.{
  Participant, order, inventory, payment, opened, committed, rolled_back, Answers, Coordinator,
  same_participant, set_tx, status_prepared, status_pending, begin_execution, commit_phase_failure,
  rolled, rollback_all, prepare_one, prepare_all, commit_one, commit_all, participant_names,
  execute_two_phase_commit, execute_distributed_transaction, count_commit_failure, update_status,
}
use advanced_golang_tutorial.TwoPhase.Phases.{lists, rollback_all-rolled}

-- Every participant can be prepared.
pub record ArePreparable (a : Answers) : Type 0 where
  pub recorded : a.records ≡ true
  pub registered : (p : Participant) → a.is_registered p ≡ true
  pub begun : (p : Participant) → a.begins p ≡ true
  pub prepared : (p : Participant) → a.prepares p ≡ true

prepare_one-opened :
    (a : Answers) (ps : List Participant) (p : Participant) (c : Coordinator)
    → ArePreparable a
    → prepare_one a ps p c ≡ (none, set_tx p opened c)
unfolding prepare_one
prepare_one-opened a ps p c h = rw (h.registered p, h.begun p, h.prepared p, prepare_one) refl

abbrev prepared_names : List Participant
prepared_names = payment ∷ inventory ∷ order ∷ []

prepare_all-opened :
    (a : Answers) (ps prepared : List Participant) (p : Participant) (c : Coordinator)
    → ArePreparable a
    → prepare_all a (p ∷ ps) prepared c ≡ prepare_all a ps (p ∷ prepared) (set_tx p opened c)
unfolding prepare_all
prepare_all-opened a ps prepared p c h =
    let one = prepare_one-opened a prepared p c h in
    let no_error : (prepare_one a prepared p c).0 ≡ none = ap (λ r. r.0) one in
    let after : (prepare_one a prepared p c).1 ≡ set_tx p opened c = ap (λ r. r.1) one in
    rw (no_error, prepare_all) (ap (prepare_all a ps (p ∷ prepared)) after)

prepare_names :
    (a : Answers) (c : Coordinator)
    → ArePreparable a
    → prepare_all a participant_names [] c ≡ (
      none,
      (prepared_names, set_tx payment opened (set_tx inventory opened (set_tx order opened c))),
    )
unfolding prepare_all
prepare_names a c h =
    prepare_all-opened a (inventory ∷ payment ∷ []) [] order c h
    ∙ (prepare_all-opened a (payment ∷ []) (order ∷ []) inventory _ h
        ∙ prepare_all-opened a [] (inventory ∷ order ∷ []) payment _ h)

all_opened :
    (c : Coordinator) (p : Participant)
    → (set_tx payment opened (set_tx inventory opened (set_tx order opened c))).tx p ≡ opened
unfolding same_participant
all_opened c order = refl
all_opened c inventory = refl
all_opened c payment = refl

all_prepared : (p : Participant) → lists p prepared_names ≡ true
unfolding lists same_participant
all_prepared order = refl
all_prepared inventory = refl
all_prepared payment = refl

same_itself : (p : Participant) → same_participant p p ≡ true
unfolding same_participant
same_itself order = refl
same_itself inventory = refl
same_itself payment = refl

commit_halfway :
    (a : Answers) (p q : Participant) (rest : List Participant) (c : Coordinator)
    → a.commits p ≡ true
    → a.tx_commits p ≡ true
    → a.commits q ≡ false
    → commit_all a prepared_names (p ∷ q ∷ rest) c ≡ (
      some commit_phase_failure,
      count_commit_failure (rollback_all prepared_names (set_tx p committed c)),
    )
unfolding commit_all commit_one
commit_halfway a p q rest c written done failed = ground arith

rolled_pairs :
    (p q : Participant) (c : Coordinator)
    → ((x : Participant) → c.tx x ≡ opened)
    → same_participant p q ≡ false
    → let c' = rollback_all prepared_names (set_tx p committed c) in
      (c'.tx p ≡ committed) × (c'.tx q ≡ rolled_back)
unfolding rolled
rolled_pairs p q c all apart =
    let first = rollback_all-rolled prepared_names (set_tx p committed c) p in
    let second = rollback_all-rolled prepared_names (set_tx p committed c) q in
    let listed_p = all_prepared p in
    let listed_q = all_prepared q in
    let own : (set_tx p committed c).tx p ≡ committed = rw (same_itself p, set_tx) refl in
    let others : (set_tx p committed c).tx q ≡ opened = rw (apart, set_tx) (all q) in
    let is : (rollback_all prepared_names (set_tx p committed c)).tx p
        ≡ rolled ((set_tx p committed c).tx p) =
      rw listed_p at first in
    let js : (rollback_all prepared_names (set_tx p committed c)).tx q
        ≡ rolled ((set_tx p committed c).tx q) =
      rw listed_q at second in
    (is ∙ ap rolled own, js ∙ ap rolled others)

two_phase_commits :
    (a : Answers) (visits : List Participant) (c : Coordinator) (ps : List Participant)
    (c' : Coordinator)
    → prepare_all a participant_names [] c ≡ (none, (ps, c'))
    → execute_two_phase_commit a visits c
      ≡ commit_all a ps visits (update_status a status_prepared c')
unfolding execute_two_phase_commit
two_phase_commits a visits c ps c' names =
    let r = prepare_all a participant_names [] c in
    let done : r.0 ≡ none = ap (λ x. x.0) names in
    let goes : execute_two_phase_commit a visits c
        ≡ commit_all a r.1.0 visits (update_status a status_prepared r.1.1) =
      ground arith in
    goes ∙ ap (λ x. commit_all a x.1.0 visits (update_status a status_prepared x.1.1)) names

execution_ends :
    (a : Answers) (visits : List Participant) (c : Coordinator)
    → a.records ≡ true
    → let r =
        execute_two_phase_commit a visits
          (record (begin_execution c) { status = some status_pending }) in
      let r' = execute_distributed_transaction a visits c in (r'.0 ≡ r.0) × (r'.1.tx ≡ r.1.tx)
unfolding execute_distributed_transaction
execution_ends a visits c recorded = (ground arith, ground arith)

-- Where all participants are prepared and the commit phase begins with one whose participant.Commit
-- and tx.Commit succeed and goes on to another whose participant.Commit fails, the first one's
-- transaction stays committed and the second one's is rolled back: the execution, which returns the
-- error of the commit phase, is not atomic.
pub execute_halfway :
    (a : Answers) (p q : Participant) (rest : List Participant) (c : Coordinator)
    → ArePreparable a
    → a.commits p ≡ true
    → a.tx_commits p ≡ true
    → a.commits q ≡ false
    → same_participant p q ≡ false
    → let r = execute_distributed_transaction a (p ∷ q ∷ rest) c in
      (r.0 ≡ some commit_phase_failure) × ((r.1.tx p ≡ committed) × (r.1.tx q ≡ rolled_back))
execute_halfway a p q rest c h written done failed apart =
    let start = record (begin_execution c) { status = some status_pending } in
    let names = prepare_names a start h in
    let ready =
      update_status a status_prepared
        (set_tx payment opened (set_tx inventory opened (set_tx order opened start))) in
    let states : (x : Participant) → ready.tx x ≡ opened =
      (λ x. ground (arith, all_opened start x)) in
    let pairs = rolled_pairs p q ready states apart in
    let half = commit_halfway a p q rest ready written done failed in
    let r = execute_two_phase_commit a (p ∷ q ∷ rest) start in
    let ends : r ≡ (
      some commit_phase_failure,
      count_commit_failure (rollback_all prepared_names (set_tx p committed ready)),
    ) =
      two_phase_commits a (p ∷ q ∷ rest) start _ _ names ∙ half in
    let goes = execution_ends a (p ∷ q ∷ rest) c h.recorded in
    (
      goes.0 ∙ ap (λ x. x.0) ends,
      (
        ap (λ tx. tx p) goes.1 ∙ (ap (λ x. x.1.tx p) ends ∙ pairs.0),
        ap (λ tx. tx q) goes.1 ∙ (ap (λ x. x.1.tx q) ends ∙ pairs.1),
      ),
    )
