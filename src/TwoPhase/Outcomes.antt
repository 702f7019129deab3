-- ===== src/TwoPhase/Outcomes.antt =====
-- How an execution ends.
use advanced_golang_tutorial.Prelude.{
  ◌≡◌, ◌≢◌, refl, sym, ◌∙◌, true, false, List, [], Option, none, some, arith, Bool-cases,
  Option-cases, inl, inr, ◌⊎◌,
}
use advanced_golang_tutorial.TwoPhase.{
  Participant, not_begun, opened, committed, rolled_back, Error, Answers, Coordinator, Metrics,
  TransactionStatus, status_prepared, status_pending, begin_execution, end_status, count_end,
  record_failure, prepare_all, commit_all, participant_names, execute_two_phase_commit,
  execute_distributed_transaction, update_status,
}
use advanced_golang_tutorial.TwoPhase.Phases.{
  lists, is_commit_error, FailsIn, ArePrepared, IsUndone, IsEnded, Holds, prepare_all-PrepareEnds,
  commit_all-outcome,
}

-- The commit phase goes through all participants.
abbrev pub AreVisited : List Participant → Type 0
AreVisited visits = (p : Participant) → lists p visits ≡ true

prepared-Holds : (ps : List Participant) (c : Coordinator) → ArePrepared ps c → Holds ps c
unfolding ArePrepared Holds
prepared-Holds ps c h p out e =
    let before = h p in
    let was : c.tx p ≡ not_begun = rw out at before in not_begun_closed (sym was ∙ e)
  where
    not_begun_closed : not_begun ≢ opened
    not_begun_closed e' = cc

-- How the two phases end: with all committed; with an error of the commit phase and nothing left
-- open; or with an earlier error and everything undone.
abbrev pub Outcome : Option Error × Coordinator → Type 0
Outcome r =
    ((r.0 ≡ none) × ((p : Participant) → r.1.tx p ≡ committed))
    ⊎ ((FailsIn true r.0 × ((p : Participant) → r.1.tx p ≢ opened))
        ⊎ (FailsIn false r.0
            × ((p : Participant) → (r.1.tx p ≡ not_begun) ⊎ (r.1.tx p ≡ rolled_back))))

update_status-ArePrepared :
    (a : Answers) (s : TransactionStatus) (ps : List Participant) (c : Coordinator)
    → ArePrepared ps c
    → ArePrepared ps (update_status a s c)
unfolding ArePrepared
update_status-ArePrepared a s ps c h p = ground (arith, h p)

two_phase-Outcome :
    (a : Answers) (visits : List Participant) (c : Coordinator)
    → ArePrepared [] c
    → AreVisited visits
    → Outcome (execute_two_phase_commit a visits c)
unfolding execute_two_phase_commit IsEnded IsUndone
two_phase-Outcome a visits c fresh all =
    let r = prepare_all a participant_names [] c in
    let ready = update_status a status_prepared r.1.1 in
    elim (prepare_all-PrepareEnds a participant_names [] c fresh) [
      | inr (failed, undone) ↦ elim (Option-cases r.0) [
        | inl none_failed ↦ (let absurd = rw none_failed at failed in cc)
        | inr (e, some_failed) ↦
            let goes : execute_two_phase_commit a visits c ≡ (r.0, r.1.1) = ground arith in
            rw goes (inr (inr (failed, undone)))
      ]
      | inl (done, prepared) ↦
          let goes : execute_two_phase_commit a visits c ≡ commit_all a r.1.0 visits ready =
            ground arith in
          rw goes
            (elim (commit_all-outcome a r.1.0 visits ready (
              prepared-Holds r.1.0 ready
                (update_status-ArePrepared a status_prepared r.1.0 r.1.1 prepared))) [
                  | inl (none_left, states) ↦
                      inl (none_left, λ p. let s = states p in let v = all p in rw v at s)
                  | inr (failed, ended) ↦ inr (inl (failed, ended))
                ])
    ]

ended-Outcome :
    (a : Answers) (s : TransactionStatus) (e : Option Error) (c : Coordinator) (m : Metrics)
    → Outcome (e, c)
    → Outcome (e, update_status a s (record c { metrics = m }))
ended-Outcome a s e c m o =
    let states : (update_status a s (record c { metrics = m })).tx ≡ c.tx = ground arith in
    rw states o

fresh :
    (c : Coordinator) → ArePrepared [] (record (begin_execution c) { status = some status_pending })
unfolding ArePrepared lists
fresh c p = refl

-- Where the commit phase goes through all participants, an execution ends in one of three ways:
-- without an error and with every participant's transaction committed; with an error of the commit
-- phase and no transaction left open; or with an earlier error and every transaction either not
-- begun or rolled back.
pub execute-Outcome :
    (a : Answers) (visits : List Participant) (c : Coordinator)
    → AreVisited visits
    → Outcome (execute_distributed_transaction a visits c)
unfolding execute_distributed_transaction is_commit_error
execute-Outcome a visits c all =
    let start = record (begin_execution c) { status = some status_pending } in
    let r = execute_two_phase_commit a visits start in
    elim (Bool-cases a.records) [
      | inr unrecorded ↦
          let goes : execute_distributed_transaction a visits c
              ≡ (some record_failure, begin_execution c) =
            ground arith in
          rw goes (inr (inr (refl, λ p. inl refl)))
      | inl recorded ↦
          let goes : execute_distributed_transaction a visits c ≡ (
            r.0,
            update_status a (end_status r.0) (record r.1 { metrics = count_end r.0 r.1.metrics }),
          ) =
            ground arith in
          rw goes (
            ended-Outcome a (end_status r.0) r.0 r.1 (count_end r.0 r.1.metrics)
              (two_phase-Outcome a visits start (fresh c) all))
    ]
