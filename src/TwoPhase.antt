-- ===== src/TwoPhase.antt =====
-- The coordinator of 05_database_parallel_access_pattern/ans_02/distributed_transaction.go. What the
-- database and the participants answer is a parameter of a run, and so is the order in which the map
-- of the prepared transactions is gone through. A rollback ends a transaction whatever it answers,
-- and a commit that answers with an error leaves its outcome unknown.
use advanced_golang_tutorial.Prelude.{
  ℕ, Bool, true, false, List, [], ◌∷◌, Option, none, some, if◌then◌else◌, add_i64,
}
pub mod Phases
pub mod Outcomes
pub mod Atomicity
mod Tests

pub data Participant : Type 0 where
  order : Participant
  inventory : Participant
  payment : Participant

pub data TxState : Type 0 where
  not_begun : TxState
  opened : TxState
  committed : TxState
  rolled_back : TxState
  unknown : TxState

pub data TransactionStatus : Type 0 where
  status_pending : TransactionStatus
  status_prepared : TransactionStatus
  status_committed : TransactionStatus
  status_aborted : TransactionStatus

pub data Error : Type 0 where
  record_failure : Error
  participant_not_found : Error
  begin_failure : Error
  prepare_phase_failure : Error
  commit_phase_failure : Error
  commit_failure : Error

pub record Answers : Type 0 where
  pub records : Bool
  pub updates : TransactionStatus → Bool
  pub is_registered : Participant → Bool
  pub begins : Participant → Bool
  pub prepares : Participant → Bool
  pub commits : Participant → Bool
  pub tx_commits : Participant → Bool

pub record Metrics : Type 0 where
  pub total_transactions : ℕ
  pub committed_tx : ℕ
  pub aborted_tx : ℕ
  pub prepare_failures : ℕ
  pub commit_failures : ℕ

pub record Coordinator : Type 0 where
  pub tx : Participant → TxState
  pub status : Option TransactionStatus
  pub metrics : Metrics

unfoldable pub same_participant : Participant → Participant → Bool
same_participant order order = true
same_participant inventory inventory = true
same_participant payment payment = true
same_participant p q = false

abbrev pub set_tx : Participant → TxState → Coordinator → Coordinator
set_tx p s c = record c { tx = λ q. if same_participant p q then s else c.tx q }

-- tx.Rollback, which does nothing to a transaction that is done.
unfoldable pub rolled : TxState → TxState
rolled opened = rolled_back
rolled s = s

unfoldable pub rollback_all : List Participant → Coordinator → Coordinator
unfolding same_participant rolled
rollback_all [] c = c
rollback_all (p ∷ ps) c = rollback_all ps (set_tx p (rolled (c.tx p)) c)

abbrev pub count_prepare_failure : Coordinator → Coordinator
count_prepare_failure c = record c {
  metrics = record c.metrics { prepare_failures = add_i64 c.metrics.prepare_failures 1 };
}

abbrev pub count_commit_failure : Coordinator → Coordinator
count_commit_failure c = record c {
  metrics = record c.metrics { commit_failures = add_i64 c.metrics.commit_failures 1 };
}

-- One round of the prepare phase.
unfoldable pub prepare_one :
    Answers → List Participant → Participant → Coordinator → Option Error × Coordinator
unfolding rollback_all
prepare_one a prepared p c =
    if a.is_registered p
    then if a.begins p
      then if a.prepares p then (none, set_tx p opened c) else (
        some prepare_phase_failure,
        count_prepare_failure (rollback_all prepared (set_tx p rolled_back c)),
      )
      else (some begin_failure, count_prepare_failure (rollback_all prepared c))
    else (some participant_not_found, rollback_all prepared c)

-- With the names of the prepared transactions.
unfoldable pub prepare_all :
    Answers
    → List Participant
    → List Participant
    → Coordinator
    → Option Error × (List Participant × Coordinator)
unfolding prepare_one
prepare_all a [] prepared c = (none, (prepared, c))
prepare_all a (p ∷ ps) prepared c =
    let (e, c') = prepare_one a prepared p c in
    let rest = prepare_all a ps (p ∷ prepared) c' in
    elim e [ none ↦ rest | some e' ↦ (some e', (prepared, c')) ]

unfoldable pub commit_one :
    Answers → List Participant → Participant → Coordinator → Option Error × Coordinator
unfolding rollback_all
commit_one a prepared p c =
    if a.commits p
    then if a.tx_commits p
      then (none, set_tx p committed c)
      else (some commit_failure, count_commit_failure (rollback_all prepared (set_tx p unknown c)))
    else (some commit_phase_failure, count_commit_failure (rollback_all prepared c))

unfoldable pub commit_all :
    Answers → List Participant → List Participant → Coordinator → Option Error × Coordinator
unfolding commit_one
commit_all a prepared [] c = (none, c)
commit_all a prepared (p ∷ ps) c =
    let (e, c') = commit_one a prepared p c in
    let rest = commit_all a prepared ps c' in elim e [ none ↦ rest | some e' ↦ (some e', c') ]

abbrev pub update_status : Answers → TransactionStatus → Coordinator → Coordinator
update_status a s c = if a.updates s then record c { status = some s } else c

abbrev pub participant_names : List Participant
participant_names = order ∷ inventory ∷ payment ∷ []

-- `visits` is the order of the commit phase, which goes through a map.
unfoldable pub execute_two_phase_commit :
    Answers → List Participant → Coordinator → Option Error × Coordinator
unfolding prepare_all commit_all
execute_two_phase_commit a visits c =
    let (e, (prepared, c')) = prepare_all a participant_names [] c in
    let commits = commit_all a prepared visits (update_status a status_prepared c') in
    elim e [ none ↦ commits | some e' ↦ (some e', c') ]

abbrev pub count_end : Option Error → Metrics → Metrics
count_end none m = record m { committed_tx = add_i64 m.committed_tx 1 }
count_end (some e) m = record m { aborted_tx = add_i64 m.aborted_tx 1 }

abbrev pub end_status : Option Error → TransactionStatus
end_status none = status_committed
end_status (some e) = status_aborted

-- The first steps of an execution, before the record is written.
abbrev pub begin_execution : Coordinator → Coordinator
begin_execution c = record c {
  tx = λ p. not_begun;
  status = none;
  metrics = record c.metrics { total_transactions = add_i64 c.metrics.total_transactions 1 };
}

unfoldable pub execute_distributed_transaction :
    Answers → List Participant → Coordinator → Option Error × Coordinator
unfolding execute_two_phase_commit
execute_distributed_transaction a visits c =
    let begun = begin_execution c in
    let (e, c') =
      execute_two_phase_commit a visits (record begun { status = some status_pending }) in
    if a.records
    then (e, update_status a (end_status e) (record c' { metrics = count_end e c'.metrics }))
    else (some record_failure, begun)
