-- ===== src/TwoPhase/Tests.antt =====
-- Executions of distributed transactions.
use advanced_golang_tutorial.Prelude.{
  ◌≡◌, refl, true, false, List, [], ◌∷◌, none, some, if◌then◌else◌,
}
use advanced_golang_tutorial.TwoPhase.{
  Participant, order, inventory, payment, not_begun, committed, rolled_back, commit_phase_failure,
  Answers, Coordinator, same_participant, execute_distributed_transaction,
}
use advanced_golang_tutorial.TwoPhase.Phases.{lists}
use advanced_golang_tutorial.TwoPhase.Outcomes.{Outcome, AreVisited, execute-Outcome}
use advanced_golang_tutorial.TwoPhase.Atomicity.{ArePreparable, execute_halfway}

abbrev idle : Coordinator
idle = record {
  tx = λ p. not_begun;
  status = none;
  metrics = record {
    total_transactions = 0;
    committed_tx = 0;
    aborted_tx = 0;
    prepare_failures = 0;
    commit_failures = 0;
  };
}

-- The inventory's update fails.
abbrev no_stock : Answers
no_stock = record {
  records = true;
  updates = λ s. true;
  is_registered = λ p. true;
  begins = λ p. true;
  prepares = λ p. true;
  commits = λ p. if same_participant p inventory then false else true;
  tx_commits = λ p. true;
}

abbrev payment_first : List Participant
payment_first = payment ∷ inventory ∷ order ∷ []

all_visited : AreVisited payment_first
unfolding lists same_participant
all_visited order = refl
all_visited inventory = refl
all_visited payment = refl

execute-Outcome_example : Outcome (execute_distributed_transaction no_stock payment_first idle)
execute-Outcome_example = execute-Outcome no_stock payment_first idle all_visited

no_stock-ArePreparable : ArePreparable no_stock
no_stock-ArePreparable = record {
  recorded = refl;
  registered = λ p. refl;
  begun = λ p. refl;
  prepared = λ p. refl;
}

execute_halfway_example :
    ((execute_distributed_transaction no_stock payment_first idle).0 ≡ some commit_phase_failure)
    × (((execute_distributed_transaction no_stock payment_first idle).1.tx payment ≡ committed)
        × ((execute_distributed_transaction no_stock payment_first idle).1.tx inventory
            ≡ rolled_back))
unfolding same_participant
execute_halfway_example =
    execute_halfway no_stock payment inventory (order ∷ []) idle no_stock-ArePreparable refl refl
      refl refl
