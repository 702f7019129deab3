-- ===== src/Fallback/Runs.antt =====
-- Calls that overlap. Each use of activeWorkers is a step of its own, since it is an atomic counter;
-- the work of a call between the reading of the mode and its record is one step, and what else
-- happens in between comes before or after it.
use advanced_golang_tutorial.Prelude.{
  ℕ, ◌+◌, ◌-◌, ◌==◌, if◌then◌else◌, List, [], ◌∷◌, ◌++◌, none, some, get_elem?, erase_idx, Text,
  Float64,
}
use advanced_golang_tutorial.Fallback.Sliding.{FallbackMode}
use advanced_golang_tutorial.Fallback.Manager.{FallbackManagerConfig, FallbackManager, Answers}
use advanced_golang_tutorial.Fallback.Execution.{
  enter_execute, leave_execute, open_execute, finish_execute,
}
use advanced_golang_tutorial.Fallback.{
  new_fallback_manager, evaluate_mode, reset, clear_cache, start, stop,
}

-- The manager with the calls at each point of Execute: `arrived` ones have found the manager not
-- stopped, `admitted` ones are counted and within the limit, those `in_flight` have read the mode
-- that is listed, `leaving` ones are recorded and about to give their place up, and `refused` ones
-- are counted, past the limit and about to take the count back.
pub record Running (F : Float64) (D : Type 0) : Type 0 where
  pub manager : FallbackManager F D
  pub arrived : ℕ
  pub admitted : ℕ
  pub in_flight : List FallbackMode
  pub leaving : ℕ
  pub refused : ℕ

-- `finishes i` is the work and the record of the i-th of the calls in flight.
pub data Event (D : Type 0) : Type 0 where
  arrives : Event D
  enters : Event D
  backs_out : Event D
  opens : Event D
  finishes : ℕ → Text → (now duration : ℕ) → Answers D → Event D
  leaves : Event D
  evaluates : ℕ → Event D
  resets : ℕ → Event D
  clears : Event D
  starts : Event D
  stops : Event D

module _ {F : Float64} {D : Type 0} where
  unfoldable pub init : F.Carrier → F.Carrier → FallbackManagerConfig F → ℕ → Running F D
  unfolding new_fallback_manager
  init threshold recovery cfg now = record {
    manager = new_fallback_manager threshold recovery cfg now;
    arrived = 0;
    admitted = 0;
    in_flight = [];
    leaving = 0;
    refused = 0;
  }

  unfoldable pub step : Event D → Running F D → Running F D
  unfolding enter_execute leave_execute open_execute finish_execute evaluate_mode reset clear_cache
      start stop
  step arrives s = if s.manager.is_cancelled then s else record s { arrived = s.arrived + 1 }
  step enters s =
      let (within, manager) = enter_execute s.manager in
      if s.arrived == 0 then s else record s {
        manager = manager;
        arrived = s.arrived - 1;
        admitted = if within then s.admitted + 1 else s.admitted;
        refused = if within then s.refused else s.refused + 1;
      }
  step backs_out s =
      if s.refused == 0
      then s
      else record s { manager = leave_execute s.manager; refused = s.refused - 1 }
  step opens s =
      let (mode, manager) = open_execute s.manager in
      if s.admitted == 0 then s else record s {
        manager = manager;
        admitted = s.admitted - 1;
        in_flight = s.in_flight ++ mode ∷ [];
      }
  step (finishes i key now duration a) s = elim (get_elem? s.in_flight i) [
    | none ↦ s
    | some mode ↦ record s {
      manager = (finish_execute mode key now duration a s.manager).1;
      in_flight = erase_idx s.in_flight i;
      leaving = s.leaving + 1;
    }
  ]
  step leaves s =
      if s.leaving == 0
      then s
      else record s { manager = leave_execute s.manager; leaving = s.leaving - 1 }
  step (evaluates now) s = record s { manager = evaluate_mode now s.manager }
  step (resets now) s = record s { manager = reset now s.manager }
  step clears s = record s { manager = clear_cache s.manager }
  step starts s = record s { manager = (start s.manager).1 }
  step stops s = record s { manager = (stop s.manager).1 }

  unfoldable pub run : List (Event D) → Running F D → Running F D
  unfolding step
  run [] s = s
  run (e ∷ es) s = run es (step e s)
