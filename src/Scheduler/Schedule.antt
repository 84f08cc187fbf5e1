-- ===== src/Scheduler/Schedule.antt =====
-- Scheduler::Schedule of scheduler.cc.
use programmable_caching.Base.{ℕ, zero, suc, String, List, [], ◌∷◌, ◌++◌, ◌==◌, if◌then◌else◌}
use programmable_caching.Base.Exec.{Outcome, returns, and_then, traverse}
use programmable_caching.Base.Int.{ℤ, ltz, room}
use programmable_caching.Proto.Common.{Task, Rule, OperationType, get_action, put_action}
use programmable_caching.Scheduler.Common.{Decision, empty_decision}
use programmable_caching.Scheduler.Jobs.{JobView}
use programmable_caching.Scheduler.View.{
  SystemView, get_schedulable_engines, get_engine_state, get_persistent_mgr_for_file,
  get_persistent_mgr_for_put,
}

-- std::sort by the second component: an insertion sort, which gives one of the orders allowed.
unfoldable pub insert_sorted : String × ℤ → List (String × ℤ) → List (String × ℤ)
insert_sorted p [] = p ∷ []
insert_sorted p (q ∷ rest) =
    let later = insert_sorted p rest in if ltz q.1 p.1 then q ∷ later else p ∷ q ∷ rest

unfoldable pub sort_pairs : List (String × ℤ) → List (String × ℤ)
unfolding insert_sorted
sort_pairs [] = []
sort_pairs (p ∷ rest) = insert_sorted p (sort_pairs rest)

-- The rule that reads the input file from its persistent manager.
unfoldable pub input_rule : SystemView → Task → Outcome (List Rule)
input_rule v task =
    if task.input_file == ""
    then returns []
    else and_then (get_persistent_mgr_for_file v task.input_file) λ name. returns (
        record {
          op_type = OperationType.get;
          key = task.input_file;
          action =
              get_action (record { key = task.input_file; mgr = record { name = name; uri = "" } })
              ∷ [];
        }
        ∷ [])

-- The rule that writes the output file to a persistent manager.
unfoldable pub output_rule : SystemView → Task → Outcome (List Rule)
output_rule v task =
    if task.output_file == ""
    then returns []
    else and_then (get_persistent_mgr_for_put v task.output_file) λ name. returns (
        record {
          op_type = OperationType.put;
          key = task.output_file;
          action =
              put_action (record { key = task.output_file; mgr = record { name = name; uri = "" } })
              ∷ [];
        }
        ∷ [])

module _ {J : Type 0} (jobs : JobView J) (j : J) (v : SystemView) where
  -- The local variable `d` at the end of a round of the inner loop.
  unfoldable pub fill_decision : String → String → Outcome Decision
  unfolding input_rule output_rule
  fill_decision engine task_id = and_then (jobs.get_task_data j task_id) λ found.
      and_then (input_rule v found.t) λ r_in.
        and_then (output_rule v found.t)
          λ r_out. returns (record { engine = engine; task = found.t; rules = r_in ++ r_out })

  -- The loop `while (available > 0)`, with the tasks from task_idx on. A round appends an empty
  -- decision and fills `d`, declared by `auto`, which is a copy of it.
  unfoldable pub schedule_engine :
      String → ℕ → List (String × ℤ) → List Decision → Outcome (List Decision × List (String × ℤ))
  schedule_engine engine zero tasks decisions = returns (decisions, tasks)
  schedule_engine engine (suc available) [] decisions = returns (decisions, [])
  schedule_engine engine (suc available) (task ∷ rest) decisions =
      and_then (fill_decision engine task.0)
        λ d. schedule_engine engine available rest (decisions ++ empty_decision ∷ [])

  unfoldable pub schedule_engines :
      List String → List (String × ℤ) → List Decision → Outcome (List Decision)
  schedule_engines [] tasks decisions = returns decisions
  schedule_engines (engine ∷ engines) tasks decisions = and_then (get_engine_state v engine) λ s.
      and_then (schedule_engine engine (room s.maximum_tasks s.running_tasks) tasks decisions)
        λ r. schedule_engines engines r.1 r.0

  unfoldable pub task_size : String → Outcome (String × ℤ)
  task_size task =
      and_then (jobs.get_job_data j task) λ found. returns (task, found.remaining_tasks)

  unfoldable pub schedule : List String → Outcome (List Decision)
  schedule pending_tasks =
      and_then (traverse task_size pending_tasks)
        λ pairs. schedule_engines (get_schedulable_engines v) (sort_pairs pairs) []
