-- ===== src/Scheduler/Common.antt =====
-- scheduler_common.h
use programmable_caching.Base.{ℕ, String, Bool, List, [], not, ◌&&◌, ◌==◌}
use programmable_caching.Base.Int.{ℤ, pos, negsuc, ltz}
use programmable_caching.Proto.Common.{Task, Rule, empty_task}

-- SchedulingDecisions::Decision
pub record Decision : Type 0 where
  pub engine : String
  pub task : Task
  pub rules : List Rule

-- What emplace_back() appends.
abbrev pub empty_decision : Decision
empty_decision = record { engine = ""; task = empty_task; rules = [] }

-- `running_tasks` starts at 0 and only grows.
pub record EngineState : Type 0 where
  pub name : String
  pub client_name : String
  pub ephemeral_name : String
  pub running_tasks : ℕ
  pub maximum_tasks : ℤ

-- EngineState()
abbrev pub default_engine_state : EngineState
default_engine_state = record {
  name = "";
  client_name = "";
  ephemeral_name = "";
  running_tasks = 0;
  maximum_tasks = negsuc 0;
}

-- EngineState(_name, _maximum_tasks)
abbrev pub new_engine_state : String → ℤ → EngineState
new_engine_state name maximum_tasks = record default_engine_state {
  name = name;
  maximum_tasks = maximum_tasks;
}

unfoldable pub available_to_schedule : EngineState → Bool
available_to_schedule s =
    ltz (pos s.running_tasks) s.maximum_tasks
    && (not (s.name == "") && (not (s.client_name == "") && not (s.ephemeral_name == "")))

-- JobData, without its arrival time, which nothing reads.
pub record JobData : Type 0 where
  pub total_tasks : ℤ
  pub remaining_tasks : ℤ

pub record TaskData : Type 0 where
  pub t : Task
