-- ===== src/Scheduler/Decided.antt =====
-- When Schedule returns.
use programmable_caching.Base.{String, List, none, ◌≡◌, ◌≢◌}
use programmable_caching.Base.Dict.{Dict, lookup}
use programmable_caching.Base.Exec.{returns}
use programmable_caching.Base.Int.{ℤ}
use programmable_caching.Proto.Common.{Rule}
use programmable_caching.Scheduler.Common.{EngineState, JobData, TaskData}
use programmable_caching.Scheduler.Jobs.{JobView}
use programmable_caching.Scheduler.View.{SystemView}
use programmable_caching.Scheduler.Schedule.{input_rule, output_rule}

module _ {J : Type 0} (jobs : JobView J) (j : J) (v : SystemView) where
  -- The job view has the data of the task, and the system view the managers of its files.
  pub record IsPlaceable (task : String) : Type 0 where
    pub job : JobData
    pub data_of : TaskData
    pub has_job : jobs.get_job_data j task ≡ returns job
    pub has_data : jobs.get_task_data j task ≡ returns data_of
    pub reads : List Rule
    pub has_input : input_rule v data_of.t ≡ returns reads
    pub writes : List Rule
    pub has_output : output_rule v data_of.t ≡ returns writes

  abbrev IsPlaceablePair : String × ℤ → Type 0
  IsPlaceablePair p = IsPlaceable p.0

  abbrev HasState : String → Type 0
  HasState engine = lookup engine v.engine_to_state ≢ none

abbrev HasEntry : Dict EngineState → String → Type 0
HasEntry d engine = lookup engine d ≢ none
