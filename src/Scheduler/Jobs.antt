-- ===== src/Scheduler/Jobs.antt =====
-- JobView. Its methods have empty bodies: nothing is stored, no task is ever pending, and
-- GetJobData and GetTaskData end without the value that they promise, which is undefined.
use programmable_caching.Base.{String, List}
use programmable_caching.Base.Exec.{Outcome, faults, undefined}
use programmable_caching.Proto.Common.{Task, Job}
use programmable_caching.Scheduler.Common.{Decision, JobData, TaskData}

-- The methods of the class over a state `J`.
pub record JobView (J : Type 0) : Type 0 where
  pub add_job : J → Job → J
  pub remove_task : J → Task → J
  pub get_pending_tasks : J → List String → List String
  pub tasks_scheduled : J → List Decision → J
  pub get_job_data : J → String → Outcome JobData
  pub get_task_data : J → String → Outcome TaskData

-- The class of job_view.cc, which has no fields.
abbrev pub job_view : JobView (Unit {0})
job_view = record {
  add_job = λ j job. j;
  remove_task = λ j task. j;
  get_pending_tasks = λ j tasks. tasks;
  tasks_scheduled = λ j decisions. j;
  get_job_data = λ j task_id. faults undefined;
  get_task_data = λ j task_id. faults undefined;
}
