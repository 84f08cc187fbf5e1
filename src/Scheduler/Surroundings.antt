-- ===== src/Scheduler/Surroundings.antt =====
-- Surroundings of a scheduler for the examples: no tasks, and calls that always succeed.
use programmable_caching.Base.Exec.{returns, faults, out_of_range}
use programmable_caching.Proto.Storage.{empty_view_reply}
use programmable_caching.Rpc.{ok, MasterTransport, EngineTransport}
use programmable_caching.Scheduler.Jobs.{JobView}

abbrev pub no_task : JobView (Unit {0})
no_task = record {
  add_job = λ j job. j;
  remove_task = λ j task. j;
  get_pending_tasks = λ j tasks. tasks;
  tasks_scheduled = λ j decisions. j;
  get_job_data = λ j task_id. faults out_of_range;
  get_task_data = λ j task_id. faults out_of_range;
}

abbrev pub master : MasterTransport (Unit {0})
master = record {
  send_introduce = λ uri wait request s. (returns (ok, record { name = "" }), s);
  send_heartbeat = λ uri wait s. (returns ok, s);
  send_storage_change = λ uri wait request s. (returns ok, s);
  send_install_rule = λ uri wait request s. (returns ok, s);
  send_remove_rule = λ uri wait request s. (returns ok, s);
  send_get_view = λ uri wait s. (returns (ok, empty_view_reply), s);
}

abbrev pub engines : EngineTransport (Unit {0})
engines = record { send_execute = λ uri wait task s. (returns ok, s) }
