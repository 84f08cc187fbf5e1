-- ===== src/Scheduler/Tests.antt =====
-- The scheduler with one schedulable engine and one pending task, and as it starts.
use programmable_caching.Base.{[], ◌∷◌, ◌≡◌, refl}
use programmable_caching.Base.Text.{until_colon}
use programmable_caching.Base.Dict.{lookup, insert}
use programmable_caching.Base.Exec.{returns, traverse, and_then}
use programmable_caching.Base.Int.{pos, room}
use programmable_caching.Proto.Common.{
  Task, Rule, OperationType, StorageName, get_action, put_action, storage_name_parse,
}
use programmable_caching.Proto.Sched.{SchedulerIntroduceRequest}
use programmable_caching.Proto.Storage.{
  StorageManagerIntroduce, StorageType, storage_manager, GetViewReply,
}
use programmable_caching.Rpc.{Status, ok}
use programmable_caching.Rpc.MasterStub
use programmable_caching.Master.Naming.{generate_name}
use programmable_caching.Scheduler.Common.{empty_decision, available_to_schedule, new_engine_state}
use programmable_caching.Scheduler.Jobs.{JobView}
use programmable_caching.Scheduler.Uri.{name_to_storage_name, uri_to_hostname}
use programmable_caching.Scheduler.View.{
  SystemView, get_schedulable_engines, get_engine_state, get_persistent_mgr_for_file,
  get_persistent_mgr_for_put, parsed, add_execution_engine,
}
use programmable_caching.Scheduler.View as View
use programmable_caching.Scheduler.Schedule.{
  input_rule, output_rule, fill_decision, schedule_engine, schedule_engines, sort_pairs, task_size,
  schedule,
}
use programmable_caching.Scheduler.Service.{
  Scheduler, init, introduce, control_round, schedule_pending, execute,
}
use programmable_caching.Scheduler.Reach.{Reach, Step, Reach-unschedulable, Reach-sends_nothing}
use programmable_caching.Scheduler.Names.{parsed-generate_name}
use programmable_caching.Scheduler.Surroundings.{master, engines}

abbrev the_task : Task
the_task = record { id = "t"; input_file = "in"; output_file = "out" }

-- A job view that knows one task, always pending.
abbrev one_task : JobView (Unit {0})
one_task = record {
  add_job = λ j job. j;
  remove_task = λ j task. j;
  get_pending_tasks = λ j tasks. "t" ∷ [];
  tasks_scheduled = λ j decisions. j;
  get_job_data = λ j task_id. returns (record { total_tasks = pos 1; remaining_tasks = pos 1 });
  get_task_data = λ j task_id. returns (record { t = the_task });
}

-- A view with one engine that takes two tasks.
abbrev one_engine : SystemView
one_engine = record (View.init StorageName.ephemeral StorageName.fake_persistant) {
  engine_to_state =
      (
        "e:1",
        record {
          name = "e:1";
          client_name = "client:e";
          ephemeral_name = "manager:EPHEMERAL:MANAGED:e";
          running_tasks = 0;
          maximum_tasks = pos 2;
        },
      )
      ∷ [];
  persistant_key_to_mgr = ("in", "manager:FAKE_PERSISTANT:MANAGED:p") ∷ [];
}

one_decided : schedule one_task tt one_engine ("t" ∷ []) ≡ returns (empty_decision ∷ [])
unfolding schedule traverse task_size sort_pairs schedule_engines schedule_engine fill_decision
    input_rule output_rule get_persistent_mgr_for_file get_persistent_mgr_for_put
    get_schedulable_engines get_engine_state available_to_schedule lookup room
one_decided = refl

-- The rules for the input and the output of the task.
abbrev rule_in : Rule
rule_in = record {
  op_type = OperationType.get;
  key = "in";
  action =
      get_action (record {
        key = "in";
        mgr = record { name = "manager:FAKE_PERSISTANT:MANAGED:p"; uri = "" };
      })
      ∷ [];
}

abbrev rule_out : Rule
rule_out = record {
  op_type = OperationType.put;
  key = "out";
  action =
      put_action (record {
        key = "out";
        mgr = record { name = "manager:FAKE_PERSISTANT:MANAGED:p"; uri = "" };
      })
      ∷ [];
}

abbrev made : Scheduler (Unit {0})
made = init tt "sched" "1" "master" "1" (pos 5)

abbrev engine_request : SchedulerIntroduceRequest
engine_request = record { rpc_uri = "e:1"; client_rpc_uri = "e:2"; maximum_tasks = pos 2 }

abbrev with_engine : Scheduler (Unit {0})
with_engine = record made {
  system_view = record made.system_view {
    hostname_to_engine = ("e", "e:1") ∷ [];
    engine_to_state = ("e:1", new_engine_state "e:1" (pos 2)) ∷ [];
    client_uri_to_engine = ("e:2", "e:1") ∷ [];
  };
}

engine_introduced : introduce one_task made engine_request ≡ returns (ok, with_engine)
unfolding introduce add_execution_engine uri_to_hostname until_colon insert
engine_introduced = refl

with_engine-Reach : Reach one_task master engines made with_engine
with_engine-Reach = Reach.next Reach.here (Step.introduces engine_request ok engine_introduced)

round_returns : control_round one_task master engines with_engine tt ≡ (returns with_engine, tt)
unfolding control_round schedule schedule_pending traverse task_size sort_pairs schedule_engines
    get_schedulable_engines available_to_schedule View.tasks_scheduled execute
round_returns = refl

Reach-unschedulable_example : get_schedulable_engines with_engine.system_view ≡ []
Reach-unschedulable_example =
    Reach-unschedulable one_task master engines tt "sched" "1" "master" "1" (pos 5) with_engine
      with_engine-Reach

Reach-sends_nothing_example :
    (r : Status × GetViewReply) × (MasterStub.get_view master with_engine.storage_interface tt
      ≡ (returns r, tt))
Reach-sends_nothing_example =
    Reach-sends_nothing one_task master engines tt "sched" "1" "master" "1" (pos 5) with_engine
      with_engine tt tt with_engine-Reach round_returns

abbrev introduced : StorageManagerIntroduce
introduced = record {
  storage_type = StorageType.managed;
  storage_name = StorageName.fake_persistant;
  rpc_hostname = "a";
  rpc_port = "1";
  file = [];
}

parsed-generate_name_example :
    and_then
      (name_to_storage_name (generate_name (storage_manager introduced)))
      (λ text. parsed (storage_name_parse text))
    ≡ returns StorageName.fake_persistant
parsed-generate_name_example = parsed-generate_name introduced
