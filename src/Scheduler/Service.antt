-- ===== src/Scheduler/Service.antt =====
-- Scheduler of scheduler.cc, without the sleep between two rounds: its handlers, Execute, and one
-- round of SchedulerControlThread. `T` reaches the storage master, `E` the execution engines; the
-- job view is `jobs`, over a state `J`.
use programmable_caching.Base.{String, Bool, true, false, List, [], ◌∷◌}
use programmable_caching.Base.Text.{◌⧺◌}
use programmable_caching.Base.Exec.{
  Outcome, Exec, pure, lift, and_then, returns, for_each, ◌>>=◌, ◌>>◌,
}
use programmable_caching.Base.Int.{ℤ}
use programmable_caching.Proto.Common.{Task, Job, Rule, StorageName}
use programmable_caching.Proto.Sched.{SchedulerIntroduceRequest}
use programmable_caching.Rpc.{
  Status, ok, Stub, of_uri, of_host_port, MasterTransport, EngineTransport,
}
use programmable_caching.Rpc.MasterStub
use programmable_caching.Rpc.EngineStub
use programmable_caching.Scheduler.Common.{Decision}
use programmable_caching.Scheduler.Jobs.{JobView}
use programmable_caching.Scheduler.View
use programmable_caching.Scheduler.View.{SystemView}
use programmable_caching.Scheduler.Schedule.{schedule}

pub record Scheduler (J : Type 0) : Type 0 where
  pub system_view : SystemView
  pub job_state : J
  pub storage_interface : Stub
  pub scheduler_hostname : String
  pub scheduler_port : String
  pub running : Bool
  pub scheduler_interval_seconds : ℤ

-- The constructor.
abbrev pub init : {J : Type 0} → J → String → String → String → String → ℤ → Scheduler J
init j scheduler_hostname scheduler_port storage_hostname storage_port interval = record {
  system_view = View.init StorageName.ephemeral StorageName.fake_persistant;
  job_state = j;
  storage_interface = of_host_port storage_hostname storage_port;
  scheduler_hostname = scheduler_hostname;
  scheduler_port = scheduler_port;
  running = false;
  scheduler_interval_seconds = interval;
}

abbrev pub server_address : {J : Type 0} → Scheduler J → String
server_address s = s.scheduler_hostname ⧺ ":" ⧺ s.scheduler_port

module _ {J : Type 0} (jobs : JobView J) where
  -- Start and Stop, as far as the control thread sees them.
  unfoldable pub start : Scheduler J → Scheduler J
  start s = record s { running = true }

  unfoldable pub stop : Scheduler J → Scheduler J
  stop s = record s { running = false }

  unfoldable pub submit_job : Scheduler J → Job → Status × Scheduler J
  submit_job s request = (ok, record s { job_state = jobs.add_job s.job_state request })

  unfoldable pub done : Scheduler J → Task → Status × Scheduler J
  done s request = (ok, record s { job_state = jobs.remove_task s.job_state request })

  unfoldable pub introduce :
      Scheduler J → SchedulerIntroduceRequest → Outcome (Status × Scheduler J)
  introduce s request =
      and_then
        (View.add_execution_engine s.system_view request.rpc_uri request.client_rpc_uri
          request.maximum_tasks)
        λ v. returns (ok, record s { system_view = v })

  module _ {S : Type 0} (T : MasterTransport S) (E : EngineTransport S) where
    -- InstallRule for one rule of a decision; its status is not read.
    unfoldable pub send_rule : Scheduler J → String → Rule → Exec S (Unit {0})
    unfolding MasterStub.install_rule
    send_rule s client rule = do
      MasterStub.install_rule T s.storage_interface (record { client = client; rule = rule })
      pure tt

    unfoldable pub execute_decision : Scheduler J → Decision → Exec S (Unit {0})
    unfolding EngineStub.execute
    execute_decision s decision = do
      state ← lift (View.get_engine_state s.system_view decision.engine)
      for_each (send_rule s state.client_name) decision.rules
      EngineStub.execute E (of_uri decision.engine) decision.task
      pure tt

    unfoldable pub execute : Scheduler J → List Decision → Exec S (Unit {0})
    unfolding for_each
    execute s decisions = for_each (execute_decision s) decisions

    -- What a round does with the pending tasks that it read.
    unfoldable pub schedule_pending : Scheduler J → List String → Exec S (Scheduler J)
    schedule_pending s [] = pure s
    schedule_pending s (task ∷ tasks) = do
      decisions ← lift (schedule jobs s.job_state s.system_view (task ∷ tasks))
      let j : J = jobs.tasks_scheduled s.job_state decisions
      v ← lift (View.tasks_scheduled s.system_view decisions)
      let s' : Scheduler J = record s { job_state = j; system_view = v }
      execute s' decisions
      pure s'

    -- One round of the loop, behind the sleep. The reply to GetView is not used.
    unfoldable pub control_round : Scheduler J → Exec S (Scheduler J)
    unfolding schedule_pending MasterStub.get_view
    control_round s = do
      MasterStub.get_view T s.storage_interface
      schedule_pending s (jobs.get_pending_tasks s.job_state [])
