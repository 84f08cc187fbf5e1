-- ===== src/Rpc/SchedulerStub.antt =====
-- scheduler/rpc_interfaces/scheduler_interface.cc: the calls of the stub.
use programmable_caching.Base.{false}
use programmable_caching.Base.Exec.{Exec}
use programmable_caching.Proto.Common.{Task, Job}
use programmable_caching.Proto.Sched.{SchedulerIntroduceRequest}
use programmable_caching.Rpc.{Status, Stub, SchedulerTransport}

module _ {S : Type 0} (t : SchedulerTransport S) where
  unfoldable pub submit_job : Stub → Job → Exec S Status
  submit_job stub request = t.send_submit_job stub.target false request

  unfoldable pub done : Stub → Task → Exec S Status
  done stub request = t.send_done stub.target false request

  unfoldable pub introduce : Stub → SchedulerIntroduceRequest → Exec S Status
  introduce stub request = t.send_introduce stub.target false request
