-- ===== src/Rpc.antt =====
-- The remote calls: */rpc_interfaces/*. gRPC itself is a parameter, one record of operations for
-- each service: an operation sends a request to the server at an address, over a state `S` of the
-- processes that can be reached, and gives the status and the reply that the caller then reads.
-- Its Boolean argument is the option wait_for_ready of the client context.
pub mod ManagerStub
pub mod MasterStub
pub mod ClientStub
pub mod EngineStub
pub mod SchedulerStub
use programmable_caching.Base.{String, Bool}
use programmable_caching.Base.Text.{◌⧺◌}
use programmable_caching.Base.Exec.{Exec}
use programmable_caching.Proto.Common.{Task, Job}
use programmable_caching.Proto.Sched.{SchedulerIntroduceRequest}
use programmable_caching.Proto.Storage.{
  IntroduceRequest, IntroduceReply, StorageChangeRequest, InstallRuleRequest, RemoveRuleRequest,
  GetViewReply, PutRequest, GetRequest, GetReply, RemoveRequest, CopyFromRequest,
}

-- grpc::Status, read only by ok().
pub data Status : Type 0 where
  ok failed : Status

abbrev pub is_ok : Status → Bool
is_ok ok = Bool.true
is_ok failed = Bool.false

-- What a stub holds: the address of its channel.
pub record Stub : Type 0 where
  pub target : String

abbrev pub of_uri : String → Stub
of_uri uri = record { target = uri }

abbrev pub of_host_port : String → String → Stub
of_host_port hostname port = record { target = hostname ⧺ ":" ⧺ port }

-- StorageManagerService
pub record ManagerTransport (S : Type 0) : Type 0 where
  pub send_put : String → Bool → PutRequest → Exec S Status
  pub send_get : String → Bool → GetRequest → Exec S (Status × GetReply)
  pub send_remove : String → Bool → RemoveRequest → Exec S Status
  pub send_copy_from : String → Bool → CopyFromRequest → Exec S Status

-- MasterService
pub record MasterTransport (S : Type 0) : Type 0 where
  pub send_introduce : String → Bool → IntroduceRequest → Exec S (Status × IntroduceReply)
  pub send_heartbeat : String → Bool → Exec S Status
  pub send_storage_change : String → Bool → StorageChangeRequest → Exec S Status
  pub send_install_rule : String → Bool → InstallRuleRequest → Exec S Status
  pub send_remove_rule : String → Bool → RemoveRuleRequest → Exec S Status
  pub send_get_view : String → Bool → Exec S (Status × GetViewReply)

-- StorageClientService, the calls of programs that read and write files
pub record ClientTransport (S : Type 0) : Type 0 where
  pub send_put : String → Bool → PutRequest → Exec S Status
  pub send_get : String → Bool → GetRequest → Exec S (Status × GetReply)
  pub send_remove : String → Bool → RemoveRequest → Exec S Status

-- StorageClientService, the calls of the storage master
pub record RuleTransport (S : Type 0) : Type 0 where
  pub send_install_rule : String → Bool → InstallRuleRequest → Exec S Status
  pub send_remove_rule : String → Bool → RemoveRuleRequest → Exec S Status

-- ExecutionEngineService
pub record EngineTransport (S : Type 0) : Type 0 where
  pub send_execute : String → Bool → Task → Exec S Status

-- SchedulerService
pub record SchedulerTransport (S : Type 0) : Type 0 where
  pub send_submit_job : String → Bool → Job → Exec S Status
  pub send_done : String → Bool → Task → Exec S Status
  pub send_introduce : String → Bool → SchedulerIntroduceRequest → Exec S Status
