-- ===== src/Rpc/MasterStub.antt =====
-- storage_service/rpc_interfaces/storage_master_interface.cc: the calls of the stub.
use programmable_caching.Base.{false}
use programmable_caching.Base.Exec.{Exec}
use programmable_caching.Proto.Storage.{
  IntroduceRequest, IntroduceReply, StorageChangeRequest, InstallRuleRequest, RemoveRuleRequest,
  GetViewReply,
}
use programmable_caching.Rpc.{Status, Stub, MasterTransport}

module _ {S : Type 0} (t : MasterTransport S) where
  unfoldable pub introduce : Stub → IntroduceRequest → Exec S (Status × IntroduceReply)
  introduce stub request = t.send_introduce stub.target false request

  unfoldable pub heartbeat : Stub → Exec S Status
  heartbeat stub = t.send_heartbeat stub.target false

  unfoldable pub storage_change : Stub → StorageChangeRequest → Exec S Status
  storage_change stub request = t.send_storage_change stub.target false request

  unfoldable pub install_rule : Stub → InstallRuleRequest → Exec S Status
  install_rule stub request = t.send_install_rule stub.target false request

  unfoldable pub remove_rule : Stub → RemoveRuleRequest → Exec S Status
  remove_rule stub request = t.send_remove_rule stub.target false request

  unfoldable pub get_view : Stub → Exec S (Status × GetViewReply)
  get_view stub = t.send_get_view stub.target false
