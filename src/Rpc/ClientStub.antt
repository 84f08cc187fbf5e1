-- ===== src/Rpc/ClientStub.antt =====
-- storage_service/rpc_interfaces/storage_client_interface.cc: the calls of the stub.
use programmable_caching.Base.{false}
use programmable_caching.Base.Exec.{Exec}
use programmable_caching.Proto.Storage.{
  PutRequest, GetRequest, GetReply, RemoveRequest, InstallRuleRequest, RemoveRuleRequest,
}
use programmable_caching.Rpc.{Status, Stub, ClientTransport, RuleTransport}

module _ {S : Type 0} (t : ClientTransport S) where
  unfoldable pub put : Stub → PutRequest → Exec S Status
  put stub request = t.send_put stub.target false request

  unfoldable pub get : Stub → GetRequest → Exec S (Status × GetReply)
  get stub request = t.send_get stub.target false request

  unfoldable pub remove : Stub → RemoveRequest → Exec S Status
  remove stub request = t.send_remove stub.target false request

module _ {S : Type 0} (t : RuleTransport S) where
  unfoldable pub install_rule : Stub → InstallRuleRequest → Exec S Status
  install_rule stub request = t.send_install_rule stub.target false request

  unfoldable pub remove_rule : Stub → RemoveRuleRequest → Exec S Status
  remove_rule stub request = t.send_remove_rule stub.target false request
