-- ===== src/Rpc/ManagerStub.antt =====
-- storage_service/rpc_interfaces/storage_manager_interface.cc: the calls of the stub.
use programmable_caching.Base.{true}
use programmable_caching.Base.Exec.{Exec}
use programmable_caching.Proto.Storage.{
  PutRequest, GetRequest, GetReply, RemoveRequest, CopyFromRequest,
}
use programmable_caching.Rpc.{Status, Stub, ManagerTransport}

module _ {S : Type 0} (t : ManagerTransport S) where
  unfoldable pub put : Stub → PutRequest → Exec S Status
  put stub request = t.send_put stub.target true request

  unfoldable pub get : Stub → GetRequest → Exec S (Status × GetReply)
  get stub request = t.send_get stub.target true request

  unfoldable pub remove : Stub → RemoveRequest → Exec S Status
  remove stub request = t.send_remove stub.target true request

  unfoldable pub copy_from : Stub → CopyFromRequest → Exec S Status
  copy_from stub request = t.send_copy_from stub.target true request
