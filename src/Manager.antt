-- ===== src/Manager.antt =====
-- storage_service/storage_manager/storage_manager.cc: the handlers of StorageManager over a
-- storage medium of type `D`, which the StorageInterface `I` reads and writes.
use programmable_caching.Base.{String, Bool, false, List, [], ◌∷◌}
use programmable_caching.Base.Text.{◌⧺◌}
use programmable_caching.Base.Exec.{Exec, pure, assert, ◌>>=◌, ◌>>◌}
use programmable_caching.Proto.Storage.{
  FileId, IntroduceRequest, storage_manager, GetRequest, GetReply, PutRequest, RemoveRequest,
  CopyFromRequest,
}
use programmable_caching.Rpc.{Status, ok, is_ok, Stub, of_host_port, MasterTransport}
use programmable_caching.Rpc.MasterStub
use programmable_caching.Storage.{StorageInterface}

pub record StorageManager (D : Type 0) : Type 0 where
  pub master_interface : Stub
  pub name : String
  pub manager_hostname : String
  pub manager_port : String
  pub storage : D

-- The constructor.
abbrev pub init : {D : Type 0} → String → String → String → String → D → StorageManager D
init manager_hostname manager_port master_hostname master_port storage = record {
  master_interface = of_host_port master_hostname master_port;
  name = "";
  manager_hostname = manager_hostname;
  manager_port = manager_port;
  storage = storage;
}

abbrev pub server_address : {D : Type 0} → StorageManager D → String
server_address m = m.manager_hostname ⧺ ":" ⧺ m.manager_port

unfoldable pub file_ids : List String → List FileId
file_ids [] = []
file_ids (key ∷ keys) = record { key = key } ∷ file_ids keys

module _ {D : Type 0} (I : StorageInterface D) where
  -- The message that Start sends. The status of GetAllKeys is not read.
  unfoldable pub introduction : StorageManager D → IntroduceRequest
  unfolding file_ids
  introduction m = storage_manager (record {
    storage_type = I.storage_type;
    storage_name = I.storage_name;
    rpc_hostname = m.manager_hostname;
    rpc_port = m.manager_port;
    file = file_ids (I.get_all_keys m.storage []).1;
  })

  -- Start up to the moment where the server listens.
  unfoldable pub start :
      {S : Type 0} → MasterTransport S → StorageManager D → Exec S (StorageManager D)
  unfolding introduction MasterStub.introduce
  start T m = do
    r ← MasterStub.introduce T m.master_interface (introduction m)
    assert (is_ok r.0)
    pure (record m { name = r.1.name })

  -- An error of the medium is logged only.
  unfoldable pub get : StorageManager D → GetRequest → Status × GetReply
  get m request = (ok, record { value = (I.get m.storage request.key "").1 })

  unfoldable pub put : StorageManager D → PutRequest → Status × StorageManager D
  put m request = (ok, record m { storage = (I.put m.storage request.key request.value).1 })

  unfoldable pub remove : StorageManager D → RemoveRequest → Status × StorageManager D
  remove m request = (ok, record m { storage = (I.remove m.storage request.key).1 })

  -- The file is fetched from the manager at dst_uri, by a stub of StorageManagerService without
  -- wait_for_ready; the status of the call is not read.
  unfoldable pub copy_from :
      {S : Type 0}
      → (String → Bool → GetRequest → Exec S (Status × GetReply))
      → StorageManager D
      → CopyFromRequest
      → Exec S (Status × StorageManager D)
  copy_from send_get m request = do
    r ← send_get request.dst_uri false (record { key = request.key })
    pure (ok, record m { storage = (I.put m.storage request.key r.1.value).1 })
