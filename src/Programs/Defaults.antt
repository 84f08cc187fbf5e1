-- ===== src/Programs/Defaults.antt =====
-- The programs with no flags on the command line: the defaults of the DEFINE lines.
use programmable_caching.Base.{ℕ}
use programmable_caching.Base.Exec.{Exec}
use programmable_caching.Base.Int.{pos}
use programmable_caching.Rpc.{MasterTransport}
use programmable_caching.Storage.{StorageInterface}
use programmable_caching.Storage.Opening.{Disk}
use programmable_caching.Scheduler.Jobs.{JobView}
use programmable_caching.Servers.{Hosting}
use programmable_caching.Programs.{
  storage_master, storage_client, execution_engine, basic_scheduler, rocksdb_storage_manager,
}

module _ {S : Type 0} (G : Hosting S) where
  abbrev storage_master_by_default : Exec S ℕ
  storage_master_by_default = storage_master G "localhost" "50051"

  abbrev storage_client_by_default : Exec S ℕ
  storage_client_by_default = storage_client G "localhost" "50052" "localhost" "50051"

  abbrev execution_engine_by_default : Exec S ℕ
  execution_engine_by_default =
      execution_engine G "localhost" "50051" "localhost" "50052" "localhost" "50052"

  abbrev basic_scheduler_by_default : {J : Type 0} → JobView J → J → Exec S ℕ
  basic_scheduler_by_default jobs j =
      basic_scheduler G jobs j "localhost" "50051" "localhost" "50052" (pos 5)

  abbrev rocksdb_storage_manager_by_default :
      {D : Type 0} → StorageInterface D → Disk S D → MasterTransport S → Exec S ℕ
  rocksdb_storage_manager_by_default I disk T =
      rocksdb_storage_manager G I disk T "/tmp/rocksdb" "localhost" "50053" "localhost" "50051"
