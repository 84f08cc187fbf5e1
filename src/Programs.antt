-- ===== src/Programs.antt =====
-- The programs: the main functions of the binaries, by the values of their flags. What main returns
-- is the exit status; its local objects are destroyed on the way out.
pub mod Exits
pub mod Defaults
pub mod Records
mod Tests
use programmable_caching.Base.{ℕ, String, Option, none, some}
use programmable_caching.Base.Exec.{Exec, pure, fail, undefined, ◌>>=◌, ◌>>◌}
use programmable_caching.Base.Int.{ℤ}
use programmable_caching.Rpc.{MasterTransport}
use programmable_caching.Storage.{StorageInterface}
use programmable_caching.Scheduler.Jobs.{JobView}
use programmable_caching.Scheduler.Service as SchedulerService
use programmable_caching.Master.Service as MasterService
use programmable_caching.Client.Service as ClientService
use programmable_caching.Manager as ManagerService
use programmable_caching.Engine as EngineService
use programmable_caching.Storage.Opening.{Disk, open_rocksdb, close_rocksdb}
use programmable_caching.Manager.{StorageManager}
use programmable_caching.Servers.{Hosting, Hosted, hosted, release}
use programmable_caching.Servers.Master as Master
use programmable_caching.Servers.Manager as Manager
use programmable_caching.Servers.Scheduler as Scheduler

module _ {S : Type 0} (G : Hosting S) where
  -- return 0, with the server_ of a local object.
  abbrev pub leave : Option ℕ → Exec S ℕ
  leave server s = pure 0 (release G server s)

  -- storage_master_binary.cc
  unfoldable pub storage_master : String → String → Exec S ℕ
  unfolding Master.start release
  storage_master master_hostname master_port = do
    p ← Master.start G (hosted (MasterService.init master_hostname master_port))
    leave p.server

  -- storage_client_binary.cc
  unfoldable pub storage_client : String → String → String → String → Exec S ℕ
  unfolding release
  storage_client manager_hostname manager_port master_hostname master_port =
      let p =
        hosted (ClientService.init manager_hostname manager_port master_hostname master_port) in
      leave p.server

  -- execution_engine_binary.cc
  unfoldable pub execution_engine : String → String → String → String → String → String → Exec S ℕ
  unfolding release
  execution_engine engine_hostname engine_port client_hostname client_port scheduler_hostname
        scheduler_port =
      let p = hosted (
        EngineService.init engine_hostname engine_port client_hostname client_port
          scheduler_hostname scheduler_port) in
      leave p.server

  -- basic_scheduler_binary.cc
  unfoldable pub basic_scheduler :
      {J : Type 0} → JobView J → J → String → String → String → String → ℤ → Exec S ℕ
  unfolding Scheduler.release_all
  basic_scheduler jobs j scheduler_hostname scheduler_port master_hostname master_port interval = do
    Scheduler.release_all G (
        Scheduler.unstarted (
          SchedulerService.init j scheduler_hostname scheduler_port master_hostname master_port
            interval))
    pure 0

  module _ {D : Type 0} (I : StorageInterface D) (disk : Disk S D) (T : MasterTransport S) where
    -- Start reads the keys of the database, by a pointer that is not valid where it did not open.
    unfoldable pub with_database :
        Option D → String → String → String → String → Exec S (Hosted (StorageManager D))
    unfolding Manager.start
    with_database none manager_hostname manager_port master_hostname master_port = fail undefined
    with_database (some d) manager_hostname manager_port master_hostname master_port =
        Manager.start G I T
          (hosted (ManagerService.init manager_hostname manager_port master_hostname master_port d))

    -- rocksdb_storage_manager_binary.cc. The members of the manager are destroyed in the reverse of
    -- their order: server_, then storage_interface_, which closes the database.
    unfoldable pub rocksdb_storage_manager : String → String → String → String → String → Exec S ℕ
    unfolding with_database open_rocksdb close_rocksdb release
    rocksdb_storage_manager db_path manager_hostname manager_port master_hostname master_port = do
      db_ ← open_rocksdb disk db_path
      p ← with_database db_ manager_hostname manager_port master_hostname master_port
      leave p.server
      close_rocksdb disk (some p.part.storage)
      pure 0
