-- ===== src/Programs/Tests.antt =====
-- The programs on a host with room for one server.
use programmable_caching.Base.{ℕ, String, none, some, [], ◌∷◌, ◌≡◌, ◌⊎◌, ◌==◌, if◌then◌else◌, refl}
use programmable_caching.Base.Dict.{Dict}
use programmable_caching.Base.Exec.{returns, faults, undefined}
use programmable_caching.Base.Int.{pos}
use programmable_caching.Storage.{StorageInterface}
use programmable_caching.Storage.Rocks.{rocksdb_storage_interface}
use programmable_caching.Storage.Opening.{Disk}
use programmable_caching.Storage.Laws.{
  IsLawful, rocks-IsLawful, memory_db, memory_contents, memory_db-IsSound,
}
use programmable_caching.Master.Service as Master
use programmable_caching.System.{World, master_transport}
use programmable_caching.Servers.OneServer.OfWorld.{
  host, host_listens, host-IsHosting, host-IsApart,
}
use programmable_caching.Programs.{
  storage_master, storage_client, execution_engine, basic_scheduler, rocksdb_storage_manager,
}
use programmable_caching.Programs.Records.{IsAway, RunsThrough, programs-exit}
use programmable_caching.Scheduler.Surroundings.{no_task}

abbrev rocks : StorageInterface (Dict String)
rocks = rocksdb_storage_interface memory_db

abbrev rocks-Lawful : IsLawful rocks memory_contents
rocks-Lawful = (rocks-IsLawful memory_db memory_contents memory_db-IsSound).0

abbrev media : String → StorageInterface (Dict String)
media uri = rocks

abbrev system : World (Dict String)
system = record { master = Master.init "master" "1"; managers = []; clients = [] }

abbrev files : Dict String
files = ("in", "data") ∷ []

-- A disk with one database.
abbrev disk : Disk (World (Dict String)) (Dict String)
disk = record {
  db_open = λ create db_path w. (if db_path == "/tmp/rocksdb" then some files else none, w);
  db_close = λ d w. w;
}

disk-IsAway : IsAway disk host_listens
disk-IsAway = record {
  listens-open = λ j create db_path w. refl;
  listens-close = λ j d w. refl;
  close-master = λ d w. refl;
}

programs-exit_example :
    (t : World (Dict String)) × (storage_master host "b" "1" system ≡ (returns 0, t))
    × ((h : ℕ) → host_listens h t ≡ host_listens h system)
    × (((d : Dict String) × (some files ≡ some d)
          × RunsThrough host host_listens host-IsHosting host-IsApart media memory_contents rocks
              rocks-Lawful "ipv4:1" disk disk-IsAway "/tmp/rocksdb" "b" "1" "master" "1" system d)
        ⊎ ((some files ≡ none)
            × (rocksdb_storage_manager host rocks disk
                  (master_transport media "ipv4:1")
                  "/tmp/rocksdb"
                  "b"
                  "1"
                  "master"
                  "1"
                  system
                ≡ (faults undefined, system))))
    × (storage_client host "b" "1" "master" "1" system ≡ (returns 0, system))
    × (execution_engine host "b" "1" "master" "1" "sched" "1" system ≡ (returns 0, system))
    × (basic_scheduler host no_task tt "b" "1" "master" "1" (pos 5) system ≡ (returns 0, system))
programs-exit_example =
    programs-exit host host_listens host-IsHosting host-IsApart media memory_contents rocks
      rocks-Lawful "ipv4:1" disk disk-IsAway no_task tt "/tmp/rocksdb" "b" "1" "master" "1" "sched"
      "1" (pos 5) system
