-- ===== src/Servers/Tests.antt =====
-- Components on a host with room for one server.
use programmable_caching.Base.{ℕ, String, true, none, some, [], ◌∷◌, ◌≡◌, ◌≢◌, ◌↔◌, ◌⊎◌, arith}
use programmable_caching.Base.Dict.{Dict}
use programmable_caching.Base.Exec.{returns, faults, undefined}
use programmable_caching.Base.Int.{pos}
use programmable_caching.Storage.{StorageInterface}
use programmable_caching.Storage.Rocks.{rocksdb_storage_interface}
use programmable_caching.Storage.Laws.{
  IsLawful, rocks-IsLawful, memory_db, memory_contents, memory_db-IsSound,
}
use programmable_caching.Manager as ManagerService
use programmable_caching.Manager.{StorageManager, introduction}
use programmable_caching.Master.Files.Tracks.{tracks}
use programmable_caching.Master.Naming.{generate_name}
use programmable_caching.Master.Service as Master
use programmable_caching.System.{World, master_transport}
use programmable_caching.Scheduler.Service.{init}
use programmable_caching.Scheduler.Thread.{rounding}
use programmable_caching.Servers.{Hosting, Hosted, hosted}
use programmable_caching.Servers.Manager as Manager
use programmable_caching.Servers.Scheduler.{Scheduler, stop}
use programmable_caching.Servers.Life.{manager_start-stop}
use programmable_caching.Servers.Stops.{stop_at, stop-joins}
use programmable_caching.Servers.OneServer.{one_server}
use programmable_caching.Servers.OneServer.OfWorld.{
  host, host_listens, host-IsHosting, host-IsApart,
}
use programmable_caching.Scheduler.Surroundings.{no_task, master, engines}

abbrev rocks : StorageInterface (Dict String)
rocks = rocksdb_storage_interface memory_db

abbrev rocks-Lawful : IsLawful rocks memory_contents
rocks-Lawful = (rocks-IsLawful memory_db memory_contents memory_db-IsSound).0

abbrev media : String → StorageInterface (Dict String)
media uri = rocks

abbrev disk : StorageManager (Dict String)
disk = ManagerService.init "b" "1" "master" "1" (("in", "data") ∷ [])

abbrev system : World (Dict String)
system = record { master = Master.init "master" "1"; managers = []; clients = [] }

manager_start-stop_example :
    (p : Hosted (StorageManager (Dict String))) × (t : World (Dict String)) × (Manager.start host
        rocks
        (master_transport media "ipv4:1")
        (hosted disk)
        system
      ≡ (returns p, t))
    × (p.part ≡ record disk { name = generate_name (introduction rocks disk) })
    × ((key : String)
        → (tracks t.master.file_view (generate_name (introduction rocks disk)) key ≡ true)
          ↔ (memory_contents disk.storage key ≢ none))
    × (((p.server ≡ none) × (Manager.stop host p t ≡ (faults undefined, t)))
        ⊎ ((h : ℕ) × (p.server ≡ some h)
            × (host_listens h t ≡ true)
            × (Manager.stop host p t ≡ (returns tt, host.shutdown h t))
            × ((j : ℕ) → host_listens j (host.shutdown h t) ≡ host_listens j system)
            × ((host.shutdown h t).master ≡ t.master)))
manager_start-stop_example =
    manager_start-stop host host_listens host-IsHosting host-IsApart media memory_contents rocks
      rocks-Lawful "ipv4:1" disk system

-- A host on which a server stands for ever.
abbrev always : Hosting (Unit {0})
always = one_server (λ s. true) (λ b s. s)

abbrev running : Scheduler (Unit {0})
running = record {
  hosted = record {
    part = record (init tt "sched" "1" "master" "1" (pos 5)) { running = true };
    server = some 0;
  };
  thread = some rounding;
}

stop-joins_example :
    stop always no_task master engines 2 running tt
    ≡ stop_at no_task master engines always (some rounding) running tt
stop-joins_example = stop-joins no_task master engines always 2 running tt (omega arith)
