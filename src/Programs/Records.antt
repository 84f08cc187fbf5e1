-- ===== src/Programs/Records.antt =====
-- What the programs leave behind next to a storage service.
use programmable_caching.Base.{
  ℕ, String, Bool, true, Option, none, some, inl, inr, ◌⊎◌, Option-cases, ◌≡◌, ◌≢◌, ◌↔◌, ◌∙◌, refl,
}
use programmable_caching.Base.Exec.{bind-step, returns, faults, undefined}
use programmable_caching.Storage.{StorageInterface}
use programmable_caching.Storage.Opening.{Disk, open_rocksdb, close_rocksdb}
use programmable_caching.Storage.Laws.{IsLawful}
use programmable_caching.Manager as ManagerService
use programmable_caching.Manager.{StorageManager, introduction}
use programmable_caching.Master.Naming.{generate_name}
use programmable_caching.Master.Files.Tracks.{tracks}
use programmable_caching.System.{World, master_transport}
use programmable_caching.Servers.{Hosting, hosted, release}
use programmable_caching.Servers.Hosts.{IsHosting, release-started}
use programmable_caching.Servers.Manager as Manager
use programmable_caching.Servers.Life.{IsApart, manager_start-records}
use programmable_caching.Base.Int.{ℤ}
use programmable_caching.Scheduler.Jobs.{JobView}
use programmable_caching.Programs.{
  storage_master, storage_client, execution_engine, basic_scheduler, with_database,
  rocksdb_storage_manager,
}
use programmable_caching.Programs.Exits.{exits}

-- The disk is apart from the servers of the host, and from the process of the master.
pub record IsAway {D : Type 0} (disk : Disk (World D) D) (listens : ℕ → World D → Bool)
    : Type 0 where
  pub listens-open :
      (j : ℕ) (create : Bool) (db_path : String) (w : World D)
      → listens j (disk.db_open create db_path w).1 ≡ listens j w
  pub listens-close : (j : ℕ) (d : D) (w : World D) → listens j (disk.db_close d w) ≡ listens j w
  pub close-master : (d : D) (w : World D) → (disk.db_close d w).master ≡ w.master

module _ {D : Type 0} (G : Hosting (World D)) (listens : ℕ → World D → Bool)
    (hosting : IsHosting G listens) (separate : IsApart G listens)
    (media : String → StorageInterface D) (contents : D → String → Option String)
    (I : StorageInterface D) (lawful : IsLawful I contents) (peer : String) where
  release-master : (server : Option ℕ) (w : World D) → (release G server w).master ≡ w.master
  unfolding release
  release-master none w = refl
  release-master (some h) w = separate.destroy-master h w

  -- The database is on the disk.
  module _ (disk : Disk (World D) D) (away : IsAway disk listens) where
    -- What the program does when its database has opened.
    abbrev pub RunsThrough :
        (db_path hostname port master_hostname master_port : String) → World D → D → Type 0
    RunsThrough db_path hostname port master_hostname master_port w d =
        (v : World D) × (rocksdb_storage_manager G I disk (master_transport media peer) db_path
            hostname port master_hostname master_port w
          ≡ (returns 0, v))
        × ((j : ℕ) → listens j v ≡ listens j w)
        × ((key : String)
            → (tracks v.master.file_view
                  (generate_name (
                    introduction I
                      (ManagerService.init hostname port master_hostname master_port d)))
                  key
                ≡ true)
              ↔ (contents d key ≢ none))

    rocksdb_storage_manager-records :
        (db_path hostname port master_hostname master_port : String) (w : World D) (d : D)
        → (disk.db_open true db_path w).0 ≡ some d
        → RunsThrough db_path hostname port master_hostname master_port w d
    unfolding rocksdb_storage_manager with_database open_rocksdb close_rocksdb
    rocksdb_storage_manager-records db_path hostname port master_hostname master_port w d opened =
        let m = ManagerService.init hostname port master_hostname master_port d in
        let u : World D = (disk.db_open true db_path w).1 in
        let (v, t, server, started, built, own, same) =
          manager_start-records G listens hosting separate media contents I lawful peer m u in
        (
          disk.db_close d (release G server t),
          rw opened
              (bind-step (Manager.start G I (master_transport media peer) (hosted m)) _ u started),
          λ j.
              away.listens-close j d (release G server t)
              ∙ release-started G listens hosting (ManagerService.server_address m) v server t built
                  j
              ∙ same j
              ∙ away.listens-open j true db_path w,
          λ key. rw (away.close-master d (release G server t), release-master server t) (own key),
        )

    rocksdb_storage_manager-unopened :
        (db_path hostname port master_hostname master_port : String) (w : World D)
        → (disk.db_open true db_path w).0 ≡ none
        → rocksdb_storage_manager G I disk
            (master_transport media peer)
            db_path
            hostname
            port
            master_hostname
            master_port
            w
          ≡ (faults undefined, (disk.db_open true db_path w).1)
    unfolding rocksdb_storage_manager with_database open_rocksdb
    rocksdb_storage_manager-unopened db_path hostname port master_hostname master_port w e = rw e

    -- The five programs, next to a running master, on a host that keeps what gRPC documents and with
    -- a disk apart from the servers and the master, do for all values of their flags as follows. That
    -- of the storage manager has undefined behaviour if its database does not open. Otherwise, where
    -- the database is a lawful medium, all five exit at once with status 0. When the programs of the
    -- storage master and of the storage manager exit, the servers listen that did so before, but the
    -- master that runs records the keys of the database under the name that it generates for the
    -- manager; the other three change nothing.
    pub programs-exit :
        {J : Type 0} (jobs : JobView J) (j : J)
        (db_path hostname port other_hostname other_port last_hostname last_port : String)
        (interval : ℤ) (w : World D)
        → (t : World D) × (storage_master G hostname port w ≡ (returns 0, t))
          × ((h : ℕ) → listens h t ≡ listens h w)
          × (((d : D) × ((disk.db_open true db_path w).0 ≡ some d)
                × RunsThrough db_path hostname port other_hostname other_port w d)
              ⊎ (((disk.db_open true db_path w).0 ≡ none)
                  × (rocksdb_storage_manager G I disk
                        (master_transport media peer)
                        db_path
                        hostname
                        port
                        other_hostname
                        other_port
                        w
                      ≡ (faults undefined, (disk.db_open true db_path w).1))))
          × (storage_client G hostname port other_hostname other_port w ≡ (returns 0, w))
          × (execution_engine G hostname port other_hostname other_port last_hostname last_port w
              ≡ (returns 0, w))
          × (basic_scheduler G jobs j hostname port other_hostname other_port interval w
              ≡ (returns 0, w))
    programs-exit jobs j db_path hostname port other_hostname other_port last_hostname last_port
          interval w =
        let (t, master, same, client, engine, scheduler) =
          exits G listens hosting jobs j hostname port other_hostname other_port last_hostname
            last_port interval w in
        (
          t,
          master,
          same,
          elim (Option-cases (disk.db_open true db_path w).0) [
            | inl e ↦ inr (
              e,
              rocksdb_storage_manager-unopened db_path hostname port other_hostname other_port w e,
            )
            | inr (d, e) ↦ inl (
              d,
              e,
              rocksdb_storage_manager-records db_path hostname port other_hostname other_port w d e,
            )
          ],
          client,
          engine,
          scheduler,
        )
