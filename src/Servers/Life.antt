-- ===== src/Servers/Life.antt =====
-- Start and Stop of a storage manager next to the master, and Stop of a scheduler.
use programmable_caching.Base.{
  ℕ, String, Bool, true, Option, none, some, ◌≡◌, ◌≢◌, ◌↔◌, ◌⊎◌, inl, inr, refl, ◌∙◌,
}
use programmable_caching.Base.Exec.{bind-step, returns, faults, undefined}
use programmable_caching.Storage.{StorageInterface}
use programmable_caching.Storage.Laws.{IsLawful}
use programmable_caching.Manager as ManagerService
use programmable_caching.Manager.{StorageManager, introduction}
use programmable_caching.Master.Service.{StorageMaster}
use programmable_caching.Master.Naming.{generate_name}
use programmable_caching.Master.Files.Tracks.{tracks}
use programmable_caching.System.{World, master_transport}
use programmable_caching.System.Starts.{start-tracks}
use programmable_caching.Servers.{Hosting, Hosted, hosted, listen, release}
use programmable_caching.Servers.Hosts.{IsHosting, shut-started}
use programmable_caching.Servers.Manager as Manager

-- The servers of a storage service stand apart from its master.
pub record IsApart {D : Type 0} (G : Hosting (World D)) (listens : ℕ → World D → Bool)
    : Type 0 where
  pub listens-master :
      (j : ℕ) (w : World D) (m : StorageMaster) → listens j (record w { master = m }) ≡ listens j w
  pub build_and_start-master :
      (address : String) (w : World D) → (G.build_and_start address w).1.master ≡ w.master
  pub shutdown-master : (h : ℕ) (w : World D) → (G.shutdown h w).master ≡ w.master
  pub destroy-master : (h : ℕ) (w : World D) → (G.destroy h w).master ≡ w.master

module _ {D : Type 0} (G : Hosting (World D)) (listens : ℕ → World D → Bool)
    (hosting : IsHosting G listens) (separate : IsApart G listens)
    (media : String → StorageInterface D) (contents : D → String → Option String)
    (I : StorageInterface D) (lawful : IsLawful I contents) (peer : String) where
  pub manager_start-records :
      (m : StorageManager D) (w : World D)
      → (v : World D) × (t : World D) × (server : Option ℕ) × (Manager.start G I
            (master_transport media peer)
            (hosted m)
            w
          ≡ (
            returns (record {
              part = record m { name = generate_name (introduction I m) };
              server = server;
            }),
            t,
          ))
        × (G.build_and_start (ManagerService.server_address m) v ≡ (server, t))
        × ((key : String)
            → (tracks t.master.file_view (generate_name (introduction I m)) key ≡ true)
              ↔ (contents m.storage key ≢ none))
        × ((j : ℕ) → listens j v ≡ listens j w)
  unfolding Manager.start listen release
  manager_start-records m w =
      let (v, started, own, others, kept) = start-tracks media contents I lawful peer m w in
      (
        v,
        (G.build_and_start (ManagerService.server_address m) v).1,
        (G.build_and_start (ManagerService.server_address m) v).0,
        bind-step (ManagerService.start I (master_transport media peer) m) (Manager.serve G none) w
            started,
        refl,
        λ key. rw (separate.build_and_start-master (ManagerService.server_address m) v) (own key),
        λ j. rw kept (separate.listens-master j w v.master),
      )

  -- Start of a constructed manager over a lawful medium and then Stop, next to a running master and
  -- on a host that keeps what gRPC documents: Start returns, and the master records under the
  -- generated name exactly the keys of the medium. If the server did not start, Start does not tell,
  -- and Stop is undefined. Otherwise the server listens, Stop returns, and afterwards the servers
  -- listen that did so before; the master is not told, and stays as it was.
  pub manager_start-stop :
      (m : StorageManager D) (w : World D)
      → (p : Hosted (StorageManager D)) × (t : World D) × (Manager.start G I
            (master_transport media peer)
            (hosted m)
            w
          ≡ (returns p, t))
        × (p.part ≡ record m { name = generate_name (introduction I m) })
        × ((key : String)
            → (tracks t.master.file_view (generate_name (introduction I m)) key ≡ true)
              ↔ (contents m.storage key ≢ none))
        × (((p.server ≡ none) × (Manager.stop G p t ≡ (faults undefined, t)))
            ⊎ ((h : ℕ) × (p.server ≡ some h)
                × (listens h t ≡ true)
                × (Manager.stop G p t ≡ (returns tt, G.shutdown h t))
                × ((j : ℕ) → listens j (G.shutdown h t) ≡ listens j w)
                × ((G.shutdown h t).master ≡ t.master)))
  unfolding Manager.stop
  manager_start-stop m w =
      let (v, t, server, started, built, own, same) = manager_start-records m w in
      (
        _,
        t,
        started,
        refl,
        own,
        elim (shut-started G listens hosting (ManagerService.server_address m) v server t built) [
          | inl (null, stuck) ↦ inl (null, stuck)
          | inr (h, held, on, done, off) ↦
              inr (h, held, on, done, λ j. off j ∙ same j, separate.shutdown-master h t)
        ],
      )
