-- ===== src/Servers/Manager.antt =====
-- Start and Stop of storage_service/storage_manager/storage_manager.cc
use programmable_caching.Base.{ℕ, Option}
use programmable_caching.Base.Exec.{Exec, pure, ◌>>=◌}
use programmable_caching.Rpc.{MasterTransport}
use programmable_caching.Storage.{StorageInterface}
use programmable_caching.Manager as Service
use programmable_caching.Manager.{StorageManager, server_address}
use programmable_caching.Servers.{Hosting, Hosted, listen, shut}

module _ {S D : Type 0} (G : Hosting S) where
  -- server_ = builder.BuildAndStart()
  abbrev pub serve : Option ℕ → StorageManager D → Exec S (Hosted (StorageManager D))
  unfolding listen
  serve held m = do
    server ← listen G (server_address m) held
    pure (record { part = m; server = server })

  -- The introduction to the master, then the server.
  unfoldable pub start :
      StorageInterface D
      → MasterTransport S
      → Hosted (StorageManager D)
      → Exec S (Hosted (StorageManager D))
  unfolding Service.start
  start I T p = do m ← Service.start I T p.part; serve p.server m

  unfoldable pub stop : Hosted (StorageManager D) → Exec S (Unit {0})
  unfolding shut
  stop p = shut G p.server
