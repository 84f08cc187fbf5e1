-- ===== src/Servers/Master.antt =====
-- Start and Stop of storage_service/storage_master/storage_master.cc
use programmable_caching.Base.Exec.{Exec, pure, ◌>>=◌}
use programmable_caching.Master.Service.{StorageMaster, server_address}
use programmable_caching.Servers.{Hosting, Hosted, listen, shut}

module _ {S : Type 0} (G : Hosting S) where
  unfoldable pub start : Hosted StorageMaster → Exec S (Hosted StorageMaster)
  unfolding listen
  start p = do
    server ← listen G (server_address p.part) p.server
    pure (record p { server = server })

  unfoldable pub stop : Hosted StorageMaster → Exec S (Unit {0})
  unfolding shut
  stop p = shut G p.server
