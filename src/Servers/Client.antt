-- ===== src/Servers/Client.antt =====
-- Start and Stop of storage_service/storage_client/storage_client.cc
use programmable_caching.Base.Exec.{Exec, pure, ◌>>=◌, ◌>>◌}
use programmable_caching.Rpc.{MasterTransport}
use programmable_caching.Client.Service as Service
use programmable_caching.Client.Service.{StorageClient, server_address}
use programmable_caching.Servers.{Hosting, Hosted, listen, shut}

module _ {S : Type 0} (G : Hosting S) where
  -- The introduction to the master, then the server.
  unfoldable pub start : MasterTransport S → Hosted StorageClient → Exec S (Hosted StorageClient)
  unfolding Service.start listen
  start T p = do
    Service.start T p.part
    server ← listen G (server_address p.part) p.server
    pure (record p { server = server })

  unfoldable pub stop : Hosted StorageClient → Exec S (Unit {0})
  unfolding shut
  stop p = shut G p.server
