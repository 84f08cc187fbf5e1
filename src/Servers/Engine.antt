-- ===== src/Servers/Engine.antt =====
-- Start and Stop of execution_engine/execution_engine/execution_engine.cc
use programmable_caching.Base.Exec.{Exec, pure, ◌>>=◌}
use programmable_caching.Engine.{ExecutionEngine, server_address}
use programmable_caching.Servers.{Hosting, Hosted, listen, shut}

module _ {S : Type 0} (G : Hosting S) where
  unfoldable pub start : Hosted ExecutionEngine → Exec S (Hosted ExecutionEngine)
  unfolding listen
  start p = do
    server ← listen G (server_address p.part) p.server
    pure (record p { server = server })

  unfoldable pub stop : Hosted ExecutionEngine → Exec S (Unit {0})
  unfolding shut
  stop p = shut G p.server
