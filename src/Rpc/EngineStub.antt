-- ===== src/Rpc/EngineStub.antt =====
-- execution_engine/rpc_interfaces/execution_engine_interface.cc: the call of the stub.
use programmable_caching.Base.{false}
use programmable_caching.Base.Exec.{Exec}
use programmable_caching.Proto.Common.{Task}
use programmable_caching.Rpc.{Status, Stub, EngineTransport}

module _ {S : Type 0} (t : EngineTransport S) where
  unfoldable pub execute : Stub → Task → Exec S Status
  execute stub request = t.send_execute stub.target false request
