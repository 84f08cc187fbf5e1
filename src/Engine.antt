-- ===== src/Engine.antt =====
-- execution_engine/execution_engine/execution_engine.cc
use programmable_caching.Base.{String}
use programmable_caching.Base.Text.{◌⧺◌}
use programmable_caching.Proto.Common.{Task}
use programmable_caching.Rpc.{Status, ok, Stub, of_host_port}

pub record ExecutionEngine : Type 0 where
  pub execution_engine_hostname : String
  pub execution_engine_port : String
  pub scheduler_interface : Stub
  pub storage_client_interface : Stub

-- The constructor.
abbrev pub init : String → String → String → String → String → String → ExecutionEngine
init engine_hostname engine_port client_hostname client_port scheduler_hostname scheduler_port =
    record {
      execution_engine_hostname = engine_hostname;
      execution_engine_port = engine_port;
      scheduler_interface = of_host_port scheduler_hostname scheduler_port;
      storage_client_interface = of_host_port client_hostname client_port;
    }

abbrev pub server_address : ExecutionEngine → String
server_address e = e.execution_engine_hostname ⧺ ":" ⧺ e.execution_engine_port

-- Execute does nothing with the task.
unfoldable pub execute : ExecutionEngine → Task → Status × ExecutionEngine
execute e request = (ok, e)
