-- ===== src/Proto/Sched.antt =====
-- proto/scheduler.proto
use programmable_caching.Base.{String}
use programmable_caching.Base.Int.{ℤ}

pub record SchedulerIntroduceRequest : Type 0 where
  pub rpc_uri : String
  pub client_rpc_uri : String
  pub maximum_tasks : ℤ
