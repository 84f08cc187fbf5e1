-- ===== src/Scheduler/Thread.antt =====
-- SchedulerControlThread of scheduler.cc, turn by turn. A turn reads running_ under the mutex, or
-- is one round of the loop.
use programmable_caching.Base.{ℕ, zero, suc, Bool, true, false}
use programmable_caching.Base.Exec.{Exec, pure, fail, blocked, ◌>>=◌}
use programmable_caching.Rpc.{MasterTransport, EngineTransport}
use programmable_caching.Scheduler.Jobs.{JobView}
use programmable_caching.Scheduler.Service.{Scheduler, control_round}

-- Where the thread is: before a read of running_, before a round, or at its end.
pub data Place : Type 0 where
  reading rounding ended : Place

module _ {J S : Type 0} (jobs : JobView J) (T : MasterTransport S) (E : EngineTransport S) where
  -- while (running) { ... }
  abbrev go_on : Bool → Place
  go_on true = rounding
  go_on false = ended

  unfoldable pub turn : Place → Scheduler J → Exec S (Place × Scheduler J)
  unfolding control_round
  turn reading s = pure (go_on s.running, s)
  turn rounding s = do s' ← control_round jobs T E s; pure (reading, s')
  turn ended s = pure (ended, s)

  -- scheduler_thread_.join() for at most `fuel` turns of the thread, with no handler at work.
  unfoldable pub join : ℕ → Place → Scheduler J → Exec S (Scheduler J)
  unfolding turn
  join fuel ended s = pure s
  join zero place s = fail blocked
  join (suc fuel) place s = do (place', s') ← turn place s; join fuel place' s'
