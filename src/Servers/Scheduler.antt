-- ===== src/Servers/Scheduler.antt =====
-- Start and Stop of scheduler/scheduler/scheduler.cc, with the control thread.
use programmable_caching.Base.{ℕ, Option, none, some}
use programmable_caching.Base.Exec.{Exec, pure, fail, system_error, terminated, ◌>>=◌, ◌>>◌}
use programmable_caching.Rpc.{MasterTransport, EngineTransport}
use programmable_caching.Scheduler.Jobs.{JobView}
use programmable_caching.Scheduler.Service as Service
use programmable_caching.Scheduler.Service.{server_address}
use programmable_caching.Scheduler.Thread.{Place, reading, join}
use programmable_caching.Servers.{Hosting, Hosted, hosted, release, listen, shut}

-- A scheduler with its server_ and its scheduler_thread_, which is not joinable at first.
pub record Scheduler (J : Type 0) : Type 0 where
  pub hosted : Hosted (Service.Scheduler J)
  pub thread : Option Place

abbrev pub unstarted : {J : Type 0} → Service.Scheduler J → Scheduler J
unstarted s = record { hosted = hosted s; thread = none }

module _ {J S : Type 0} (G : Hosting S) (jobs : JobView J) where
  -- scheduler_thread_ = std::thread(...), which terminates the program if a thread is held.
  abbrev begin_thread : Option Place → Exec S (Option Place)
  begin_thread none = pure (some reading)
  begin_thread (some place) = fail terminated

  unfoldable pub start : Scheduler J → Exec S (Scheduler J)
  unfolding listen Service.start
  start p = do
    server ← listen G (server_address p.hosted.part) p.hosted.server
    thread ← begin_thread p.thread
    pure (record {
      hosted = record { part = Service.start jobs p.hosted.part; server = server };
      thread = thread;
    })

  module _ (T : MasterTransport S) (E : EngineTransport S) where
    -- scheduler_thread_.join(), which throws std::system_error if no thread is held.
    abbrev join_thread : ℕ → Option Place → Service.Scheduler J → Exec S (Service.Scheduler J)
    join_thread fuel none s = fail system_error
    join_thread fuel (some place) s = join jobs T E fuel place s

    -- Stop; the thread ends within `fuel` turns, or the call does not return.
    unfoldable pub stop : ℕ → Scheduler J → Exec S (Scheduler J)
    unfolding Service.stop join shut
    stop fuel p = do
      s ← join_thread fuel p.thread (Service.stop jobs p.hosted.part)
      shut G p.hosted.server
      pure (record { hosted = record p.hosted { part = s }; thread = none })

module _ {J S : Type 0} (G : Hosting S) where
  -- The destructor: scheduler_thread_ goes before server_.
  unfoldable pub release_all : Scheduler J → Exec S (Unit {0})
  unfolding release
  release_all p = elim p.thread [
    | none ↦ λ s. pure tt (release G p.hosted.server s)
    | some place ↦ fail terminated
  ]
