-- ===== src/Scheduler/Counts.antt =====
-- TasksScheduled: the count of running tasks at each engine.
use programmable_caching.Base.{
  ℕ, suc, ◌+◌, String, true, Option, none, some, List, [], ◌∷◌, ◌≡◌, ◌==◌, refl, ltb, if◌then◌else◌,
  arith, eq_iff,
}
use Prim.Native.Nat.{◌≤◌}
use programmable_caching.Base.Dict.{lookup, get_or, insert, lookup-insert}
use programmable_caching.Base.Exec.{returns}
use programmable_caching.Base.Int.{int_max}
use programmable_caching.Scheduler.Common.{Decision, EngineState, default_engine_state}
use programmable_caching.Scheduler.View.{SystemView, start_task, tasks_scheduled}

-- The tasks that run at an engine; none at one that is not known.
abbrev running_at : Option EngineState → ℕ
running_at none = 0
running_at (some s) = s.running_tasks

abbrev pub running : SystemView → String → ℕ
running v engine = running_at (lookup engine v.engine_to_state)

-- The decisions for an engine.
unfoldable pub decided_for : String → List Decision → ℕ
decided_for engine [] = 0
decided_for engine (d ∷ ds) =
    let rest = decided_for engine ds in if d.engine == engine then suc rest else rest

-- The view with one more task at the engine.
abbrev with_task : SystemView → String → SystemView
with_task v engine =
    let e : EngineState = get_or engine default_engine_state v.engine_to_state in
    record v {
      engine_to_state =
          insert engine (record e { running_tasks = suc e.running_tasks }) v.engine_to_state;
    }

get_or-running :
    (v : SystemView) (engine : String)
    → (get_or engine default_engine_state v.engine_to_state).running_tasks ≡ running v engine
unfolding get_or
get_or-running v engine = ground arith

running-with_task :
    (v : SystemView) (d engine : String)
    → running (with_task v d) engine
      ≡ (if d == engine then suc (running v engine) else running v engine)
running-with_task v d engine = ground (
  arith,
  lookup-insert engine d
      (record (get_or d default_engine_state v.engine_to_state) {
        running_tasks = suc (get_or d default_engine_state v.engine_to_state).running_tasks;
      })
      v.engine_to_state,
  get_or-running v d,
  eq_iff d engine,
)

start_task-with_task :
    (v : SystemView) (engine : String)
    → ltb (running v engine) int_max ≡ true
    → start_task v engine ≡ returns (with_task v engine)
unfolding start_task
start_task-with_task v engine room = rw (get_or-running v engine, room)

-- TasksScheduled succeeds if no engine gets more tasks than an int can count, and then adds to
-- the running tasks of each engine the number of decisions for it.
pub tasks_scheduled-running :
    (v : SystemView) (ds : List Decision)
    → ((engine : String) → running v engine + decided_for engine ds ≤ int_max)
    → (w : SystemView) × (tasks_scheduled v ds ≡ returns w)
      × ((engine : String) → running w engine ≡ running v engine + decided_for engine ds)
unfolding tasks_scheduled decided_for
tasks_scheduled-running v [] fits = (v, refl, λ engine. omega arith)
tasks_scheduled-running v (d ∷ ds) fits =
    let rest =
      tasks_scheduled-running (with_task v d.engine) ds
        (λ engine. ground (arith, fits engine, running-with_task v d.engine engine)) in
    (
      rest.0,
      rw (start_task-with_task v d.engine (ground (arith, fits d.engine, eq_iff d.engine d.engine)))
          rest.1,
      λ engine. ground (arith, rest.2 engine, running-with_task v d.engine engine),
    )
