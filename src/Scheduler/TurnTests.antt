-- ===== src/Scheduler/TurnTests.antt =====
-- Turns of the control thread of a scheduler that has no tasks.
use programmable_caching.Base.{[], ◌≡◌, refl, arith}
use programmable_caching.Base.Int.{pos}
use programmable_caching.Proto.Common.{Job}
use programmable_caching.Scheduler.Service.{
  Scheduler, init, control_round, schedule_pending, submit_job,
}
use programmable_caching.Scheduler.Thread.{rounding, ended, turn}
use programmable_caching.Scheduler.Turns.{Turns, here, handles, turns, submits, Turns-ends}
use programmable_caching.Scheduler.Surroundings.{no_task, master, engines}

abbrev stopped : Scheduler (Unit {0})
stopped = init tt "sched" "1" "master" "1" (pos 5)

abbrev job : Job
job = record { id = "j"; task = [] }

last-Turns : Turns no_task master engines rounding stopped 2 ended stopped
unfolding turn control_round schedule_pending submit_job
last-Turns = turns tt tt (handles (turns tt tt here refl) (submits job refl)) refl

Turns-ends_example : ended ≡ ended
Turns-ends_example =
    Turns-ends no_task master engines rounding stopped 2 ended stopped refl last-Turns (omega arith)
