-- ===== src/Scheduler.antt =====
-- scheduler/scheduler: the scheduler's view of engines and files, the scheduling decisions, and
-- the handlers and the control loop of Scheduler.
pub mod Common
pub mod Uri
pub mod View
pub mod Jobs
pub mod Schedule
pub mod Service
pub mod Thread
pub mod Turns
pub mod Names
pub mod Decisions
pub mod Decided
pub mod Reach
pub mod Counts
pub mod Parsing
pub mod Orders
pub mod Engines
pub mod Reported
pub mod Replies
pub mod Surroundings
mod Tests
mod ViewTests
mod ReplyTests
mod OrderTests
mod TurnTests
