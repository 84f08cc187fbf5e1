-- ===== src/Master.antt =====
-- storage_service/storage_master: the peers that have introduced themselves, the files of each
-- storage manager, and the handlers of MasterService.
pub mod Peers
pub mod Files
pub mod Naming
pub mod Service
pub mod Changes
pub mod Recorded
pub mod Known
pub mod Views
pub mod Rules
pub mod Runs
pub mod Atoms
pub mod Interleaving
mod Tests
mod RaceTests
