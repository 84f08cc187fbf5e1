-- ===== src/Client.antt =====
-- storage_service/storage_client: the rules of a client, and how Get and Put run their actions.
pub mod RuleDb
pub mod Service
pub mod Faults
pub mod Answers
pub mod Typing
pub mod Races
mod Tests
