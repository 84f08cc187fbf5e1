-- ===== src/Proto.antt =====
-- The messages of proto/*.proto. A message field that is not set reads as its default value, so a
-- record holds every field; a oneof is a data type. Enumerations hold their declared values only.
pub mod Common
pub mod Storage
pub mod Sched
