-- ===== src/Pages.antt =====
-- src/session_turn_pages.rs and src/session_turn_pages/observation.rs: pages of a session's turns.
pub mod Types
pub mod Directory
pub mod Pack
pub mod Store
pub mod Observation
pub mod Params
pub mod Project
pub mod Storage
pub mod Scan
pub mod Read
