-- ===== src/Tests.antt =====
-- The properties at concrete inputs.
pub mod Codec
pub mod Store
pub mod Routing
pub mod Reading
pub mod Launching
pub mod Rollouts
pub mod Sessions
pub mod Policies
pub mod Invocations
