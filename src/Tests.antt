-- ===== src/Tests.antt =====
-- Sample events, runs on them, and the theorems at concrete inputs.
pub mod Events
pub mod Actions
pub mod Identities
pub mod Worlds
mod Workspaces
mod Runtimes
mod Memories
mod Lifecycles
mod Admissions
mod Bridges
mod Stores
mod Streams
