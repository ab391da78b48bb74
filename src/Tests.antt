-- ===== src/Tests.antt =====
-- Concrete runs, and the theorems at concrete inputs.
pub mod Sorting
pub mod Sample
pub mod InsertionSort
pub mod SqlServerSample
mod SqlServerEngine
mod Daemon
mod Received
pub mod System
mod Windows
mod Retry
mod Cache
mod Engine
mod Settings
mod WebSocket
mod Server
mod Source
