-- ===== src/Net.antt =====
-- The package in net/.
pub mod Actor
pub mod Streaming
pub mod Auth
pub mod Http1
pub mod Session
pub mod Gateway
pub mod Transport
pub mod Factory
mod Samples
mod Tests
