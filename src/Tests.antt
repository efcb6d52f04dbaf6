-- ===== src/Tests.antt =====
-- Runs of the model at concrete services, and the theorems at concrete inputs.
pub mod Tables
pub mod Toy
pub mod Runs
pub mod Platform
pub mod Api
pub mod Witnesses
pub mod Loops
pub mod Cache
pub mod Concurrency
pub mod Service
pub mod Startup
pub mod Worker
pub mod Paid
pub mod Balances
