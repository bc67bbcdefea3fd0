-- ===== src/Samples.antt =====
-- Concrete inputs: an engine that keeps its rows in lists, and the theorems at runs on it.
pub mod Memory
pub mod Runs
pub mod Requests
pub mod Services
pub mod Guards
pub mod Vifs
pub mod Live
pub mod Policies
pub mod Api
pub mod Reconnecting
