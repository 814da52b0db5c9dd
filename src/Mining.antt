-- ===== src/Mining.antt =====
-- src/mining: the memory guard, utility lists and their joins, and the mining algorithms.
pub mod MemoryGuard
pub mod TwoPhase
pub mod UlJoin
pub mod Eucs
pub mod Search
pub mod Core
pub mod Database
pub mod Algorithms
mod Tests
