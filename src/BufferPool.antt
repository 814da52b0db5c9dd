-- ===== src/BufferPool.antt =====
-- src/buffer_pool: pages kept in memory within a budget, over a chunk store.
pub mod Metrics
pub mod Policy
pub mod Pool
pub mod Fixtures
mod Tests
