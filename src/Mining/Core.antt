-- ===== src/Mining/Core.antt =====
-- mining/core: the context's budgets, and the writer of results.
pub mod Context
pub mod ResultWriter
