-- ===== src/Mining/Core/Context.antt =====
-- mining/core/context.rs: how the context divides and lowers the budget of the pool. Its execute_tasks
-- stands with the search.
use Prim.Native.Nat.{min, max}
use pocket_data_mining.Base.{ℕ, ◌*◌, ◌-◌, ◌/◌, ◌^◌, ◌==◌, if◌then◌else◌}
use pocket_data_mining.Base.Words.{saturating_sub}
use pocket_data_mining.Storage.ChunkStore.{ChunkStore}
use pocket_data_mining.BufferPool.Policy.{EvictionPolicy}
use pocket_data_mining.BufferPool.Pool.{BufferPool, set_budget}

-- The field `chunk_bytes` of a new context.
abbrev pub chunk_bytes : ℕ → ℕ
chunk_bytes budget_bytes = budget_bytes / 4

unfoldable pub items_per_chunk : ℕ → ℕ → ℕ
items_per_chunk chunk_bytes avg_ul_bytes =
    if avg_ul_bytes == 0 then 2 ^ 64 - 1 else max (chunk_bytes / avg_ul_bytes) 1

-- `available` is what the operating system says is free.
module _ {P : Type 0} (zero_prob : P) (E : EvictionPolicy P) (C : ChunkStore) where
  unfoldable pub apply_os_safety_net : ℕ → BufferPool zero_prob E C → BufferPool zero_prob E C
  apply_os_safety_net available p =
      set_budget zero_prob E C (min p.budget_bytes (saturating_sub available (500 * 1024 * 1024))) p
