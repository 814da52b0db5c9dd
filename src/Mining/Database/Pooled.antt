-- ===== src/Mining/Database/Pooled.antt =====
-- Whole runs of HUI-Miner and FHM with the bodies of their lists in the program's own buffer pool.
use pocket_data_mining.Base.{ℕ, ◌+◌, ◌*◌, ◌≤◌, ◌<◌, ◌^◌, ◌≡◌, List, [], ◌++◌, length}
use pocket_data_mining.Base.Io.{ok}
use pocket_data_mining.Types.{RawTransaction}
use pocket_data_mining.Storage.ChunkStore.{ChunkStore, StoreLaws, PageIdLaws}
use pocket_data_mining.BufferPool.Policy.{EvictionPolicy, PolicyLaws}
use pocket_data_mining.BufferPool.Pool.{BufferPool}
use pocket_data_mining.Mining.Core.Context.{apply_os_safety_net}
use pocket_data_mining.Mining.MemoryGuard.{MemoryGuard}
use pocket_data_mining.Mining.Search.{Bodies}
use pocket_data_mining.Mining.Search.Lawful.{Ends}
use pocket_data_mining.Mining.Search.Reference.{Found, joins}
use pocket_data_mining.Mining.Algorithms.Parts.{Outputs, no_cuts, pool_bodies}
use pocket_data_mining.Mining.Algorithms.PoolBodies.{HasRoom}
use pocket_data_mining.Mining.Algorithms.PoolBodies.Lawful.{
  pool_bodies-laws, apply_os_safety_net-HasRoom,
}
use pocket_data_mining.Mining.Algorithms.Exact.{Run, plain_lists, hui_miner_run, fhm_run}
use pocket_data_mining.Mining.Algorithms.Results.{OutputsLaws, nodes_of, fhm_lists, fhm_cuts}
use pocket_data_mining.Mining.Database.{as_read, IsDatabase}
use pocket_data_mining.Mining.Database.Cooccurrence.{pairs_of}
use pocket_data_mining.Mining.Database.Start.{kept_by}
use pocket_data_mining.Mining.Database.Exactly.{IsExactly}
use pocket_data_mining.Mining.Database.Mined.{hui_miner_run_found, fhm_run_found}

-- How many joins a run makes at most.
abbrev pub hui_miner_joins : ℕ → List RawTransaction → ℕ
hui_miner_joins min_utility txs =
    joins no_cuts min_utility (length (nodes_of (plain_lists min_utility txs txs))) []
      (nodes_of (plain_lists min_utility txs txs))

abbrev pub fhm_joins : ℕ → List RawTransaction → MemoryGuard → ℕ
fhm_joins min_utility txs guard =
    joins (fhm_cuts min_utility txs txs guard) min_utility
      (length (nodes_of (fhm_lists min_utility txs txs guard))) []
      (nodes_of (fhm_lists min_utility txs txs guard))

-- `elapsed_ns` is the time that a load takes, `available` what the operating system says is free.
module _ {P : Type 0} (zero_prob : P) (E : EvictionPolicy P) (C : ChunkStore) (laws : StoreLaws C)
    (ids : PageIdLaws C) (lawful : PolicyLaws E) (O : Outputs) (outputs : OutputsLaws O)
    (elapsed_ns : BufferPool zero_prob E C → ℕ) (available min_utility : ℕ) where
  abbrev B : Bodies
  B = pool_bodies zero_prob E C elapsed_ns

  abbrev net : BufferPool zero_prob E C → BufferPool zero_prob E C
  net = apply_os_safety_net zero_prob E C available

  -- The whole of HUI-Miner over the buffer pool, on a dataset that reads the same twice, writes
  -- exactly the itemsets of high utility: each set of items, not empty, whose utility in the dataset
  -- reaches the minimum is written once, with its utility, and nothing else; or the run fails with an
  -- error of the store, of a pool whose pages are all pinned, or of the writer. The dataset lists its
  -- transactions by rising ids and no item twice in one, a transaction's utility is no less than that
  -- of its items, all utilities together are a nonnegative i64, and the dataset's length is within
  -- the widths of the lists. The store, the policy and the writer keep their contracts, and the pool
  -- is coherent with page ids left for the joins.
  pub hui_miner_run-IsExactly :
      (txs : List RawTransaction) (s : Run B O net min_utility)
      → min_utility < 2 ^ 63
      → IsDatabase (as_read txs)
      → HasRoom zero_prob E C laws ids (hui_miner_joins min_utility txs) s.0
      → Ends
          (λ _ t.
            (found : List Found) × (outputs.written t.1.0 ≡ outputs.written s.1.0 ++ found)
            × IsExactly min_utility (as_read txs) found)
          (hui_miner_run B O net min_utility (ok txs) (ok txs) s)
  hui_miner_run-IsExactly txs s hm d room =
      hui_miner_run_found B O net min_utility
        (pool_bodies-laws zero_prob E C laws ids lawful elapsed_ns) outputs txs s hm d
        (apply_os_safety_net-HasRoom zero_prob E C laws ids available
          (hui_miner_joins min_utility txs) s.0 room)

  -- The whole of FHM over the buffer pool, on a dataset that reads the same twice, writes exactly the
  -- itemsets of high utility, or fails with an error of the store, of a pool whose pages are all
  -- pinned, or of the writer, under the conditions of HUI-Miner and when the memory guard has 32
  -- bytes left for each pair of items that stand together in a transaction after the filter: no
  -- itemset of high utility is lost to the co-occurrences.
  pub fhm_run-IsExactly :
      (txs : List RawTransaction) (s : Run B O net min_utility) (guard : MemoryGuard)
      → min_utility < 2 ^ 63
      → IsDatabase (as_read txs)
      → guard.used + 32 * pairs_of (kept_by min_utility txs) ≤ guard.budget
      → guard.budget < 2 ^ 64
      → HasRoom zero_prob E C laws ids (fhm_joins min_utility txs guard) s.0
      → Ends
          (λ _ t.
            (found : List Found) × (outputs.written t.0.1.0 ≡ outputs.written s.1.0 ++ found)
            × IsExactly min_utility (as_read txs) found)
          (fhm_run B O net min_utility (ok txs) (ok txs) (s, guard))
  fhm_run-IsExactly txs s guard hm d fits small room =
      fhm_run_found B O net min_utility (pool_bodies-laws zero_prob E C laws ids lawful elapsed_ns)
        outputs txs s guard hm d fits small
        (apply_os_safety_net-HasRoom zero_prob E C laws ids available
          (fhm_joins min_utility txs guard) s.0 room)
