-- ===== src/Mining/Tests/Search.antt =====
-- The search and the algorithms at concrete inputs, with bodies in the buffer pool and a channel for the
-- results.
use pocket_data_mining.Base.{
  ℕ, ◌+◌, ◌<◌, ◌^◌, ◌≡◌, refl, List, [], ◌∷◌, map, arith, All, true, none, ◌==◌, Bool-cases, inl,
  inr, keep_if,
}
use pocket_data_mining.Base.Assoc.{lookup, insert, remove}
use pocket_data_mining.Base.Io.{IoResult, ok}
use pocket_data_mining.Base.Bytes.{to_le_bytes}
use pocket_data_mining.Base.Sort.{place, sort_by}
use pocket_data_mining.Types.{ItemEntry, RawTransaction, UlEntry, UtilityList, recomputable}
use pocket_data_mining.Preprocessing.TwuFilter.{
  compute, apply, passes, add_all, add_items, add_twu, retain,
}
use pocket_data_mining.Storage.ChunkStore.{ChunkStore, StoreLaws, PageIdLaws}
use pocket_data_mining.Storage.WriteRead.{file_chunk_store, file_chunk_store-laws}
use pocket_data_mining.Storage.PageIds.{file_chunk_store-ids}
use pocket_data_mining.Storage.Fixtures.{three_flags, zeros_codec, files, files-OwnErrors}
use pocket_data_mining.BufferPool.Policy.Lru.{lru, lru_new, lru-PolicyLaws}
use pocket_data_mining.BufferPool.Pool.{BufferPool, new}
use pocket_data_mining.Mining.Algorithms.PoolBodies.{HasRoom}
use pocket_data_mining.Mining.Algorithms.PoolBodies.Lawful.{pool_bodies-laws}
use pocket_data_mining.Mining.UlJoin.Materialize.{
  UlBody, in_memory, materialize, joined_header, join_utility_lists, get_body,
}
use pocket_data_mining.Mining.UlJoin.{join_entries, serialize_ul_body}
use pocket_data_mining.Mining.UlJoin.Bytes.{EntryFits}
use pocket_data_mining.Mining.UlJoin.Join.{find}
use pocket_data_mining.Mining.Search.{Bodies}
use pocket_data_mining.Mining.Search.Nodes.{Node, header, header-Describes, IsStorable}
use pocket_data_mining.Mining.Search.Lawful.{BodiesLaws, Ends}
use pocket_data_mining.Mining.Search.Chain.{IsChained, total}
use pocket_data_mining.Mining.Search.Pruning.{IsFamily, mine-every, every}
use pocket_data_mining.Mining.Search.Reference.{Found, children, mine, joins}
use pocket_data_mining.Mining.Search.{
  execute_tasks, task, expand_single, join_singles, search, visit, expand, join_all, report_high,
}
use pocket_data_mining.Mining.Search.Singles.{single_of}
use pocket_data_mining.Mining.Search.Tasks.{execute_tasks-mine}
use pocket_data_mining.Mining.Search.Visited.{Done}
use pocket_data_mining.Mining.Search.Written.{search-mine}
use pocket_data_mining.Types
use pocket_data_mining.Types.{is_high_utility, twu}
use pocket_data_mining.Mining.UlJoin.{join_pairs, push_entry}
use pocket_data_mining.Mining.Algorithms.Parts.{
  pool_bodies, channel, no_cuts, exact_sink, write_counted,
}
use pocket_data_mining.Mining.Algorithms.Lists.{
  per_item_of, add_filtered, add_entries, push_item, total_utility, item_uls, headers_of,
  item_header, sort_by_twu,
}
use pocket_data_mining.Mining.MemoryGuard.{MemoryGuard, guard_new}
use pocket_data_mining.Mining.Algorithms.Exact.{hui_miner_run}
use pocket_data_mining.Mining.Algorithms.Results.{OutputsLaws, exact_sink-laws}

-- The program's own store over a disk in memory, its LRU policy, and a pool of 8 KiB over both.
abbrev pub page_store : ChunkStore
page_store = file_chunk_store three_flags zeros_codec files

abbrev pub page_store-laws : StoreLaws page_store
page_store-laws = file_chunk_store-laws three_flags zeros_codec files

abbrev pub page_store-ids : PageIdLaws page_store
page_store-ids = file_chunk_store-ids three_flags zeros_codec files files-OwnErrors

abbrev pub Pool : Type 0
Pool = BufferPool 0 (lru ℕ) page_store

abbrev pub no_time : Pool → ℕ
no_time p = 0

abbrev pub bodies : Bodies
bodies = pool_bodies 0 (lru ℕ) page_store no_time

abbrev pub bodies-laws : BodiesLaws bodies
bodies-laws =
    pool_bodies-laws 0 (lru ℕ) page_store page_store-laws page_store-ids (lru-PolicyLaws ℕ) no_time

abbrev pub start_pool : Pool
unfolding new file_chunk_store
start_pool =
    new 0 (lru ℕ) page_store 8192 (record { counter = 1; compress = true; disk = λ p. none })
      lru_new

pub start_pool-HasRoom :
    (n : ℕ) → n < 2 ^ 63 → HasRoom 0 (lru ℕ) page_store page_store-laws page_store-ids n start_pool
unfolding new lookup file_chunk_store-ids file_chunk_store
start_pool-HasRoom n h = record {
  coherent = record { clean = λ id frame l d. cc; fits = λ id frame l. cc };
  distinct = tt;
  room = omega arith;
}

abbrev pub channel-laws : OutputsLaws channel
channel-laws = record {
  written = λ s. s;
  write_lem = λ itemset utility s. refl;
  submit_lem = λ c s. refl;
}

abbrev pub two_transactions : List RawTransaction
two_transactions =
    record {
      tid = 0;
      transaction_utility = 8;
      items = record { item = 1; utility = 5 } ∷ record { item = 2; utility = 3 } ∷ [];
    }
    ∷ record {
      tid = 1;
      transaction_utility = 10;
      items = record { item = 1; utility = 4 } ∷ record { item = 2; utility = 6 } ∷ [];
    }
    ∷ []

abbrev entries_1 : List UlEntry
entries_1 =
    record { tid = 0; iutils = 5; rutils = 3 } ∷ record { tid = 1; iutils = 4; rutils = 6 } ∷ []

abbrev entries_2 : List UlEntry
entries_2 =
    record { tid = 0; iutils = 3; rutils = 0 } ∷ record { tid = 1; iutils = 6; rutils = 0 } ∷ []

abbrev two_nodes : List Node
two_nodes = (1 ∷ [], entries_1) ∷ (2 ∷ [], entries_2) ∷ []

fits :
    (t i r : ℕ)
    → t < 2 ^ 32
    → i < 2 ^ 64
    → r < 2 ^ 64
    → EntryFits (record { tid = t; iutils = i; rutils = r })
fits t i r a b c = record { tid_fits = a; iutils_fits = b; rutils_fits = c }

two_nodes-IsStorable : All (λ n. IsStorable n.1) two_nodes
two_nodes-IsStorable = (
  record {
    ascending = ((omega arith, tt), (tt, tt));
    fits = (
      fits 0 5 3 (omega arith) (omega arith) (omega arith),
      (fits 1 4 6 (omega arith) (omega arith) (omega arith), tt),
    );
    short = omega arith;
  },
  (
    record {
      ascending = ((omega arith, tt), (tt, tt));
      fits = (
        fits 0 3 0 (omega arith) (omega arith) (omega arith),
        (fits 1 6 0 (omega arith) (omega arith) (omega arith), tt),
      );
      short = omega arith;
    },
    tt,
  ),
)

two_lists-IsChained : IsChained [] entries_1 entries_2
unfolding find
two_lists-IsChained = record {
  nested = λ tid. elim (Bool-cases (0 == tid)) [
    | inl first ↦ rw first (omega arith, omega arith, omega arith, omega arith)
    | inr other ↦ rw other (elim (Bool-cases (1 == tid)) [
      | inl second ↦ rw second (omega arith, omega arith, omega arith, omega arith)
      | inr neither ↦ rw neither tt
    ])
  ];
}

two_nodes-IsFamily : IsFamily [] two_nodes
unfolding total
two_nodes-IsFamily = record {
  prefix_ascending = tt;
  storable = two_nodes-IsStorable;
  chain = ((two_lists-IsChained, tt), (tt, tt));
  small = (omega arith, (omega arith, tt));
}

mine-every_example : mine no_cuts 9 2 [] two_nodes ≡ every no_cuts 9 2 [] two_nodes
mine-every_example = mine-every no_cuts 9 2 [] two_nodes two_nodes-IsFamily (omega arith)

-- What the run writes, and how many results it counts.
abbrev two_run : IoResult ℕ × (Pool × (List Found × ℕ))
two_run =
    hui_miner_run bodies channel (λ p. p) 9 (ok two_transactions) (ok two_transactions)
      (start_pool, ([], 0))

hui_miner_run-two :
    (two_run.0 ≡ ok 3) × (two_run.1.1.0 ≡ (1 ∷ [], 9) ∷ (1 ∷ 2 ∷ [], 18) ∷ (2 ∷ [], 9) ∷ [])
unfolding hui_miner_run lookup insert remove keep_if place sort_by compute apply passes add_all
    add_items add_twu retain per_item_of add_filtered add_entries push_item total_utility item_uls
    headers_of item_header sort_by_twu execute_tasks task expand_single join_singles search visit
    expand join_all report_high write_counted join_entries join_pairs push_entry Types.can_prune
    is_high_utility twu materialize joined_header join_utility_lists get_body serialize_ul_body
    to_le_bytes
hui_miner_run-two = (refl, refl)

-- One join, and three more at most.
joins_two : joins no_cuts 9 2 [] two_nodes + 0 < 2 ^ 63
unfolding joins mine children join_entries join_pairs push_entry Types.can_prune twu
joins_two = omega arith

execute_tasks-mine_example :
    Ends
      (λ _ t.
        Done bodies
          (exact_sink channel 9)
          no_cuts
          bodies-laws
          9
          (exact_sink-laws channel channel-laws 9)
          0
          (start_pool, ([], 0))
          (mine no_cuts 9 2 [] two_nodes)
          t)
      (execute_tasks bodies
        (exact_sink channel 9)
        no_cuts
        (map single_of two_nodes)
        (start_pool, ([], 0)))
execute_tasks-mine_example =
    execute_tasks-mine bodies (exact_sink channel 9) no_cuts bodies-laws 9
      (exact_sink-laws channel channel-laws 9) 0 two_nodes (start_pool, ([], 0))
      two_nodes-IsStorable (start_pool-HasRoom _ joins_two)

abbrev two_extensions : List (UtilityList × UlBody)
two_extensions =
    (header (1 ∷ [], entries_1), in_memory entries_1)
    ∷ (header (2 ∷ [], entries_2), in_memory entries_2)
    ∷ []

search-mine_example :
    Ends
      (λ _ t.
        Done bodies
          (exact_sink channel 9)
          no_cuts
          bodies-laws
          9
          (exact_sink-laws channel channel-laws 9)
          0
          (start_pool, ([], 0))
          (mine no_cuts 9 2 [] two_nodes)
          t)
      (search bodies (exact_sink channel 9) no_cuts 2 [] two_extensions (start_pool, ([], 0)))
search-mine_example =
    search-mine bodies (exact_sink channel 9) no_cuts bodies-laws 9
      (exact_sink-laws channel channel-laws 9) 2 0 [] two_extensions two_nodes (start_pool, ([], 0))
      (omega arith) tt two_nodes-IsStorable (start_pool-HasRoom _ joins_two)
      (header-Describes (1 ∷ [], entries_1), refl, (header-Describes (2 ∷ [], entries_2), refl, tt))

abbrev pub free_guard : MemoryGuard
free_guard = guard_new 1000
