-- ===== src/Mining/Tests/Mined.antt =====
-- The runs on a small dataset: what they write is exactly the itemsets of high utility.
use pocket_data_mining.Base.{
  ℕ, ◌+◌, ◌*◌, ◌<◌, ◌^◌, ◌≡◌, refl, List, [], ◌∷◌, ◌++◌, arith, keep_if, Option, none, some, true,
  false, inl, inr,
}
use pocket_data_mining.Base.Assoc.{lookup, insert, remove}
use pocket_data_mining.Base.Io.{ok}
use pocket_data_mining.Base.Sort.{place, sort_by}
use pocket_data_mining.Preprocessing.TwuFilter.{
  FilteredTransaction, filter_new, compute, apply, passes, add_all, add_items, add_twu, retain,
}
use pocket_data_mining.Mining.MemoryGuard.{try_alloc}
use pocket_data_mining.Mining.Search.Lawful.{Ends}
use pocket_data_mining.Mining.Search.Reference.{Found, children, joins}
use pocket_data_mining.Mining.Algorithms.Parts.{channel}
use pocket_data_mining.Mining.Algorithms.Exact.{hui_miner_run, fhm_run}
use pocket_data_mining.Mining.Database.{
  IsDatabase, as_read, kept_transactions, rest_utility, total_tu, high_utility, itemsets, occurs,
  utility_from, utility_of, item_utility, entries, lists_after, is_high,
}
use pocket_data_mining.Mining.Database.Entries.{find_tx, entry_at, IsPrefix, join-entries}
use pocket_data_mining.Mining.Database.Itemsets.{every-high_utility}
use pocket_data_mining.Mining.Database.Kept.{high-passes}
use pocket_data_mining.Mining.UlJoin.{join_entries, join_pairs, push_entry}
use pocket_data_mining.Mining.UlJoin.Join.{find, share}
use pocket_data_mining.Mining.Search.Pruning.{every}
use pocket_data_mining.Mining.Algorithms.Parts.{no_cuts}
use pocket_data_mining.Mining.Database.Granted.{pairs_in}
use pocket_data_mining.Mining.Database.Cooccurrence.{pairs_of, can_prune-is_high}
use pocket_data_mining.Mining.Database.Agreement.{kept-IsDatabase}
use pocket_data_mining.Mining.Eucs.{
  eucs_new, can_prune, get, add_transaction, add_row, add_pair, add_to,
}
use pocket_data_mining.Mining.Algorithms.Lists.{
  per_item_of, per_item_with_pairs, add_filtered, add_entries, push_item, total_utility, item_uls,
  headers_of, item_header, sort_by_twu, sort_by_twu_item,
}
use pocket_data_mining.Mining.Database.Start.{kept_by, first_pass}
use pocket_data_mining.Mining.Database.Exactly.{IsExactly}
use pocket_data_mining.Types
use pocket_data_mining.Types.{twu}
use pocket_data_mining.BufferPool.Policy.Lru.{lru, lru-PolicyLaws}
use pocket_data_mining.Mining.Core.Context.{apply_os_safety_net}
use pocket_data_mining.Mining.Database.Pooled.{
  hui_miner_joins, fhm_joins, hui_miner_run-IsExactly, fhm_run-IsExactly,
}
use pocket_data_mining.Mining.Tests.Search.{
  page_store, page_store-laws, page_store-ids, Pool, no_time, bodies, start_pool,
  start_pool-HasRoom, channel-laws, two_transactions, free_guard,
}

two_transactions-IsDatabase : IsDatabase (as_read two_transactions)
unfolding rest_utility total_tu
two_transactions-IsDatabase = record {
  ascending = ((omega arith, tt), (tt, tt));
  tids = (omega arith, (omega arith, tt));
  distinct = (((omega arith, tt), (tt, tt)), (((omega arith, tt), (tt, tt)), tt));
  covered = (omega arith, (omega arith, tt));
  small = omega arith;
  short = omega arith;
}

-- What the operating system has free: less than the pool's budget above the 500 MiB that stay free.
abbrev net_of : Pool → Pool
net_of = apply_os_safety_net 0 (lru ℕ) page_store (500 * 1024 * 1024 + 4096)

hui_two_joins : hui_miner_joins 9 two_transactions < 2 ^ 63
unfolding lookup insert remove keep_if place sort_by compute apply passes add_all add_items add_twu
    retain per_item_of add_filtered add_entries push_item total_utility item_uls headers_of
    item_header sort_by_twu joins children join_entries join_pairs push_entry Types.can_prune twu
hui_two_joins = omega arith

hui_miner_run-IsExactly_example :
    Ends
      (λ _ t.
        (found : List Found) × (t.1.0 ≡ [] ++ found) × IsExactly 9 (as_read two_transactions) found)
      (hui_miner_run bodies channel net_of 9
        (ok two_transactions)
        (ok two_transactions)
        (start_pool, ([], 0)))
hui_miner_run-IsExactly_example =
    hui_miner_run-IsExactly 0 (lru ℕ) page_store page_store-laws page_store-ids (lru-PolicyLaws ℕ)
      channel channel-laws no_time (500 * 1024 * 1024 + 4096) 9 two_transactions
      (start_pool, ([], 0)) (omega arith) two_transactions-IsDatabase
      (start_pool-HasRoom _ hui_two_joins)

two_pairs : pairs_of (kept_by 9 two_transactions) ≡ 2
unfolding lookup insert place sort_by compute apply passes add_all add_items add_twu retain keep_if
    kept_transactions pairs_of pairs_in
two_pairs = refl

fhm_two_joins : fhm_joins 9 two_transactions free_guard < 2 ^ 63
unfolding lookup insert remove keep_if place sort_by compute apply passes add_all add_items add_twu
    retain per_item_with_pairs add_filtered add_entries push_item total_utility item_uls headers_of
    item_header sort_by_twu_item joins children join_entries join_pairs push_entry Types.can_prune
    twu can_prune get add_transaction add_row add_pair add_to try_alloc
fhm_two_joins = omega arith

fhm_run-IsExactly_example :
    Ends
      (λ _ t.
        (found : List Found) × (t.0.1.0 ≡ [] ++ found)
        × IsExactly 9 (as_read two_transactions) found)
      (fhm_run bodies channel net_of 9
        (ok two_transactions)
        (ok two_transactions)
        ((start_pool, ([], 0)), free_guard))
fhm_run-IsExactly_example =
    fhm_run-IsExactly 0 (lru ℕ) page_store page_store-laws page_store-ids (lru-PolicyLaws ℕ) channel
      channel-laws no_time (500 * 1024 * 1024 + 4096) 9 two_transactions (start_pool, ([], 0))
      free_guard (omega arith) two_transactions-IsDatabase (omega (arith, two_pairs)) (omega arith)
      (start_pool-HasRoom _ fhm_two_joins)

-- The specification at work: three itemsets, of which all reach 9.
high_utility-two :
    high_utility 9 (as_read two_transactions) (itemsets [] (1 ∷ 2 ∷ []))
    ≡ (1 ∷ [], 9) ∷ (1 ∷ 2 ∷ [], 18) ∷ (2 ∷ [], 9) ∷ []
unfolding high_utility itemsets occurs utility_from utility_of item_utility
high_utility-two = refl

nothing_shared : IsPrefix (as_read two_transactions) [] []
unfolding find utility_of
nothing_shared tid = go (find_tx tid (as_read two_transactions))
  where
    go : (o : Option FilteredTransaction) → ◌≡◌ {A = ℕ} 0 (share (entry_at [] o))
    go none = refl
    go (some f) = refl

join-entries_example :
    (join_entries []
      (entries (1 ∷ []) (as_read two_transactions))
      (entries (2 ∷ []) (as_read two_transactions))).result
    ≡ entries (1 ∷ 2 ∷ []) (as_read two_transactions)
join-entries_example =
    join-entries (as_read two_transactions) [] 1 2 [] two_transactions-IsDatabase.ascending tt
      nothing_shared

every-high_utility_example :
    every no_cuts 9 2 [] (lists_after (as_read two_transactions) [] (1 ∷ 2 ∷ []))
    ≡ high_utility 9 (as_read two_transactions) (itemsets [] (1 ∷ 2 ∷ []))
every-high_utility_example =
    every-high_utility (as_read two_transactions) 9 (omega arith) (λ _ _ _. false) (1 ∷ 2 ∷ [])
      two_transactions-IsDatabase.ascending (λ x y ne e. absurd (cc e))
      ((omega arith, tt), (tt, tt))

one_is_high : is_high 9 (as_read two_transactions) (1 ∷ []) ≡ true
unfolding occurs utility_from utility_of item_utility
one_is_high = refl

high-passes_example : passes (compute (filter_new 9) two_transactions) 1 ≡ true
high-passes_example =
    high-passes 9 1 two_transactions (1 ∷ []) two_transactions-IsDatabase (omega arith) (tt, tt)
      (inl refl) one_is_high

pruned_at_100 :
    can_prune 1 2 100
      (per_item_with_pairs
        (first_pass 9 two_transactions)
        two_transactions
        ([], (eucs_new, free_guard))).1.0
    ≡ true
unfolding lookup insert place sort_by compute apply passes add_all add_items add_twu retain keep_if
    per_item_with_pairs add_filtered add_entries push_item total_utility can_prune get
    add_transaction add_row add_pair add_to try_alloc
pruned_at_100 = refl

can_prune-is_high_example : is_high 100 (kept_by 9 two_transactions) (1 ∷ 2 ∷ []) ≡ false
can_prune-is_high_example =
    can_prune-is_high (first_pass 9 two_transactions) two_transactions free_guard 100 1 2
      (1 ∷ 2 ∷ [])
      (kept-IsDatabase (first_pass 9 two_transactions) two_transactions two_transactions-IsDatabase)
      (omega (arith, two_pairs)) (omega arith) (omega arith) (omega arith)
      ((omega arith, tt), (tt, tt)) (inl refl) (inr (inl refl)) pruned_at_100
