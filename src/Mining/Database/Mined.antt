-- ===== src/Mining/Database/Mined.antt =====
-- Whole runs of HUI-Miner and FHM on a dataset that reads the same twice, over any lawful bodies: what
-- they write, said by the transactions alone.
use pocket_data_mining.Base.{ℕ, ◌+◌, ◌*◌, ◌≤◌, ◌<◌, ◌^◌, ◌≡◌, false, List, [], ◌++◌, map, length}
use mathlib.Core.Path.{subst}
use pocket_data_mining.Base.Io.{ok}
use pocket_data_mining.Types.{RawTransaction}
use pocket_data_mining.Mining.MemoryGuard.{MemoryGuard}
use pocket_data_mining.Mining.Eucs.{can_prune}
use pocket_data_mining.Mining.Search.{Bodies}
use pocket_data_mining.Mining.Search.Lawful.{Ends, Ends-mono, BodiesLaws}
use pocket_data_mining.Mining.Search.Reference.{Found, joins}
use pocket_data_mining.Mining.Algorithms.Lists.{item_of, sort_by_twu_item}
use pocket_data_mining.Mining.Algorithms.Parts.{Outputs, no_cuts}
use pocket_data_mining.Mining.Algorithms.Exact.{
  Run, plain_lists, paired_lists, hui_miner_run, fhm_run,
}
use pocket_data_mining.Mining.Algorithms.Results.{
  OutputsLaws, nodes_of, fhm_lists, fhm_cuts, hui_miner_run-every, fhm_run-every,
}
use pocket_data_mining.Mining.Database.{itemsets, high_utility, as_read, IsDatabase}
use pocket_data_mining.Mining.Database.Cooccurrence.{pairs_of, can_prune-IsSkippable}
use pocket_data_mining.Mining.Database.Agreement.{kept-IsDatabase}
use pocket_data_mining.Mining.Database.Start.{
  first_pass, kept_by, plain_lists-IsStart, fhm_lists-IsStart, start-IsFamily, start-found,
  start-IsExactly,
}
use pocket_data_mining.Mining.Database.Exactly.{IsExactly}

-- The items that the search starts with, in its order.
abbrev pub plain_items : ℕ → List RawTransaction → List ℕ
plain_items min_utility txs = map item_of (plain_lists min_utility txs txs)

abbrev pub fhm_items : ℕ → List RawTransaction → MemoryGuard → List ℕ
fhm_items min_utility txs guard = map item_of (fhm_lists min_utility txs txs guard)

module _ (B : Bodies) (O : Outputs) (net : B.State → B.State) (min_utility : ℕ)
    (bodies : BodiesLaws B) (outputs : OutputsLaws O) where
  hui_miner_run-high_utility :
      (txs : List RawTransaction) (s : Run B O net min_utility)
      → min_utility < 2 ^ 63
      → IsDatabase (as_read txs)
      → bodies.Good
          (joins no_cuts min_utility
            (length (nodes_of (plain_lists min_utility txs txs)))
            []
            (nodes_of (plain_lists min_utility txs txs)))
          (net s.0)
      → Ends
          (λ _ t.
            outputs.written t.1.0
            ≡ outputs.written s.1.0
              ++ high_utility min_utility (as_read txs) (itemsets [] (plain_items min_utility txs)))
          (hui_miner_run B O net min_utility (ok txs) (ok txs) s)
  hui_miner_run-high_utility txs s hm d good =
      subst
        (λ new.
          Ends (λ _ t. outputs.written t.1.0 ≡ outputs.written s.1.0 ++ new)
            (hui_miner_run B O net min_utility (ok txs) (ok txs) s))
        (start-found min_utility txs d (plain_lists min_utility txs txs)
          (plain_lists-IsStart min_utility txs d) (λ _ _ _. false) (λ x y ne e. absurd (cc e)))
        (hui_miner_run-every B O net min_utility bodies outputs txs txs s hm
          (start-IsFamily min_utility txs d (plain_lists min_utility txs txs)
            (plain_lists-IsStart min_utility txs d))
          good)

  fhm_run-high_utility :
      (txs : List RawTransaction) (s : Run B O net min_utility) (guard : MemoryGuard)
      → min_utility < 2 ^ 63
      → IsDatabase (as_read txs)
      → guard.used + 32 * pairs_of (kept_by min_utility txs) ≤ guard.budget
      → guard.budget < 2 ^ 64
      → bodies.Good
          (joins
            (fhm_cuts min_utility txs txs guard)
            min_utility
            (length (nodes_of (fhm_lists min_utility txs txs guard)))
            []
            (nodes_of (fhm_lists min_utility txs txs guard)))
          (net s.0)
      → Ends
          (λ _ t.
            outputs.written t.0.1.0
            ≡ outputs.written s.1.0
              ++ high_utility min_utility
                  (as_read txs)
                  (itemsets [] (fhm_items min_utility txs guard)))
          (fhm_run B O net min_utility (ok txs) (ok txs) (s, guard))
  fhm_run-high_utility txs s guard hm d room small good =
      subst
        (λ new.
          Ends (λ _ t. outputs.written t.0.1.0 ≡ outputs.written s.1.0 ++ new)
            (fhm_run B O net min_utility (ok txs) (ok txs) (s, guard)))
        (start-found min_utility txs d (fhm_lists min_utility txs txs guard)
          (fhm_lists-IsStart min_utility txs d guard)
          (λ x y t. can_prune x y t (paired_lists sort_by_twu_item min_utility txs txs guard).1.0)
          (λ x y ne e.
            can_prune-IsSkippable (first_pass min_utility txs) txs guard min_utility x y
              (kept-IsDatabase (first_pass min_utility txs) txs d) room small hm ne e))
        (fhm_run-every B O net min_utility bodies outputs txs txs s guard hm
          (start-IsFamily min_utility txs d (fhm_lists min_utility txs txs guard)
            (fhm_lists-IsStart min_utility txs d guard))
          good)

  -- Over any lawful bodies with room for the joins, HUI-Miner writes exactly the itemsets of high
  -- utility.
  pub hui_miner_run_found :
      (txs : List RawTransaction) (s : Run B O net min_utility)
      → min_utility < 2 ^ 63
      → IsDatabase (as_read txs)
      → bodies.Good
          (joins no_cuts min_utility
            (length (nodes_of (plain_lists min_utility txs txs)))
            []
            (nodes_of (plain_lists min_utility txs txs)))
          (net s.0)
      → Ends
          (λ _ t.
            (found : List Found) × (outputs.written t.1.0 ≡ outputs.written s.1.0 ++ found)
            × IsExactly min_utility (as_read txs) found)
          (hui_miner_run B O net min_utility (ok txs) (ok txs) s)
  hui_miner_run_found txs s hm d good =
      Ends-mono _ _ (hui_miner_run B O net min_utility (ok txs) (ok txs) s)
        (λ _ t e. (
          high_utility min_utility (as_read txs) (itemsets [] (plain_items min_utility txs)),
          e,
          start-IsExactly min_utility txs d (plain_lists min_utility txs txs)
              (plain_lists-IsStart min_utility txs d) hm,
        ))
        (hui_miner_run-high_utility txs s hm d good)

  -- So does FHM, when the memory guard has 32 bytes left for each pair of the filtered transactions.
  pub fhm_run_found :
      (txs : List RawTransaction) (s : Run B O net min_utility) (guard : MemoryGuard)
      → min_utility < 2 ^ 63
      → IsDatabase (as_read txs)
      → guard.used + 32 * pairs_of (kept_by min_utility txs) ≤ guard.budget
      → guard.budget < 2 ^ 64
      → bodies.Good
          (joins
            (fhm_cuts min_utility txs txs guard)
            min_utility
            (length (nodes_of (fhm_lists min_utility txs txs guard)))
            []
            (nodes_of (fhm_lists min_utility txs txs guard)))
          (net s.0)
      → Ends
          (λ _ t.
            (found : List Found) × (outputs.written t.0.1.0 ≡ outputs.written s.1.0 ++ found)
            × IsExactly min_utility (as_read txs) found)
          (fhm_run B O net min_utility (ok txs) (ok txs) (s, guard))
  fhm_run_found txs s guard hm d room small good =
      Ends-mono _ _ (fhm_run B O net min_utility (ok txs) (ok txs) (s, guard))
        (λ _ t e. (
          high_utility min_utility (as_read txs) (itemsets [] (fhm_items min_utility txs guard)),
          e,
          start-IsExactly min_utility txs d (fhm_lists min_utility txs txs guard)
              (fhm_lists-IsStart min_utility txs d guard) hm,
        ))
        (fhm_run-high_utility txs s guard hm d room small good)
