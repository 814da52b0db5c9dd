-- ===== src/Mining/Algorithms/Results.antt =====
-- What a run of the exact algorithms writes, over any lawful bodies and any writer that appends.
use pocket_data_mining.Base.{
  ℕ, ◌<◌, ◌^◌, ◌≡◌, refl, ◌∙◌, ap, Bool, List, [], ◌∷◌, ◌++◌, map, length, arith, All, Option, none,
  some, Bool-cases, inl, inr,
}
use mathlib.Core.Path.{subst}
use pocket_data_mining.Base.Assoc.{lookup, remove}
use pocket_data_mining.Base.Io.{IoResult, ok, err}
use pocket_data_mining.Base.Sort.{place, sort_by}
use pocket_data_mining.Types.{UlEntry, RawTransaction}
use pocket_data_mining.Mining.Search.{Bodies, Cuts, Single, TraversalContext, execute_tasks}
use pocket_data_mining.Mining.Search.Nodes.{Node, IsStorable}
use pocket_data_mining.Mining.MemoryGuard.{MemoryGuard}
use pocket_data_mining.Mining.Algorithms.Parts.{eucs_cuts}
use pocket_data_mining.Mining.Algorithms.Lists.{sort_by_twu_item}
use pocket_data_mining.Mining.Algorithms.Exact.{paired_lists, fhm_run, beside_guard}
use pocket_data_mining.Mining.Search.Reference.{Found, mine, joins}
use pocket_data_mining.Mining.Search.Lawful.{Ends, Ends-mono, Ends-settle, BodiesLaws, SinkLaws}
use pocket_data_mining.Mining.Search.Singles.{single_of}
use pocket_data_mining.Mining.Search.Tasks.{execute_tasks-mine}
use pocket_data_mining.Mining.Search.Pruning.{IsFamily, every, mine-every}
use pocket_data_mining.Mining.Algorithms.Lists.{
  header_found, PerItem, headers_of, item_uls, item_header, sort_by_twu,
}
use pocket_data_mining.Mining.Algorithms.Parts.{
  counted, Outputs, Counted, write_counted, exact_sink, no_cuts,
}
use pocket_data_mining.Mining.Algorithms.Exact.{plain_lists, Run, tasks_with, hui_miner_run}

-- The node of a single item's list.
abbrev pub node_of : Single → Node
node_of s = (s.0.itemset, s.1)

abbrev pub nodes_of : List Single → List Node
nodes_of = map node_of

-- The header is that of the entries.
abbrev pub IsItem : Single → Type 0
IsItem s = single_of (node_of s) ≡ s

place-IsItem :
    (before : Single → Single → Bool) (x : Single) (ys : List Single)
    → IsItem x
    → All IsItem ys
    → All IsItem (place before x ys)
unfolding place
place-IsItem before x [] h hs = (h, tt)
place-IsItem before x (y ∷ ys) h (k, ks) = elim (Bool-cases (before y x)) [
  | inl e ↦ rw (e, place) (k, place-IsItem before x ys h ks)
  | inr e ↦ rw (e, place) (h, (k, ks))
]

sort_by-IsItem :
    (before : Single → Single → Bool) (xs : List Single)
    → All IsItem xs
    → All IsItem (sort_by before xs)
unfolding sort_by
sort_by-IsItem before [] h = tt
sort_by-IsItem before (x ∷ xs) (h, hs) =
    place-IsItem before x (sort_by before xs) h (sort_by-IsItem before xs hs)

header_found-IsItem :
    (item : ℕ) (o : Option (List UlEntry)) (rest : List Single)
    → All IsItem rest
    → All IsItem (header_found item o rest)
unfolding item_header
header_found-IsItem item none rest h = h
header_found-IsItem item (some es) rest h = (refl, h)

headers_of-IsItem : (items : List ℕ) (m : PerItem) → All IsItem (headers_of items m)
unfolding headers_of
headers_of-IsItem [] m = tt
headers_of-IsItem (item ∷ items) m =
    header_found-IsItem item (lookup item m) (headers_of items (remove item m))
      (headers_of-IsItem items (remove item m))

plain_lists-IsItem :
    (min_utility : ℕ) (txs again : List RawTransaction)
    → All IsItem (plain_lists min_utility txs again)
unfolding sort_by_twu item_uls
plain_lists-IsItem min_utility txs again = sort_by-IsItem _ _ (headers_of-IsItem _ _)

-- The lists that FHM searches, and its cuts.
abbrev pub fhm_lists : ℕ → List RawTransaction → List RawTransaction → MemoryGuard → List Single
fhm_lists min_utility txs again guard =
    (paired_lists sort_by_twu_item min_utility txs again guard).0

abbrev pub fhm_cuts : ℕ → List RawTransaction → List RawTransaction → MemoryGuard → Cuts
fhm_cuts min_utility txs again guard =
    eucs_cuts (paired_lists sort_by_twu_item min_utility txs again guard).1.0

fhm_lists-IsItem :
    (min_utility : ℕ) (txs again : List RawTransaction) (guard : MemoryGuard)
    → All IsItem (fhm_lists min_utility txs again guard)
unfolding sort_by_twu_item item_uls
fhm_lists-IsItem min_utility txs again guard = sort_by-IsItem _ _ (headers_of-IsItem _ _)

singles_of : (l : List Single) → All IsItem l → map single_of (map node_of l) ≡ l
singles_of [] h = refl
singles_of (s ∷ l) (h, hs) =
    ap (λ x. x ∷ map single_of (map node_of l)) h ∙ ap (λ r. s ∷ r) (singles_of l hs)

-- A writer that keeps what was written, and whose failures are its own.
pub record OutputsLaws (O : Outputs) : Type 0 where
  pub written : O.State → List Found
  pub write_lem :
      (itemset : List ℕ) (utility : ℕ) (s : O.State)
      → Ends
          (λ _ t. written t ≡ written s ++ (itemset, utility) ∷ [])
          (O.write_hui itemset utility s)
  pub submit_lem : (c : TraversalContext) (s : O.State) → written (O.submit c s) ≡ written s

module _ (O : Outputs) (outputs : OutputsLaws O) (min_utility : ℕ) where
  pub write_counted_lem :
      (itemset : List ℕ) (utility : ℕ) (s : Counted O)
      → Ends
          (λ _ t. outputs.written t.0 ≡ outputs.written s.0 ++ (itemset, utility) ∷ [])
          (write_counted O itemset utility s)
  unfolding write_counted
  write_counted_lem itemset utility s =
      go (O.write_hui itemset utility s.0) (outputs.write_lem itemset utility s.0)
    where
      go :
          (r : IoResult (Unit {0}) × O.State)
          → Ends (λ _ t. outputs.written t ≡ outputs.written s.0 ++ (itemset, utility) ∷ []) r
          → Ends
              (λ _ t. outputs.written t.0 ≡ outputs.written s.0 ++ (itemset, utility) ∷ [])
              (counted O s.1 r)
      go (ok a, t) h = h
      go (err e, t) h = h

  abbrev pub exact_sink-laws : SinkLaws (exact_sink O min_utility) min_utility
  exact_sink-laws = record {
    found = λ s. outputs.written s.0;
    threshold_lem = λ s. refl;
    report_lem = write_counted_lem;
    prefetch_lem = λ c s. outputs.submit_lem c s.0;
  }

module _ (B : Bodies) (O : Outputs) (net : B.State → B.State) (min_utility : ℕ)
    (bodies : BodiesLaws B) (outputs : OutputsLaws O) where
  abbrev Wrote : Run B O net min_utility → List Found → Run B O net min_utility → Type 0
  Wrote s new t = outputs.written t.1.0 ≡ outputs.written s.1.0 ++ new

  tasks_with-mine :
      (L : Cuts) (ns : List Node) (s : Run B O net min_utility)
      → All (λ n. IsStorable n.1) ns
      → bodies.Good (joins L min_utility (length ns) [] ns) (net s.0)
      → Ends
          (λ _ t. Wrote s (mine L min_utility (length ns) [] ns) t)
          (tasks_with B O net min_utility L (map single_of ns) s)
  tasks_with-mine L ns s hn good =
      Ends-settle _ _
        (execute_tasks B (exact_sink O min_utility) L (map single_of ns) (net s.0, s.1))
        (Ends-mono _ _
          (execute_tasks B (exact_sink O min_utility) L (map single_of ns) (net s.0, s.1))
          (λ _ t (g, keep, e). e)
          (execute_tasks-mine B (exact_sink O min_utility) L bodies min_utility
            (exact_sink-laws O outputs min_utility) 0 ns (net s.0, s.1) hn
            (bodies.Good-mono _ _ (net s.0) (omega arith) good)))

  -- The tasks on lists of single items.
  tasks_with-every :
      (L : Cuts) (l : List Single) (s : Run B O net min_utility)
      → min_utility < 2 ^ 63
      → All IsItem l
      → IsFamily [] (nodes_of l)
      → bodies.Good (joins L min_utility (length (nodes_of l)) [] (nodes_of l)) (net s.0)
      → Ends
          (λ _ t. Wrote s (every L min_utility (length (nodes_of l)) [] (nodes_of l)) t)
          (tasks_with B O net min_utility L l s)
  tasks_with-every L l s hm items family good =
      subst
        (λ l'.
          Ends (λ _ t. Wrote s (every L min_utility (length ns) [] ns) t)
            (tasks_with B O net min_utility L l' s))
        (singles_of l items)
        (subst
          (λ new.
            Ends (λ _ t. Wrote s new t) (tasks_with B O net min_utility L (map single_of ns) s))
          (mine-every L min_utility (length ns) [] ns family hm)
          (tasks_with-mine L ns s family.storable good))
    where
      ns : List Node
      ns = nodes_of l

  -- The whole of HUI-Miner on a dataset that was read twice: it writes what the search of all nodes,
  -- with nothing cut off, finds on the lists that the two passes build, or fails with an error of the
  -- bodies or of the writer. The lists nest, their totals are nonnegative i64 values, and the bodies
  -- have room for the joins after the budget was lowered.
  pub hui_miner_run-every :
      (txs again : List RawTransaction) (s : Run B O net min_utility)
      → min_utility < 2 ^ 63
      → IsFamily [] (nodes_of (plain_lists min_utility txs again))
      → bodies.Good
          (joins no_cuts min_utility
            (length (nodes_of (plain_lists min_utility txs again)))
            []
            (nodes_of (plain_lists min_utility txs again)))
          (net s.0)
      → Ends
          (λ _ t.
            outputs.written t.1.0
            ≡ outputs.written s.1.0
              ++ every no_cuts min_utility
                  (length (nodes_of (plain_lists min_utility txs again)))
                  []
                  (nodes_of (plain_lists min_utility txs again)))
          (hui_miner_run B O net min_utility (ok txs) (ok again) s)
  unfolding hui_miner_run
  hui_miner_run-every txs again s hm family good =
      tasks_with-every no_cuts (plain_lists min_utility txs again) s hm
        (plain_lists-IsItem min_utility txs again) family good

  Ends-guard :
      (guard : MemoryGuard) (new : List Found) (s : Run B O net min_utility)
      (r : IoResult ℕ × Run B O net min_utility)
      → Ends (λ _ t. Wrote s new t) r
      → Ends (λ _ t. Wrote s new t.0) (beside_guard B O net min_utility guard r)
  Ends-guard guard new s (ok n, t) h = h
  Ends-guard guard new s (err e, t) h = h

  -- The whole of FHM on a dataset that was read twice: it writes what the search of all nodes finds
  -- that leaves out only the joins of two items that the co-occurrences rule out, on the lists that
  -- the two passes build, or fails with an error of the bodies or of the writer. The lists nest, their
  -- totals are nonnegative i64 values, and the bodies have room for the joins after the budget was
  -- lowered.
  pub fhm_run-every :
      (txs again : List RawTransaction) (s : Run B O net min_utility) (guard : MemoryGuard)
      → min_utility < 2 ^ 63
      → IsFamily [] (nodes_of (fhm_lists min_utility txs again guard))
      → bodies.Good
          (joins
            (fhm_cuts min_utility txs again guard)
            min_utility
            (length (nodes_of (fhm_lists min_utility txs again guard)))
            []
            (nodes_of (fhm_lists min_utility txs again guard)))
          (net s.0)
      → Ends
          (λ _ t.
            outputs.written t.0.1.0
            ≡ outputs.written s.1.0
              ++ every
                  (fhm_cuts min_utility txs again guard)
                  min_utility
                  (length (nodes_of (fhm_lists min_utility txs again guard)))
                  []
                  (nodes_of (fhm_lists min_utility txs again guard)))
          (fhm_run B O net min_utility (ok txs) (ok again) (s, guard))
  unfolding fhm_run
  fhm_run-every txs again s guard hm family good =
      Ends-guard _ _ s
        (tasks_with B O net min_utility (fhm_cuts min_utility txs again guard)
          (fhm_lists min_utility txs again guard) s)
        (tasks_with-every (fhm_cuts min_utility txs again guard)
          (fhm_lists min_utility txs again guard) s hm
          (fhm_lists-IsItem min_utility txs again guard) family good)
