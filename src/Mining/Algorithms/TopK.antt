-- ===== src/Mining/Algorithms/TopK.antt =====
-- mining/algorithms: tku.rs, tko.rs and rept.rs, which are the same code under three names. With a k
-- the results go to a heap of the k best, whose least one is the threshold; without one they
-- are written as FHM does.
pub mod Order
pub mod Best
pub mod Threshold
use pocket_data_mining.Base.{
  ℕ, zero, suc, ◌+◌, Bool, true, false, not, ◌&&◌, ◌||◌, Option, none, some, List, [], ◌∷◌, ◌++◌,
  length, ltb, ◌==◌, if◌then◌else◌,
}
use pocket_data_mining.Base.Io.{IoResult, ok, err}
use pocket_data_mining.Base.Exec.{Exec, settle}
use pocket_data_mining.Base.Sort.{place}
use pocket_data_mining.Base.Words.{lt_i64, add_u64}
use pocket_data_mining.Types.{UlEntry, UtilityList, RawTransaction}
use pocket_data_mining.Mining.MemoryGuard.{MemoryGuard}
use pocket_data_mining.Preprocessing.TwuFilter.{compute, filter_new}
use pocket_data_mining.Mining.Eucs.{Eucs, eucs_new}
use pocket_data_mining.Mining.Search.{
  Bodies, Sink, Cuts, Single, TraversalContext, Session, Extension, unwrap, search, task,
  execute_tasks,
}
use pocket_data_mining.Mining.Algorithms.Lists.{
  item_uls, per_item_with_pairs, sort_by_twu, drop_low,
}
use pocket_data_mining.Mining.Algorithms.Parts.{Outputs, Counted, write_counted, eucs_cuts}
use pocket_data_mining.Mining.Algorithms.Exact.{Reading, with_reading}

-- (Utility, Vec<ItemId>)
abbrev pub HeapEntry : Type 0
HeapEntry = ℕ × List ℕ

-- The order of vectors.
abbrev pub items_before : List ℕ → List ℕ → Bool
items_before [] [] = false
items_before [] (y ∷ ys) = true
items_before (x ∷ xs) [] = false
items_before (x ∷ xs) (y ∷ ys) = ltb x y || ((x == y) && items_before xs ys)

-- The order of the pairs; BinaryHeap is a max-heap, and Reverse makes its top the least.
abbrev pub entry_before : HeapEntry → HeapEntry → Bool
entry_before (u, xs) (v, ys) = lt_i64 u v || (not (lt_i64 v u) && items_before xs ys)

-- The heap as a list from its top on.
pub record TkuState : Type 0 where
  pub heap : List HeapEntry
  pub threshold : ℕ
  pub k : ℕ

unfoldable pub state_new : ℕ → TkuState
state_new k = record { heap = []; threshold = 0; k = k }

-- `heap.pop()`
abbrev pub tail_of : List HeapEntry → List HeapEntry
tail_of [] = []
tail_of (e ∷ es) = es

-- `heap.push(..)` and the `pop` of a heap that is too long.
unfoldable pub push_bounded : ℕ → HeapEntry → List HeapEntry → List HeapEntry
push_bounded k e heap =
    let pushed = place entry_before e heap in
    if ltb k (length pushed) then tail_of pushed else pushed

-- `while min_u > current { .. }` on one thread.
abbrev pub raised : ℕ → ℕ → ℕ
raised current min_u = if lt_i64 current min_u then min_u else current

abbrev pub raised_to_top : List HeapEntry → ℕ → ℕ
raised_to_top [] current = current
raised_to_top ((min_u, _) ∷ _) current = raised current min_u

unfoldable pub update : ℕ → List ℕ → TkuState → TkuState
unfolding push_bounded
update utility itemset st =
    let heap = push_bounded st.k (utility, itemset) st.heap in
    record {
      heap = heap;
      threshold = if length heap == st.k then raised_to_top heap st.threshold else st.threshold;
      k = st.k;
    }

-- `while let Some(..) = heap.pop()`, and `reverse`.
abbrev pub highest_first : List HeapEntry → List HeapEntry
highest_first [] = []
highest_first (e ∷ es) = highest_first es ++ e ∷ []

module _ (B : Bodies) (O : Outputs) (net : B.State → B.State) (min_utility : ℕ) where
  -- `tku_state` is there if the context has a k.
  abbrev pub TopKState : Type 0
  TopKState = Counted O × Option TkuState

  abbrev pub current_thresh : TopKState → ℕ
  current_thresh (_, none) = min_utility
  current_thresh (_, some st) = st.threshold

  abbrev pub with_state :
      {A : Type 0} → Option TkuState → IoResult A × Counted O → IoResult A × TopKState
  with_state st (r, c) = (r, (c, st))

  unfoldable pub offer : List ℕ → ℕ → Exec TopKState (Unit {0})
  unfolding update
  offer itemset utility (c, none) = with_state none (write_counted O itemset utility c)
  offer itemset utility (c, some st) = (ok tt, (c, some (update utility itemset st)))

  abbrev pub top_k_sink : Sink
  top_k_sink = record {
    State = TopKState;
    threshold = current_thresh;
    report = offer;
    prefetch = λ c s. ((O.submit c s.0.0, s.0.1), s.1);
  }

  abbrev Run : Type 0
  Run = B.State × TopKState

  abbrev Ext : Eucs → Type 0
  Ext eucs = Extension B top_k_sink (eucs_cuts eucs)

  abbrev pub tku_search : (eucs : Eucs) → ℕ → List UlEntry → List (Ext eucs) → Exec Run (Unit {0})
  tku_search eucs fuel prefix_body extensions s =
      search B top_k_sink (eucs_cuts eucs) fuel prefix_body extensions s

  abbrev pub tku_task : Eucs → UtilityList → List UlEntry → List Single → Exec Run (Unit {0})
  tku_task eucs ul_x body_x rest s = task B top_k_sink (eucs_cuts eucs) ul_x body_x rest s

  -- `final_writer.write_hui(..).unwrap(); count += 1`
  unfoldable pub write_best : List HeapEntry → ℕ → Exec O.State ℕ
  write_best [] count out = (ok count, out)
  write_best ((utility, itemset) ∷ rest) count out =
      settle (λ _ out'. write_best rest (count + 1) out') (unwrap (O.write_hui itemset utility out))

  -- `reopen` is ResultWriter::new, which starts the output anew.
  abbrev pub stored_count : Option TkuState → B.State → ℕ → IoResult ℕ × O.State → IoResult ℕ × Run
  stored_count st b old (ok count, out) = (ok count, (b, ((out, count), st)))
  stored_count st b old (err e, out) = (err e, (b, ((out, old), st)))

  unfoldable pub write_heap : (O.State → O.State) → Exec Run ℕ
  unfolding write_best
  write_heap reopen (b, ((out, n), none)) = (ok n, (b, ((out, n), none)))
  write_heap reopen (b, ((out, n), some st)) =
      stored_count (some (record st { heap = [] })) b n
        (write_best (highest_first st.heap) 0 (reopen out))

  abbrev pub state_for : Option ℕ → Option TkuState
  state_for none = none
  state_for (some k) = some (state_new k)

  abbrev pub initial_threshold : Option ℕ → ℕ
  initial_threshold none = min_utility
  initial_threshold (some k) = 0

  abbrev pub top_k_lists :
      ℕ
      → List RawTransaction
      → List RawTransaction
      → MemoryGuard
      → List Single × (Eucs × MemoryGuard)
  top_k_lists initial txs again guard =
      let r = compute (filter_new initial) txs in
      let (m, pairs) = per_item_with_pairs r again ([], (eucs_new, guard)) in
      (sort_by_twu r (drop_low initial (item_uls m)), pairs)

  abbrev pub beside :
      {A : Type 0}
      → MemoryGuard
      → IoResult A × Run
      → IoResult A × (B.State × Counted O × MemoryGuard)
  beside guard (r, (b, (c, _))) = (r, (b, c, guard))

  abbrev pub top_k_tasks :
      Option ℕ
      → (O.State → O.State)
      → List Single × (Eucs × MemoryGuard)
      → B.State
      → Counted O
      → IoResult ℕ × (B.State × Counted O × MemoryGuard)
  top_k_tasks k reopen (filtered, (eucs, guard)) b c = beside guard (
      settle (λ _ t. write_heap reopen t)
        (execute_tasks B top_k_sink (eucs_cuts eucs) filtered (net b, (c, state_for k))))

  unfoldable pub tku_run :
      Option ℕ
      → (O.State → O.State)
      → Reading
      → Reading
      → Exec (B.State × Counted O × MemoryGuard) ℕ
  unfolding write_heap
  tku_run k reopen first second = with_reading first (λ txs.
      with_reading second (λ again (b, c, guard).
        top_k_tasks k reopen (top_k_lists (initial_threshold k) txs again guard) b c))

  abbrev pub tko_search : (eucs : Eucs) → ℕ → List UlEntry → List (Ext eucs) → Exec Run (Unit {0})
  tko_search = tku_search

  abbrev pub tko_task : Eucs → UtilityList → List UlEntry → List Single → Exec Run (Unit {0})
  tko_task = tku_task

  abbrev pub tko_run :
      Option ℕ
      → (O.State → O.State)
      → Reading
      → Reading
      → Exec (B.State × Counted O × MemoryGuard) ℕ
  tko_run = tku_run

  abbrev pub rept_search : (eucs : Eucs) → ℕ → List UlEntry → List (Ext eucs) → Exec Run (Unit {0})
  rept_search = tku_search

  abbrev pub rept_task : Eucs → UtilityList → List UlEntry → List Single → Exec Run (Unit {0})
  rept_task = tku_task

  abbrev pub rept_run :
      Option ℕ
      → (O.State → O.State)
      → Reading
      → Reading
      → Exec (B.State × Counted O × MemoryGuard) ℕ
  rept_run = tku_run
