-- ===== src/Mining/Algorithms/Exact.antt =====
-- mining/algorithms: hui_miner.rs, hup_miner.rs, mhui_miner.rs, fhm.rs and fhm_plus.rs, with the
-- algorithms that only call FHM. They differ in the structure of co-occurrences, in the lengths that
-- FHM+ allows, and in how ties are sorted. mHUIMiner also shrinks vectors, which has no effect
-- on what they hold.
use pocket_data_mining.Base.{ℕ, List, []}
use pocket_data_mining.Base.Io.{IoResult, ok, err}
use pocket_data_mining.Base.Exec.{Exec, settle}
use pocket_data_mining.Types.{RawTransaction, UlEntry, UtilityList}
use pocket_data_mining.Preprocessing.TwuFilter.{TwuFilterResult, compute, filter_new}
use pocket_data_mining.Mining.MemoryGuard.{MemoryGuard}
use pocket_data_mining.Mining.Eucs.{Eucs, eucs_new}
use pocket_data_mining.Mining.Search.{Bodies, Cuts, Single, Extension, search, task, execute_tasks}
use pocket_data_mining.Mining.Algorithms.Lists.{
  per_item_of, per_item_with_pairs, item_uls, sort_by_twu, sort_by_twu_item,
}
use pocket_data_mining.Mining.Algorithms.Parts.{
  Outputs, Counted, exact_sink, no_cuts, eucs_cuts, length_cuts,
}

-- The dataset as one of its readings gives it: the lines that parse, or an error of File::open.
abbrev pub Reading : Type 0
Reading = IoResult (List RawTransaction)

abbrev pub with_reading : {S A : Type 0} → Reading → (List RawTransaction → Exec S A) → Exec S A
with_reading (ok txs) f s = f txs s
with_reading (err e) f s = (err e, s)

-- Both passes, for the algorithms without co-occurrences.
abbrev pub plain_lists : ℕ → List RawTransaction → List RawTransaction → List Single
plain_lists min_utility txs again =
    let r = compute (filter_new min_utility) txs in
    sort_by_twu r (item_uls (per_item_of r again []))

-- Both passes, for those with them.
abbrev pub paired_lists :
    (TwuFilterResult → List Single → List Single)
    → ℕ
    → List RawTransaction
    → List RawTransaction
    → MemoryGuard
    → List Single × (Eucs × MemoryGuard)
paired_lists order min_utility txs again guard =
    let r = compute (filter_new min_utility) txs in
    let (m, pairs) = per_item_with_pairs r again ([], (eucs_new, guard)) in
    (order r (item_uls m), pairs)

-- `net` is apply_os_safety_net.
module _ (B : Bodies) (O : Outputs) (net : B.State → B.State) (min_utility : ℕ) where
  abbrev pub Run : Type 0
  Run = B.State × Counted O

  -- `Ok(ctx.progress.huis_found.load(..))`
  abbrev pub found_count : IoResult (Unit {0}) × Run → IoResult ℕ × Run
  found_count r = settle (λ _ t. (ok t.1.1, t)) r

  abbrev pub beside_guard :
      {A : Type 0} → MemoryGuard → IoResult A × Run → IoResult A × (Run × MemoryGuard)
  beside_guard guard (r, t) = (r, (t, guard))

  abbrev Ext : Cuts → Type 0
  Ext L = Extension B (exact_sink O min_utility) L

  abbrev pub search_with : (L : Cuts) → ℕ → List UlEntry → List (Ext L) → Exec Run (Unit {0})
  search_with L fuel prefix_body extensions s =
      search B (exact_sink O min_utility) L fuel prefix_body extensions s

  abbrev pub task_with : Cuts → UtilityList → List UlEntry → List Single → Exec Run (Unit {0})
  task_with L ul_x body_x rest s = task B (exact_sink O min_utility) L ul_x body_x rest s

  abbrev pub tasks_with : Cuts → List Single → Exec Run ℕ
  tasks_with L filtered s =
      found_count (execute_tasks B (exact_sink O min_utility) L filtered (net s.0, s.1))

  abbrev pub hui_miner_search : ℕ → List UlEntry → List (Ext no_cuts) → Exec Run (Unit {0})
  hui_miner_search = search_with no_cuts

  abbrev pub hui_miner_task : UtilityList → List UlEntry → List Single → Exec Run (Unit {0})
  hui_miner_task = task_with no_cuts

  unfoldable pub hui_miner_run : Reading → Reading → Exec Run ℕ
  hui_miner_run first second =
      with_reading first (λ txs.
        with_reading second (λ again. tasks_with no_cuts (plain_lists min_utility txs again)))

  abbrev pub hup_miner_search : ℕ → List UlEntry → List (Ext no_cuts) → Exec Run (Unit {0})
  hup_miner_search = search_with no_cuts

  abbrev pub hup_miner_task : UtilityList → List UlEntry → List Single → Exec Run (Unit {0})
  hup_miner_task = task_with no_cuts

  unfoldable pub hup_miner_run : Reading → Reading → Exec Run ℕ
  hup_miner_run first second =
      with_reading first (λ txs.
        with_reading second (λ again. tasks_with no_cuts (plain_lists min_utility txs again)))

  abbrev pub mhui_miner_search : ℕ → List UlEntry → List (Ext no_cuts) → Exec Run (Unit {0})
  mhui_miner_search = search_with no_cuts

  abbrev pub mhui_miner_task : UtilityList → List UlEntry → List Single → Exec Run (Unit {0})
  mhui_miner_task = task_with no_cuts

  unfoldable pub mhui_miner_run : Reading → Reading → Exec Run ℕ
  mhui_miner_run first second =
      with_reading first (λ txs.
        with_reading second (λ again. tasks_with no_cuts (plain_lists min_utility txs again)))

  abbrev pub fhm_search :
      (eucs : Eucs) → ℕ → List UlEntry → List (Ext (eucs_cuts eucs)) → Exec Run (Unit {0})
  fhm_search eucs = search_with (eucs_cuts eucs)

  abbrev pub fhm_task : Eucs → UtilityList → List UlEntry → List Single → Exec Run (Unit {0})
  fhm_task eucs = task_with (eucs_cuts eucs)

  abbrev pub tasks_paired :
      (Eucs → Cuts) → List Single × (Eucs × MemoryGuard) → Run → IoResult ℕ × (Run × MemoryGuard)
  tasks_paired cuts (filtered, (eucs, guard)) s =
      beside_guard guard (tasks_with (cuts eucs) filtered s)

  -- The memory guard is that of the context, which others share.
  unfoldable pub fhm_run : Reading → Reading → Exec (Run × MemoryGuard) ℕ
  fhm_run first second = with_reading first (λ txs. with_reading second (λ again s.
      tasks_paired eucs_cuts (paired_lists sort_by_twu_item min_utility txs again s.1) s.0))

  abbrev pub inc_fhm_run : Reading → Reading → Exec (Run × MemoryGuard) ℕ
  inc_fhm_run = fhm_run

  abbrev pub shuim_run : Reading → Reading → Exec (Run × MemoryGuard) ℕ
  shuim_run = fhm_run

  abbrev pub huim_ga_run : Reading → Reading → Exec (Run × MemoryGuard) ℕ
  huim_ga_run = fhm_run

  abbrev pub huim_bpso_run : Reading → Reading → Exec (Run × MemoryGuard) ℕ
  huim_bpso_run = fhm_run

  abbrev pub mhui_aco_run : Reading → Reading → Exec (Run × MemoryGuard) ℕ
  mhui_aco_run = fhm_run

  module _ (min_length max_length : ℕ) where
    abbrev pub fhm_plus_search :
        (eucs : Eucs)
        → ℕ
        → List UlEntry
        → List (Ext (length_cuts min_length max_length eucs))
        → Exec Run (Unit {0})
    fhm_plus_search eucs = search_with (length_cuts min_length max_length eucs)

    abbrev pub fhm_plus_task : Eucs → UtilityList → List UlEntry → List Single → Exec Run (Unit {0})
    fhm_plus_task eucs = task_with (length_cuts min_length max_length eucs)

    unfoldable pub fhm_plus_run : Reading → Reading → Exec (Run × MemoryGuard) ℕ
    fhm_plus_run first second = with_reading first (λ txs. with_reading second (λ again s.
        tasks_paired (length_cuts min_length max_length)
          (paired_lists sort_by_twu min_utility txs again s.1) s.0))
