-- ===== src/Mining/Search.antt =====
-- The depth-first search that the algorithms on utility lists share: hui_miner_search, fhm_search and
-- their kin in mining/algorithms, with the loop over the single items that starts it. What differs
-- is a parameter: where bodies are kept, where results go, and what is cut off.
pub mod Nodes
pub mod Reference
pub mod Lawful
pub mod Refine
pub mod Visited
pub mod Written
pub mod Singles
pub mod Tasks
pub mod Chain
pub mod Pruning
use pocket_data_mining.Base.{
  ℕ, zero, suc, Bool, true, false, ◌&&◌, List, [], ◌∷◌, ◌++◌, length, if◌then◌else◌,
}
use pocket_data_mining.Base.Io.{IoResult, ok, err, diverged, panicked}
use pocket_data_mining.Base.Exec.{Exec, settle}
use pocket_data_mining.Types.{UlEntry, UtilityList, twu, can_prune, is_high_utility}

-- A body is kept by `join` and fetched by `get_body`.
pub record Bodies : Type 1 where
  pub State : Type 0
  pub Body : Type 0
  pub get_body : Body → Exec State (List UlEntry)
  pub join : List ℕ → List UlEntry → List UlEntry → List UlEntry → Exec State (UtilityList × Body)

-- mining/components/traversal.rs: what the prefetcher is told.
pub record CandidateExtension : Type 0 where
  pub item : ℕ
  pub ul_page_id : ℕ
  pub twu : ℕ
  pub sum_iutils : ℕ
  pub load_cost_ns : ℕ

pub record TraversalContext : Type 0 where
  pub prefix : List ℕ
  pub depth : ℕ
  pub candidates : List CandidateExtension
  pub min_utility : ℕ

-- Where results go, which also knows the threshold; and the prefetch queue, if there is one.
pub record Sink : Type 1 where
  pub State : Type 0
  pub threshold : State → ℕ
  pub report : List ℕ → ℕ → Exec State (Unit {0})
  pub prefetch : TraversalContext → State → State

-- `skip x y t` leaves out the join of two items, `reportable` and `extensible` look at an itemset.
pub record Cuts : Type 0 where
  pub skip : ℕ → ℕ → ℕ → Bool
  pub reportable : List ℕ → Bool
  pub extensible : List ℕ → Bool

-- `*itemset.last().unwrap()`; no itemset here is empty.
abbrev pub last_item : List ℕ → ℕ
last_item [] = 0
last_item (x ∷ []) = x
last_item (x ∷ y ∷ ys) = last_item (y ∷ ys)

-- `.unwrap()` on an io::Result.
abbrev pub unwrap : {S A : Type 0} → IoResult A × S → IoResult A × S
unwrap (ok a, s) = (ok a, s)
unwrap (err e, s) = (err panicked, s)

-- A single item with its list, as `filtered` holds them.
abbrev pub Single : Type 0
Single = UtilityList × List UlEntry

module _ (B : Bodies) (R : Sink) (L : Cuts) where
  abbrev pub Session : Type 0
  Session = B.State × R.State

  abbrev pub Extension : Type 0
  Extension = UtilityList × B.Body

  abbrev pub beside_sink : {A : Type 0} → R.State → IoResult A × B.State → IoResult A × Session
  beside_sink out (r, s) = (r, (s, out))

  abbrev pub on_bodies : {A : Type 0} → Exec B.State A → Exec Session A
  on_bodies m s = beside_sink s.1 (m s.0)

  abbrev pub beside_bodies : {A : Type 0} → B.State → IoResult A × R.State → IoResult A × Session
  beside_bodies kept (r, out) = (r, (kept, out))

  -- The loop over j of the search, for the list of px.
  unfoldable pub join_all :
      ℕ → List ℕ → List UlEntry → List UlEntry → List Extension → Exec B.State (List Extension)
  join_all thresh itemset prefix_body px [] s = (ok [], s)
  join_all thresh itemset prefix_body px ((ul_py, body_py) ∷ rest) s =
      elim (L.skip (last_item itemset) (last_item ul_py.itemset) thresh) [
        | true ↦ join_all thresh itemset prefix_body px rest s
        | false ↦
            settle
              (λ py t.
                settle
                  (λ e u.
                    settle (λ es v. (ok (e ∷ es), v))
                      (join_all thresh itemset prefix_body px rest u))
                  (B.join (itemset ++ last_item ul_py.itemset ∷ []) prefix_body px py t))
              (B.get_body body_py s)
      ]

  -- A result is written where the utility is high enough.
  unfoldable pub report_high : UtilityList → Exec Session (Unit {0})
  report_high ul s =
      if is_high_utility ul (R.threshold s.1) && L.reportable ul.itemset
      then beside_bodies s.0 (R.report ul.itemset ul.sum_iutils s.1)
      else (ok tt, s)

  abbrev pub Search : Type 0
  Search = List UlEntry → List Extension → Exec Session (Unit {0})

  -- `if !next_extensions.is_empty()`
  abbrev pub explore : Search → List UlEntry → List Extension → Exec Session (Unit {0})
  explore deeper px [] s = (ok tt, s)
  explore deeper px (e ∷ es) s = deeper px (e ∷ es) s

  unfoldable pub expand :
      Search → List UlEntry → List UlEntry → List ℕ → List Extension → Exec Session (Unit {0})
  unfolding join_all
  expand deeper prefix_body px itemset rest s = elim (L.extensible itemset) [
    | true ↦
        settle (λ next t. explore deeper px next t)
          (on_bodies (join_all (R.threshold s.1) itemset prefix_body px rest) s)
    | false ↦ (ok tt, s)
  ]

  -- The body of the loop over i.
  unfoldable pub visit :
      Search → List UlEntry → UtilityList → B.Body → List Extension → Exec Session (Unit {0})
  unfolding report_high expand
  visit deeper prefix_body ul body rest s = elim (can_prune ul (R.threshold s.1)) [
    | true ↦ (ok tt, s)
    | false ↦
        settle
          (λ px t.
            settle (λ _ u. expand deeper prefix_body px ul.itemset rest u) (report_high ul t))
          (on_bodies (B.get_body body) s)
  ]

  -- The search, on as much fuel as there are extensions: the extensions of the next level are
  -- those of later ones, so they are fewer.
  unfoldable pub search : ℕ → List UlEntry → List Extension → Exec Session (Unit {0})
  unfolding visit
  search fuel prefix_body [] s = (ok tt, s)
  search zero prefix_body (e ∷ rest) s = (err diverged, s)
  search (suc fuel) prefix_body ((ul, body) ∷ rest) s =
      settle (λ _ t. search fuel prefix_body rest t)
        (visit (search fuel) prefix_body ul body rest s)

  -- The loop over j of a task: the joins of two items, whose lists are in memory.
  unfoldable pub join_singles :
      ℕ → List ℕ → List UlEntry → List Single → Exec B.State (List Extension)
  join_singles thresh itemset body_x [] s = (ok [], s)
  join_singles thresh itemset body_x ((ul_y, body_y) ∷ rest) s =
      elim (L.skip (last_item itemset) (last_item ul_y.itemset) thresh) [
        | true ↦ join_singles thresh itemset body_x rest s
        | false ↦
            settle
              (λ e u. settle (λ es v. (ok (e ∷ es), v)) (join_singles thresh itemset body_x rest u))
              (unwrap (B.join (itemset ++ last_item ul_y.itemset ∷ []) [] body_x body_y s))
      ]

  abbrev pub candidate : Extension → CandidateExtension
  candidate (ul, body) = record {
    item = last_item ul.itemset;
    ul_page_id = ul.page_id;
    twu = twu ul;
    sum_iutils = ul.sum_iutils;
    load_cost_ns = 0;
  }

  abbrev candidates_of : List Extension → List CandidateExtension
  candidates_of [] = []
  candidates_of (e ∷ es) = candidate e ∷ candidates_of es

  abbrev pub prefetched : List ℕ → List Extension → Session → Session
  prefetched itemset extensions s = (
    s.0,
    R.prefetch
        (record {
          prefix = itemset;
          depth = 1;
          candidates = candidates_of extensions;
          min_utility = R.threshold s.1;
        })
        s.1,
  )

  unfoldable pub expand_single : List ℕ → List UlEntry → List Single → Exec Session (Unit {0})
  unfolding join_singles search
  expand_single itemset body_x rest s = elim (L.extensible itemset) [
    | true ↦
        settle
          (λ next t.
            unwrap (explore (search (length next)) body_x next (prefetched itemset next t)))
          (on_bodies (join_singles (R.threshold s.1) itemset body_x rest) s)
    | false ↦ (ok tt, s)
  ]

  -- The closure that execute_tasks runs for one single item.
  unfoldable pub task : UtilityList → List UlEntry → List Single → Exec Session (Unit {0})
  unfolding report_high expand_single
  task ul_x body_x rest s = elim (can_prune ul_x (R.threshold s.1)) [
    | true ↦ (ok tt, s)
    | false ↦ settle (λ _ t. expand_single ul_x.itemset body_x rest t) (unwrap (report_high ul_x s))
  ]

  -- execute_tasks on one thread.
  unfoldable pub execute_tasks : List Single → Exec Session (Unit {0})
  unfolding task
  execute_tasks [] s = (ok tt, s)
  execute_tasks ((ul_x, body_x) ∷ rest) s =
      settle (λ _ t. execute_tasks rest t) (task ul_x body_x rest s)
