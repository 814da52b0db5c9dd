-- ===== src/Mining/Search/Lawful.antt =====
-- What the search relies on: bodies that are fetched as they were joined, and a sink that keeps what
-- it was given. A failure is one of the parts' own, never that of a loop without fuel. The bodies of
-- the buffer pool are filled in by Mining/Algorithms/PoolBodies/Lawful.antt.
use pocket_data_mining.Base.{ℕ, suc, ◌≤◌, ◌≡◌, List, [], ◌∷◌, ◌++◌}
use pocket_data_mining.Base.Io.{IoResult, ok, err}
pub use pocket_data_mining.Base.Exec.{Ends, Ends-mono, Ends-settle}
use pocket_data_mining.Types.{UlEntry}
use pocket_data_mining.Mining.UlJoin.{join_entries}
use pocket_data_mining.Mining.Search.{Bodies, Sink, TraversalContext, unwrap}
use pocket_data_mining.Mining.Search.Nodes.{Describes, IsStorable}
use pocket_data_mining.Mining.Search.Reference.{Found}

module _ {S A : Type 0} where
  pub Ends-unwrap : (Q : A → S → Type 0) (r : IoResult A × S) → Ends Q r → Ends Q (unwrap r)
  Ends-unwrap Q (ok a, s) h = h
  Ends-unwrap Q (err e, s) h = λ q. cc

-- `Good n s`: the state is sound, with room for n more joins. `Shows s b es`: the body is there.
pub record BodiesLaws (B : Bodies) : Type 1 where
  pub Good : ℕ → B.State → Type 0
  pub Shows : B.State → B.Body → List UlEntry → Type 0
  pub Good-mono : (n m : ℕ) (s : B.State) → n ≤ m → Good m s → Good n s
  pub get_body_lem :
      (n : ℕ) (s : B.State) (b : B.Body) (es : List UlEntry)
      → Good n s
      → IsStorable es
      → Shows s b es
      → Ends
          (λ found t.
            Good n t
            × (found ≡ es)
            × ((c : B.Body) (fs : List UlEntry) → Shows s c fs → Shows t c fs))
          (B.get_body b s)
  pub join_lem :
      (n : ℕ) (s : B.State) (itemset : List ℕ) (ps px py : List UlEntry)
      → Good (suc n) s
      → IsStorable (join_entries ps px py).result
      → Ends
          (λ e t.
            Good n t
            × Describes e.0 (itemset, (join_entries ps px py).result)
            × Shows t e.1 (join_entries ps px py).result
            × ((c : B.Body) (fs : List UlEntry) → Shows s c fs → Shows t c fs))
          (B.join itemset ps px py s)

-- A sink with a fixed threshold.
pub record SinkLaws (R : Sink) (min_utility : ℕ) : Type 0 where
  pub found : R.State → List Found
  pub threshold_lem : (s : R.State) → R.threshold s ≡ min_utility
  pub report_lem :
      (itemset : List ℕ) (utility : ℕ) (s : R.State)
      → Ends (λ _ t. found t ≡ found s ++ (itemset, utility) ∷ []) (R.report itemset utility s)
  pub prefetch_lem : (c : TraversalContext) (s : R.State) → found (R.prefetch c s) ≡ found s
