-- ===== src/Mining/Algorithms/Parts.antt =====
-- What the algorithms are put together from: bodies in the buffer pool, results that go to a writer,
-- and what each of them cuts off.
use pocket_data_mining.Base.{ℕ, true, false, ◌&&◌, List, [], ◌∷◌, ◌++◌, length, ltb, leb}
use pocket_data_mining.Base.Io.{IoResult, ok, err}
use pocket_data_mining.Base.Exec.{Exec}
use pocket_data_mining.Base.Words.{add_u64}
use pocket_data_mining.Types.{UlEntry}
use pocket_data_mining.Storage.ChunkStore.{ChunkStore}
use pocket_data_mining.BufferPool.Policy.{EvictionPolicy}
use pocket_data_mining.BufferPool.Pool.{BufferPool}
use pocket_data_mining.Mining.UlJoin.Materialize.{UlBody, join_utility_lists, get_body}
use pocket_data_mining.Mining.Eucs.{Eucs, can_prune}
use pocket_data_mining.Mining.Search.{Bodies, Sink, Cuts, TraversalContext}
use pocket_data_mining.Mining.Search.Reference.{Found}

-- `elapsed_ns` is the time that a load takes, in whatever state.
module _ {P : Type 0} (zero_prob : P) (E : EvictionPolicy P) (C : ChunkStore) where
  abbrev pub pool_bodies : (BufferPool zero_prob E C → ℕ) → Bodies
  pool_bodies elapsed_ns = record {
    State = BufferPool zero_prob E C;
    Body = UlBody;
    get_body = λ body p. get_body zero_prob E C (elapsed_ns p) body p;
    join = join_utility_lists zero_prob E C;
  }

  -- Each file has its own copy of get_body.
  abbrev pub hui_miner_get_body : ℕ → UlBody → Exec (BufferPool zero_prob E C) (List UlEntry)
  hui_miner_get_body = get_body zero_prob E C

  abbrev pub hup_miner_get_body : ℕ → UlBody → Exec (BufferPool zero_prob E C) (List UlEntry)
  hup_miner_get_body = get_body zero_prob E C

  abbrev pub mhui_miner_get_body : ℕ → UlBody → Exec (BufferPool zero_prob E C) (List UlEntry)
  mhui_miner_get_body = get_body zero_prob E C

  abbrev pub fhm_plus_get_body : ℕ → UlBody → Exec (BufferPool zero_prob E C) (List UlEntry)
  fhm_plus_get_body = get_body zero_prob E C

  abbrev pub tku_get_body : ℕ → UlBody → Exec (BufferPool zero_prob E C) (List UlEntry)
  tku_get_body = get_body zero_prob E C

  abbrev pub tko_get_body : ℕ → UlBody → Exec (BufferPool zero_prob E C) (List UlEntry)
  tko_get_body = get_body zero_prob E C

  abbrev pub rept_get_body : ℕ → UlBody → Exec (BufferPool zero_prob E C) (List UlEntry)
  rept_get_body = get_body zero_prob E C

-- The writer of a task (WriterProxy), and the queue that takes predictions, with its predictor.
pub record Outputs : Type 1 where
  pub State : Type 0
  pub write_hui : List ℕ → ℕ → Exec State (Unit {0})
  pub submit : TraversalContext → State → State

-- `ctx.min_utility`, `writer.write_hui(..)` and the counter `huis_found`.
module _ (O : Outputs) where
  abbrev pub Counted : Type 0
  Counted = O.State × ℕ

  abbrev pub counted : ℕ → IoResult (Unit {0}) × O.State → IoResult (Unit {0}) × Counted
  counted huis_found (ok _, out) = (ok tt, (out, add_u64 huis_found 1))
  counted huis_found (err e, out) = (err e, (out, huis_found))

  unfoldable pub write_counted : List ℕ → ℕ → Exec Counted (Unit {0})
  write_counted itemset utility s = counted s.1 (O.write_hui itemset utility s.0)

  abbrev pub exact_sink : ℕ → Sink
  exact_sink min_utility = record {
    State = Counted;
    threshold = λ _. min_utility;
    report = write_counted;
    prefetch = λ c s. (O.submit c s.0, s.1);
  }

-- WriterProxy::Parallel: results are sent down a channel. Without a queue there is no prefetch.
abbrev pub channel : Outputs
channel = record {
  State = List Found;
  write_hui = λ itemset utility sent. (ok tt, sent ++ (itemset, utility) ∷ []);
  submit = λ _ sent. sent;
}

abbrev pub no_cuts : Cuts
no_cuts = record { skip = λ _ _ _. false; reportable = λ _. true; extensible = λ _. true }

abbrev pub eucs_cuts : Eucs → Cuts
eucs_cuts eucs = record {
  skip = λ x y t. can_prune x y t eucs;
  reportable = λ _. true;
  extensible = λ _. true;
}

-- FHM+ bounds the length of what it reports.
abbrev pub length_cuts : ℕ → ℕ → Eucs → Cuts
length_cuts min_length max_length eucs = record {
  skip = λ x y t. can_prune x y t eucs;
  reportable = λ itemset. leb min_length (length itemset) && leb (length itemset) max_length;
  extensible = λ itemset. ltb (length itemset) max_length;
}
