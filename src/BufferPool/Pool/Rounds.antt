-- ===== src/BufferPool/Pool/Rounds.antt =====
-- The loop of make_room, seen from one round: the rule that its lemmas share.
use pocket_data_mining.Base.{ℕ, zero, suc, Option, none, some, inl, inr, Bool-cases, ltb}
use pocket_data_mining.Base.Exec.{Exec, settle-keeps}
use pocket_data_mining.Base.Words.{add_u64}
use pocket_data_mining.Storage.ChunkStore.{ChunkStore}
use pocket_data_mining.BufferPool.Policy.{EvictionPolicy}
use pocket_data_mining.BufferPool.Pool.{BufferPool, evict_one, retry, make_room}

module _ {P : Type 0} (zero_prob : P) (E : EvictionPolicy P) (C : ChunkStore)
    (K : BufferPool zero_prob E C → Type 0)
    (step : (p : BufferPool zero_prob E C) → K p → K (evict_one zero_prob E C p).1) where
  retry-keeps :
      (rest : Exec (BufferPool zero_prob E C) (Unit {0})) (o : Option ℕ)
      (q : BufferPool zero_prob E C)
      → K q
      → K (rest q).1
      → K (retry zero_prob E C rest o q).1
  retry-keeps rest none q k r = k
  retry-keeps rest (some v) q k r = r

  -- What every eviction keeps, failing or not, the loop keeps.
  pub make_room-keeps :
      (fuel page_size : ℕ) (p : BufferPool zero_prob E C)
      → K p
      → K (make_room zero_prob E C fuel page_size p).1
  unfolding make_room
  make_room-keeps zero page_size p k = k
  make_room-keeps (suc fuel) page_size p k =
      elim (Bool-cases (ltb p.budget_bytes (add_u64 p.used_bytes page_size))) [
        | inl full ↦
            rw (full, make_room)
              (settle-keeps K (retry zero_prob E C (make_room zero_prob E C fuel page_size))
                (evict_one zero_prob E C p) (step p k)
                (λ o q h.
                  retry-keeps (make_room zero_prob E C fuel page_size) o q h
                    (make_room-keeps fuel page_size q h)))
        | inr room ↦ rw (room, make_room) k
      ]
