-- ===== src/BufferPool/Pool/View.antt =====
-- What a client sees of the pool: for each page id its bytes, resident or not.
use pocket_data_mining.Base.{ℕ, ◌<◌, ◌^◌, ◌≡◌, false, Option, none, some, List, length}
use pocket_data_mining.Base.Assoc.{lookup}
use pocket_data_mining.Base.Io.{IoResult, ok, err}
use pocket_data_mining.Storage.ChunkStore.{ChunkStore}
use pocket_data_mining.BufferPool.Policy.{EvictionPolicy}
use pocket_data_mining.BufferPool.Pool.{Frame, BufferPool}

abbrev pub page_of : {F : Type 0} → IoResult (List ℕ × F) → IoResult (List ℕ)
page_of (ok (bytes, _)) = ok bytes
page_of (err e) = err e

module _ {P : Type 0} (zero_prob : P) (E : EvictionPolicy P) (C : ChunkStore) where
  abbrev pub content_of : Option (Frame P) → IoResult (List ℕ) → IoResult (List ℕ)
  content_of (some frame) stored = ok frame.data_bytes
  content_of none stored = stored

  -- The bytes of a page: of its frame if it is resident, else of the store.
  unfoldable pub content : BufferPool zero_prob E C → ℕ → IoResult (List ℕ)
  content p id = content_of (lookup id p.frames) (page_of (C.read_page id p.store))

  -- A frame that is not dirty agrees with the store, and every frame can be stored.
  pub record IsCoherent (p : BufferPool zero_prob E C) : Type 0 where
    pub clean :
        (id : ℕ) (frame : Frame P)
        → lookup id p.frames ≡ some frame
        → frame.meta.dirty ≡ false
        → page_of (C.read_page id p.store) ≡ ok frame.data_bytes
    pub fits :
        (id : ℕ) (frame : Frame P)
        → lookup id p.frames ≡ some frame
        → (id < 2 ^ 64) × (length frame.data_bytes < 2 ^ 32)
