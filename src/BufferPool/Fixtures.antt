-- ===== src/BufferPool/Fixtures.antt =====
-- What the tests of the buffer pool and of its clients share: a store in memory that keeps the
-- contract of ChunkStore, and a pool of 8 bytes over it, with the LRU policy.
use pocket_data_mining.Base.{
  ℕ, ◌+◌, refl, true, false, Option, none, some, List, [], ◌∷◌, length, arith,
}
use pocket_data_mining.Base.Assoc.{Assoc, lookup, insert, remove, lookup-insert}
use pocket_data_mining.Base.Io.{IoResult, ok, err, not_found}
use pocket_data_mining.Storage.ChunkStore.{ChunkStore, StoreLaws}
use pocket_data_mining.BufferPool.Policy.Lru.{lru_new, lru}
use pocket_data_mining.BufferPool.Pool.{BufferPool, new}
use pocket_data_mining.BufferPool.Pool.View.{IsCoherent}

-- A store that keeps its pages in memory.
abbrev pub found : Option (List ℕ) → IoResult (List ℕ × Unit {0})
found none = err not_found
found (some bytes) = ok (bytes, tt)

abbrev pub mem_store : ChunkStore
mem_store = record {
  Store = ℕ × Assoc (List ℕ);
  Flags = Unit;
  no_flags = tt;
  Plain = λ _. Unit;
  write_page = λ id bytes _ s. (ok tt, (s.0, insert id bytes s.1));
  read_page = λ id s. found (lookup id s.1);
  delete_page = λ id s. (ok tt, (s.0, remove id s.1));
  page_exists = λ id s. elim (lookup id s.1) [ none ↦ false | some _ ↦ true ];
  page_byte_size = λ id s. elim (lookup id s.1) [ none ↦ none | some bytes ↦ some (length bytes) ];
  next_page_id = λ s. (s.0, (s.0 + 1, s.1));
}

pub mem_store-laws : StoreLaws mem_store
mem_store-laws = record {
  no_flags-Plain = tt;
  read-write = λ id bytes _ s _ _ _. (tt, ground (arith, lookup-insert id id bytes s.1));
  read-write_ne = λ id j bytes _ s ne. ground (arith, lookup-insert id j bytes s.1);
  read-next_page_id = λ j s. refl;
}

abbrev pub Pool : Type 0
Pool = BufferPool 0 (lru ℕ) mem_store

-- Pages 7 and 8 are in the store.
unfoldable pub empty_pool : Pool
unfolding new
empty_pool =
    new 0 (lru ℕ) mem_store 8 (9, (7, 70 ∷ 71 ∷ 72 ∷ 73 ∷ 74 ∷ []) ∷ (8, 80 ∷ 81 ∷ []) ∷ []) lru_new

pub empty_pool-IsCoherent : IsCoherent 0 (lru ℕ) mem_store empty_pool
unfolding lookup empty_pool new
empty_pool-IsCoherent = record { clean = λ id frame l d. cc; fits = λ id frame l. cc }
