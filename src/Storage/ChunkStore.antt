-- ===== src/Storage/ChunkStore.antt =====
-- The trait ChunkStore of storage/chunk_store.rs with what its clients rely on: a page that was
-- written is read back, and writing a page leaves the others alone.
use pocket_data_mining.Base.{ℕ, ◌+◌, ◌<◌, ◌^◌, ◌≡◌, ◌≢◌, Bool, Option, List, length}
use pocket_data_mining.Base.Io.{IoResult, ok}
use pocket_data_mining.Base.Exec.{Exec, WhenOk, Ends, Answers}

pub record ChunkStore : Type 1 where
  pub Store : Type 0
  pub Flags : Type 0
  pub no_flags : Flags
  -- What a caller may pass: no flag that the store sets by itself.
  pub Plain : Flags → Type 0
  pub write_page : ℕ → List ℕ → Flags → Exec Store (Unit {0})
  pub read_page : ℕ → Store → IoResult (List ℕ × Flags)
  pub delete_page : ℕ → Exec Store (Unit {0})
  pub page_exists : ℕ → Store → Bool
  pub page_byte_size : ℕ → Store → Option ℕ
  pub next_page_id : Store → ℕ × Store

-- The contract. A PageId is a u64, and the header keeps the length of a payload in a u32.
pub record StoreLaws (C : ChunkStore) : Type 0 where
  pub no_flags-Plain : C.Plain C.no_flags
  pub read-write :
      (id : ℕ) (data_bytes : List ℕ) (flags : C.Flags) (s : C.Store)
      → C.Plain flags
      → id < 2 ^ 64
      → length data_bytes < 2 ^ 32
      → WhenOk
          (λ _ t. (f : C.Flags) × (C.read_page id t ≡ ok (data_bytes, f)))
          (C.write_page id data_bytes flags s)
  pub read-write_ne :
      (id j : ℕ) (data_bytes : List ℕ) (flags : C.Flags) (s : C.Store)
      → id ≢ j
      → C.read_page j (C.write_page id data_bytes flags s).1 ≡ C.read_page j s
  pub read-next_page_id :
      (j : ℕ) (s : C.Store) → C.read_page j (C.next_page_id s).1 ≡ C.read_page j s

-- What a client that makes pages of its own relies on besides: the ids come from a counter that goes
-- up by one and that no write moves. `diverged` marks a loop of the model, so no call returns it.
pub record PageIdLaws (C : ChunkStore) : Type 0 where
  pub counter : C.Store → ℕ
  pub id_lem : (s : C.Store) → (C.next_page_id s).0 ≡ counter s
  pub counter-next_page_id :
      (s : C.Store) → counter s + 1 < 2 ^ 64 → counter (C.next_page_id s).1 ≡ counter s + 1
  pub counter-write_page :
      (id : ℕ) (data_bytes : List ℕ) (flags : C.Flags) (s : C.Store)
      → counter (C.write_page id data_bytes flags s).1 ≡ counter s
  pub write_page-Ends :
      (id : ℕ) (data_bytes : List ℕ) (flags : C.Flags) (s : C.Store)
      → Ends (λ _ _. Unit {0}) (C.write_page id data_bytes flags s)
  pub read_page-Answers : (id : ℕ) (s : C.Store) → Answers (C.read_page id s)
