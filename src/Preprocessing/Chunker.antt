-- ===== src/Preprocessing/Chunker.antt =====
-- preprocessing/chunker.rs: filtered transactions in pages of a chunk store, with a directory from
-- transaction ids to pages.
pub mod Ranges
pub mod Directory
use pocket_data_mining.Base.{
  ℕ, zero, suc, ◌+◌, ◌%◌, Bool, true, false, ◌&&◌, Option, none, some, List, [], ◌∷◌, ◌++◌, length,
  drop, ltb, leb, ◌==◌, if◌then◌else◌,
}
use pocket_data_mining.Base.Bytes.{to_le_bytes}
use pocket_data_mining.Base.Io.{IoResult, ok, err}
use pocket_data_mining.Base.Exec.{Exec, settle}
use pocket_data_mining.Base.Words.{u32_mod, add_u32, add_u64}
use pocket_data_mining.Types.{ItemEntry}
use pocket_data_mining.Storage.ChunkStore.{ChunkStore}
use pocket_data_mining.Preprocessing.TwuFilter.{FilteredTransaction}

pub record PageDirectoryEntry : Type 0 where
  pub start_tid : ℕ
  pub end_tid : ℕ
  pub page_id : ℕ
  pub byte_offset : ℕ

-- The map by start_tid, from its greatest key down.
abbrev pub PageDirectory : Type 0
PageDirectory = List PageDirectoryEntry

unfoldable pub add : PageDirectoryEntry → PageDirectory → PageDirectory
add e [] = e ∷ []
add e (d ∷ ds) =
    let rest = add e ds in
    if ltb d.start_tid e.start_tid
    then e ∷ d ∷ ds
    else (if d.start_tid == e.start_tid then e ∷ ds else d ∷ rest)

abbrev pub within_page : ℕ → PageDirectoryEntry → Option PageDirectoryEntry
within_page tid e = if leb tid e.end_tid then some e else none

-- The entry with the largest start_tid up to `tid`, if it reaches that far.
unfoldable pub find_page : ℕ → PageDirectory → Option PageDirectoryEntry
find_page tid [] = none
find_page tid (e ∷ es) = if leb e.start_tid tid then within_page tid e else find_page tid es

abbrev pub item_bytes : List ItemEntry → List ℕ
item_bytes [] = []
item_bytes (e ∷ es) =
    to_le_bytes 4 e.item ++ (0 ∷ 0 ∷ 0 ∷ 0 ∷ []) ++ to_le_bytes 8 e.utility ++ item_bytes es

unfoldable pub serialize_tx : FilteredTransaction → List ℕ
serialize_tx tx =
    to_le_bytes 4 tx.tid
    ++ to_le_bytes 8 tx.transaction_utility
    ++ to_le_bytes 4 (length tx.items % u32_mod)
    ++ item_bytes tx.items

-- `tx_chunk` is PageFlags::TX_CHUNK.
module _ (C : ChunkStore) (tx_chunk : C.Flags) where
  pub record Chunker : Type 0 where
    pub store : C.Store
    pub page_size_bytes : ℕ
    pub current_page_buf : List ℕ
    pub current_page_id : ℕ
    pub current_page_start_tid : ℕ
    pub current_page_end_tid : ℕ
    pub tx_count_in_page : ℕ
    pub directory : PageDirectory

  unfoldable pub chunker_new : ℕ → C.Store → Chunker
  chunker_new page_size_bytes store =
      let (page_id, store1) = C.next_page_id store in
      record {
        store = store1;
        page_size_bytes = page_size_bytes;
        current_page_buf = to_le_bytes 4 0;
        current_page_id = page_id;
        current_page_start_tid = 0;
        current_page_end_tid = 0;
        tx_count_in_page = 0;
        directory = [];
      }

  -- The page as it is written, with the count in its first four bytes.
  abbrev pub page_bytes : Chunker → List ℕ
  page_bytes c = to_le_bytes 4 c.tx_count_in_page ++ drop 4 c.current_page_buf

  unfoldable pub next_page : Chunker → Chunker
  unfolding add
  next_page c =
      let (page_id, store1) = C.next_page_id c.store in
      record c {
        store = store1;
        current_page_id = page_id;
        current_page_buf = to_le_bytes 4 0;
        tx_count_in_page = 0;
        directory =
            add
              (record {
                start_tid = c.current_page_start_tid;
                end_tid = c.current_page_end_tid;
                page_id = c.current_page_id;
                byte_offset = 0;
              })
              c.directory;
      }

  abbrev pub after_page : Chunker → IoResult (Unit {0}) × C.Store → IoResult (Unit {0}) × Chunker
  after_page c (ok _, store) = (ok tt, next_page (record c { store = store }))
  after_page c (err e, store) = (err e, record c { store = store })

  unfoldable pub flush_page : Exec Chunker (Unit {0})
  unfolding next_page
  flush_page c =
      if c.tx_count_in_page == 0
      then (ok tt, c)
      else after_page (record c { current_page_buf = page_bytes c })
          (C.write_page c.current_page_id (page_bytes c) tx_chunk c.store)

  -- The page takes the transaction.
  unfoldable pub take_tx : FilteredTransaction → Chunker → Chunker
  unfolding serialize_tx
  take_tx tx c = record c {
    current_page_start_tid = if c.tx_count_in_page == 0 then tx.tid else c.current_page_start_tid;
    current_page_end_tid = tx.tid;
    tx_count_in_page = add_u32 c.tx_count_in_page 1;
    current_page_buf = c.current_page_buf ++ serialize_tx tx;
  }

  abbrev pub is_full : FilteredTransaction → Chunker → Bool
  is_full tx c =
      ltb 0 c.tx_count_in_page
      && ltb c.page_size_bytes (length c.current_page_buf + length (serialize_tx tx))

  unfoldable pub add_transaction : FilteredTransaction → Exec Chunker (Unit {0})
  unfolding flush_page take_tx
  add_transaction tx c =
      settle (λ _ d. (ok tt, take_tx tx d)) (if is_full tx c then flush_page c else (ok tt, c))

  unfoldable pub finalize : Chunker → IoResult PageDirectory × Chunker
  unfolding flush_page
  finalize c = settle (λ _ d. (ok d.directory, d)) (flush_page c)

  -- Any number of calls, one for each transaction.
  unfoldable pub add_transactions : List FilteredTransaction → Exec Chunker (Unit {0})
  unfolding add_transaction
  add_transactions [] c = (ok tt, c)
  add_transactions (tx ∷ txs) c = settle (λ _ d. add_transactions txs d) (add_transaction tx c)
