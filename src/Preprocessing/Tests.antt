-- ===== src/Preprocessing/Tests.antt =====
-- The filter and the chunker at concrete inputs.
mod Lines
use pocket_data_mining.Base.{
  ℕ, refl, ◌%◌, ◌≡◌, not, ◌&&◌, some, none, List, [], ◌∷◌, if◌then◌else◌, All, arith,
}
use pocket_data_mining.Base.Assoc.{lookup, insert}
use pocket_data_mining.Base.Bytes.{to_le_bytes}
use pocket_data_mining.Base.Words.{u64_mod, lt_i64}
use pocket_data_mining.Types.{RawTransaction}
use pocket_data_mining.Base.Io.{IoResult, ok}
use pocket_data_mining.Base.Exec.{WhenOk, settle}
use pocket_data_mining.BufferPool.Fixtures.{mem_store}
use pocket_data_mining.Preprocessing.Chunker.{
  PageDirectory, Chunker, add, serialize_tx, chunker_new, next_page, flush_page, take_tx,
  add_transaction, add_transactions, finalize,
}
use pocket_data_mining.Preprocessing.Chunker.Ranges.{Finds}
use pocket_data_mining.Preprocessing.Chunker.Directory.{find_page-finalize}
use pocket_data_mining.Preprocessing.TwuFilter.{FilteredTransaction, compute}
use pocket_data_mining.Preprocessing.TwuFilter.Compute.{occurs, shared_utility, lookup-compute}

abbrev two_baskets : List RawTransaction
two_baskets =
    record {
      tid = 0;
      transaction_utility = 100;
      items = record { item = 1; utility = 30 } ∷ record { item = 2; utility = 70 } ∷ [];
    }
    ∷ record {
      tid = 1;
      transaction_utility = 200;
      items = record { item = 1; utility = 50 } ∷ record { item = 3; utility = 150 } ∷ [];
    }
    ∷ []

lookup-compute_example : lookup 1 (compute (record { min_utility = 150 }) two_baskets).twu ≡ (
    if occurs 1 two_baskets && not (lt_i64 (shared_utility 1 two_baskets % u64_mod) 150)
    then some (shared_utility 1 two_baskets % u64_mod)
    else none)
lookup-compute_example = lookup-compute 1 150 two_baskets

abbrev two_filtered : List FilteredTransaction
two_filtered =
    record {
      tid = 4;
      transaction_utility = 100;
      items = record { item = 1; utility = 30 } ∷ record { item = 2; utility = 70 } ∷ [];
    }
    ∷ record { tid = 9; transaction_utility = 50; items = record { item = 3; utility = 50 } ∷ [] }
    ∷ []

abbrev chunked : ℕ → IoResult PageDirectory × Chunker mem_store mem_store.no_flags
chunked page_size =
    settle (λ _ d. finalize mem_store mem_store.no_flags d)
      (add_transactions mem_store mem_store.no_flags two_filtered
        (chunker_new mem_store mem_store.no_flags page_size (9, [])))

-- A page of 60 bytes holds one of them, a page of 4096 both.
small_pages :
    (chunked 60).0
    ≡ ok (
        record { start_tid = 9; end_tid = 9; page_id = 10; byte_offset = 0 }
        ∷ record { start_tid = 4; end_tid = 4; page_id = 9; byte_offset = 0 }
        ∷ [])
unfolding finalize add_transactions add_transaction chunker_new flush_page take_tx next_page add
    serialize_tx insert to_le_bytes
small_pages = refl

large_page :
    (chunked 4096).0 ≡ ok (record { start_tid = 4; end_tid = 9; page_id = 9; byte_offset = 0 } ∷ [])
unfolding finalize add_transactions add_transaction chunker_new flush_page take_tx next_page add
    serialize_tx insert to_le_bytes
large_page = refl

find_page-finalize_example :
    WhenOk (λ dir _. All (λ tx. Finds tx.tid dir) two_filtered) (chunked 60)
find_page-finalize_example =
    find_page-finalize mem_store mem_store.no_flags 60 (9, []) two_filtered
      (omega arith, (omega arith, tt)) (omega arith)
