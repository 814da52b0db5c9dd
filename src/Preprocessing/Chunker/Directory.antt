-- ===== src/Preprocessing/Chunker/Directory.antt =====
-- The directory finds a page for every transaction, in whatever way they fall into pages.
use pocket_data_mining.Base.{
  ℕ, suc, ◌+◌, ◌^◌, ◌≤◌, ◌<◌, ◌≡◌, refl, List, [], ◌∷◌, length, arith, All, ◌⊎◌, inl, inr,
  Bool-cases, ne→==_false,
}
use pocket_data_mining.Base.Io.{IoResult, ok, err}
use pocket_data_mining.Base.Exec.{settle, WhenOk, WhenOk-settle, WhenOk-mono}
use pocket_data_mining.Storage.ChunkStore.{ChunkStore}
use pocket_data_mining.Preprocessing.TwuFilter.{FilteredTransaction}
use pocket_data_mining.Preprocessing.Chunker.{
  PageDirectory, Chunker, chunker_new, after_page, page_bytes, next_page, flush_page, take_tx,
  is_full, add_transaction, add_transactions, finalize,
}
use pocket_data_mining.Preprocessing.Chunker.Ranges.{
  Finds, add_first, StartsBelow-mono, IsFilling, IsFlushed, All-flush, All-first, All-more,
}

module _ (C : ChunkStore) (tx_chunk : C.Flags) where
  abbrev Chunks : Type 0
  Chunks = Chunker C tx_chunk

  -- The state between two calls, by whether the page is empty. `room` more transactions may come.
  abbrev IsSound : Chunks → ℕ → ℕ → List ℕ → Type 0
  IsSound c room next added =
      (c.tx_count_in_page + room < 2 ^ 32)
      × (((c.tx_count_in_page ≡ 0) × IsFlushed c.directory next added)
          ⊎ ((0 < c.tx_count_in_page)
              × IsFilling c.directory c.current_page_start_tid c.current_page_end_tid next added))

  abbrev IsEmpty : Chunks → ℕ → ℕ → List ℕ → Type 0
  IsEmpty c room next added =
      (c.tx_count_in_page + room < 2 ^ 32)
      × ((c.tx_count_in_page ≡ 0) × IsFlushed c.directory next added)

  next_page-IsEmpty :
      (c : Chunks) (room next : ℕ) (added : List ℕ)
      → room < 2 ^ 32
      → IsFilling c.directory c.current_page_start_tid c.current_page_end_tid next added
      → IsEmpty (next_page C tx_chunk c) room next added
  unfolding next_page
  next_page-IsEmpty c room next added small h = (
    omega arith,
    (
      refl,
      rw
          (add_first
            (record {
              start_tid = c.current_page_start_tid;
              end_tid = c.current_page_end_tid;
              page_id = c.current_page_id;
              byte_offset = 0;
            })
            c.directory h.starts)
          (record {
            starts = (
              h.in_order,
              StartsBelow-mono c.current_page_start_tid next c.directory (omega arith) h.starts,
            );
            found = All-flush c.directory _ next added h.before_next (omega arith) h.placed;
          }),
    ),
  )

  after_page-IsEmpty :
      (c : Chunks) (room next : ℕ) (added : List ℕ) (r : IoResult (Unit {0}) × C.Store)
      → room < 2 ^ 32
      → IsFilling c.directory c.current_page_start_tid c.current_page_end_tid next added
      → WhenOk (λ _ d. IsEmpty d room next added) (after_page C tx_chunk c r)
  after_page-IsEmpty c room next added (ok _, store) small h =
      next_page-IsEmpty (record c { store = store }) room next added small h
  after_page-IsEmpty c room next added (err e, store) small h = tt

  flush_page-IsEmpty :
      (c : Chunks) (room next : ℕ) (added : List ℕ)
      → IsSound c room next added
      → WhenOk (λ _ d. IsEmpty d room next added) (flush_page C tx_chunk c)
  unfolding flush_page
  flush_page-IsEmpty c room next added (small, inl (none_yet, flushed)) =
      rw (none_yet) (omega arith, (refl, flushed))
  flush_page-IsEmpty c room next added (small, inr (some_yet, filling)) =
      rw (ne→==_false c.tx_count_in_page 0 (λ e. absurd (omega (arith, e)))) (
        after_page-IsEmpty (record c { current_page_buf = page_bytes C tx_chunk c }) room next added
          (C.write_page c.current_page_id (page_bytes C tx_chunk c) tx_chunk c.store) (omega arith)
          filling)

  take_tx-IsSound :
      (tx : FilteredTransaction) (c : Chunks) (room next : ℕ) (added : List ℕ)
      → next ≤ tx.tid
      → IsSound c (suc room) next added
      → IsSound (take_tx C tx_chunk tx c) room (suc tx.tid) (tx.tid ∷ added)
  unfolding take_tx
  take_tx-IsSound tx c room next added le (small, inl (none_yet, flushed)) = rw (none_yet) (
    omega arith,
    inr (
      omega arith,
      record {
        starts = StartsBelow-mono next tx.tid c.directory le flushed.starts;
        before_next = omega arith;
        in_order = omega arith;
        placed = (
          inr (omega arith, omega arith),
          All-first c.directory next tx.tid added le flushed.found,
        );
      },
    ),
  )
  take_tx-IsSound tx c room next added le (small, inr (some_yet, filling)) =
      rw (ne→==_false c.tx_count_in_page 0 (λ e. absurd (omega (arith, e)))) (
        omega arith,
        inr (
          omega arith,
          record {
            starts = filling.starts;
            before_next = omega arith;
            in_order = omega (arith, filling.in_order);
            placed = (
              inr (omega (arith, filling.in_order), omega arith),
              All-more c.directory c.current_page_start_tid c.current_page_end_tid tx.tid added
                  (omega (arith, filling.before_next)) filling.placed,
            );
          },
        ),
      )

  add_transaction-IsSound :
      (tx : FilteredTransaction) (c : Chunks) (room next : ℕ) (added : List ℕ)
      → next ≤ tx.tid
      → IsSound c (suc room) next added
      → WhenOk
          (λ _ d. IsSound d room (suc tx.tid) (tx.tid ∷ added))
          (add_transaction C tx_chunk tx c)
  unfolding add_transaction
  add_transaction-IsSound tx c room next added le sound =
      elim (Bool-cases (is_full C tx_chunk tx c)) [
        | inl full ↦ rw full (
            WhenOk-settle _ _ (flush_page C tx_chunk c) (
              WhenOk-mono _ _ (flush_page C tx_chunk c)
                (λ _ d (small, empty). take_tx-IsSound tx d room next added le (small, inl empty))
                (flush_page-IsEmpty c (suc room) next added sound)))
        | inr fits ↦ rw fits (take_tx-IsSound tx c room next added le sound)
      ]

  -- Transaction ids rise, and start at `next` or later.
  abbrev pub InOrder : ℕ → List FilteredTransaction → Type 0
  InOrder next [] = Unit
  InOrder next (tx ∷ txs) = (next ≤ tx.tid) × InOrder (suc tx.tid) txs

  abbrev tids_after : List ℕ → List FilteredTransaction → List ℕ
  tids_after added [] = added
  tids_after added (tx ∷ txs) = tids_after (tx.tid ∷ added) txs

  All-tids_after :
      (K : ℕ → Type 0) (added : List ℕ) (txs : List FilteredTransaction)
      → All K (tids_after added txs)
      → All K added × All (λ tx. K tx.tid) txs
  All-tids_after K added [] h = (h, tt)
  All-tids_after K added (tx ∷ txs) h =
      let (old, later) = All-tids_after K (tx.tid ∷ added) txs h in (old.1, (old.0, later))

  add_transactions-IsSound :
      (txs : List FilteredTransaction) (c : Chunks) (next : ℕ) (added : List ℕ)
      → InOrder next txs
      → IsSound c (length txs) next added
      → WhenOk
          (λ _ d. (bound : ℕ) × IsSound d 0 bound (tids_after added txs))
          (add_transactions C tx_chunk txs c)
  unfolding add_transactions
  add_transactions-IsSound [] c next added o sound = (next, sound)
  add_transactions-IsSound (tx ∷ txs) c next added (le, o) sound =
      WhenOk-settle _ _ (add_transaction C tx_chunk tx c) (
        WhenOk-mono _ _ (add_transaction C tx_chunk tx c)
          (λ _ d s. add_transactions-IsSound txs d (suc tx.tid) (tx.tid ∷ added) o s)
          (add_transaction-IsSound tx c (length txs) next added le sound))

  found_all :
      (txs : List FilteredTransaction) (next : ℕ) (dir : PageDirectory)
      → All (λ tid. Finds tid dir × (tid < next)) (tids_after [] txs)
      → All (λ tx. Finds tx.tid dir) txs
  found_all txs next dir h =
      only txs (All-tids_after (λ tid. Finds tid dir × (tid < next)) [] txs h).1
    where
      only :
          (txs : List FilteredTransaction)
          → All (λ tx. Finds tx.tid dir × (tx.tid < next)) txs
          → All (λ tx. Finds tx.tid dir) txs
      only [] h = tt
      only (tx ∷ txs) (h, hs) = (h.0, only txs hs)

  -- If all transactions were taken and the last page was written, then the directory finds a page for
  -- each of them, whose range holds its id, however they fell into pages. The ids rise, and there
  -- are fewer than 2 ^ 32 of them.
  pub find_page-finalize :
      (page_size : ℕ) (store : C.Store) (txs : List FilteredTransaction)
      → InOrder 0 txs
      → length txs < 2 ^ 32
      → WhenOk
          (λ dir _. All (λ tx. Finds tx.tid dir) txs)
          (settle
            (λ _ d. finalize C tx_chunk d)
            (add_transactions C tx_chunk txs (chunker_new C tx_chunk page_size store)))
  unfolding finalize chunker_new
  find_page-finalize page_size store txs o small =
      WhenOk-settle _ _ (add_transactions C tx_chunk txs (chunker_new C tx_chunk page_size store)) (
        WhenOk-mono _ _ (add_transactions C tx_chunk txs (chunker_new C tx_chunk page_size store))
          (λ _ d (bound, sound). WhenOk-settle _ _ (flush_page C tx_chunk d) (
            WhenOk-mono _ _ (flush_page C tx_chunk d)
              (λ _ e (_, (_, flushed)). found_all txs bound e.directory flushed.found)
              (flush_page-IsEmpty d 0 bound (tids_after [] txs) sound)))
          (add_transactions-IsSound txs (chunker_new C tx_chunk page_size store) 0 [] o
            (omega arith, inl (refl, record { starts = tt; found = tt }))))
