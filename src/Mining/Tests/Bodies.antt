-- ===== src/Mining/Tests/Bodies.antt =====
-- Bodies of joined lists, in memory and on disk, over the pool of BufferPool/Tests.antt.
use pocket_data_mining.Base.{ℕ, ◌≡◌, refl, List, [], ◌∷◌, arith, All}
use pocket_data_mining.Base.Assoc.{lookup}
use pocket_data_mining.Base.Io.{ok}
use pocket_data_mining.Base.Exec.{Outcome, WhenOk}
use pocket_data_mining.Types.{UlEntry}
use pocket_data_mining.BufferPool.Pool.{new}
use pocket_data_mining.BufferPool.Pool.View.{content, IsCoherent}
use pocket_data_mining.BufferPool.Pool.Coherence.{Preserves}
use pocket_data_mining.BufferPool.Policy.Lru.{lru, lru_new}
use pocket_data_mining.BufferPool.Fixtures.{mem_store, mem_store-laws, Pool}
use pocket_data_mining.Mining.UlJoin.{serialize_ul_body, join_entries, join_pairs, push_entry}
use pocket_data_mining.Mining.UlJoin.Bytes.{EntryFits}
use pocket_data_mining.Mining.UlJoin.Materialize.{
  on_disk, join_utility_lists, get_body, get_body-join, get_body-evicted,
}

abbrev two_entries : List UlEntry
two_entries =
    record { tid = 1; iutils = 35; rutils = 10 } ∷ record { tid = 3; iutils = 11; rutils = 0 } ∷ []

two_entries-EntryFits : All EntryFits two_entries
two_entries-EntryFits = (
  record { tid_fits = omega arith; iutils_fits = omega arith; rutils_fits = omega arith },
  (record { tid_fits = omega arith; iutils_fits = omega arith; rutils_fits = omega arith }, tt),
)

-- The bytes of the two entries are page 7 of the store.
abbrev stored_pool : Pool
unfolding new serialize_ul_body
stored_pool = new 0 (lru ℕ) mem_store 4096 (9, (7, serialize_ul_body two_entries) ∷ []) lru_new

stored_pool-IsCoherent : IsCoherent 0 (lru ℕ) mem_store stored_pool
unfolding lookup stored_pool new
stored_pool-IsCoherent = record { clean = λ id frame l d. cc; fits = λ id frame l. cc }

shown_7 : content 0 (lru ℕ) mem_store stored_pool 7 ≡ ok (serialize_ul_body two_entries)
unfolding content lookup stored_pool new serialize_ul_body
shown_7 = refl

get_body-evicted_example :
    Outcome
      (λ es _. es ≡ two_entries)
      (λ _ r. Preserves 0 (lru ℕ) mem_store mem_store-laws stored_pool r)
      (get_body 0 (lru ℕ) mem_store 100 (on_disk 7) stored_pool)
get_body-evicted_example =
    get_body-evicted 0 (lru ℕ) mem_store mem_store-laws 100 7 two_entries stored_pool
      two_entries-EntryFits stored_pool-IsCoherent shown_7 (omega arith) (omega arith)

abbrev first_list : List UlEntry
first_list =
    record { tid = 1; iutils = 15; rutils = 20 } ∷ record { tid = 2; iutils = 4; rutils = 4 } ∷ []

abbrev second_list : List UlEntry
second_list =
    record { tid = 2; iutils = 25; rutils = 10 } ∷ record { tid = 3; iutils = 7; rutils = 0 } ∷ []

joined-EntryFits : All EntryFits (join_entries [] first_list second_list).result
unfolding join_entries join_pairs push_entry
joined-EntryFits =
    (record { tid_fits = omega arith; iutils_fits = omega arith; rutils_fits = omega arith }, tt)

get_body-join_example :
    WhenOk
      (λ (ul, body) q.
        ((get_body 0 (lru ℕ) mem_store 100 body q).0
          ≡ ok (join_entries [] first_list second_list).result)
        × (ul.itemset ≡ 4 ∷ 6 ∷ [])
        × (ul.sum_iutils ≡ (join_entries [] first_list second_list).sum_iutils)
        × (ul.sum_rutils ≡ (join_entries [] first_list second_list).sum_rutils))
      (join_utility_lists 0 (lru ℕ) mem_store (4 ∷ 6 ∷ []) [] first_list second_list stored_pool)
get_body-join_example =
    get_body-join 0 (lru ℕ) mem_store 100 (4 ∷ 6 ∷ []) [] first_list second_list stored_pool
      joined-EntryFits
