-- ===== src/BufferPool/Tests.antt =====
-- The buffer pool at concrete inputs: a budget of 8 bytes over a store in memory, with the LRU
-- policy.
use pocket_data_mining.Base.{
  ℕ, ◌+◌, ◌-◌, ◌<◌, ◌≤◌, ◌^◌, ◌≡◌, refl, none, some, List, [], ◌∷◌, length, arith, inl,
}
use pocket_data_mining.Base.Assoc.{lookup, insert, remove, weight, Distinct}
use pocket_data_mining.Base.Io.{ok}
use pocket_data_mining.Base.Exec.{Outcome}
use pocket_data_mining.Types.{PageMeta, PageMeta_new}
use pocket_data_mining.BufferPool.Fixtures.{
  mem_store, mem_store-laws, Pool, empty_pool, empty_pool-IsCoherent,
}
use pocket_data_mining.BufferPool.Policy.Lru.{
  LruPolicy, lru, lru-PolicyLaws, on_access, on_evict, pick_victim, scan, IsCandidate,
  pick_victim-least,
}
use pocket_data_mining.BufferPool.Pool.{Frame, new, make_room, evict_one, flush}
use pocket_data_mining.BufferPool.Pool.Pin.{pin, insert_page, enough_fuel, new_frame, pinned_again}
use pocket_data_mining.BufferPool.Pool.Accounts.{held, IsAccounted}
use pocket_data_mining.BufferPool.Pool.Budget.{
  WithinBudget, pin-WithinBudget, insert_page-WithinBudget, insert_page_resident,
}
use pocket_data_mining.BufferPool.Pool.Termination.{Runs, make_room-Runs}
use pocket_data_mining.BufferPool.Pool.Pinned.{pin-IsResident, insert_page-IsResident}
use pocket_data_mining.BufferPool.Pool.View.{page_of, content, IsCoherent}
use pocket_data_mining.BufferPool.Pool.Coherence.{Preserves, evict_one-Preserves}
use pocket_data_mining.BufferPool.Pool.Transparency.{
  Shows, ContentFits, Written, pin-Shows, insert_page-Written,
}

insert_page-Written_example :
    Outcome
      (λ _ q. Written 0 (lru ℕ) mem_store mem_store-laws empty_pool 5 (1 ∷ 2 ∷ 3 ∷ 4 ∷ 5 ∷ []) q)
      (λ _ q. Preserves 0 (lru ℕ) mem_store mem_store-laws empty_pool q)
      (insert_page 0 (lru ℕ) mem_store 5 (1 ∷ 2 ∷ 3 ∷ 4 ∷ 5 ∷ []) empty_pool)
insert_page-Written_example =
    insert_page-Written 0 (lru ℕ) mem_store mem_store-laws 5 (1 ∷ 2 ∷ 3 ∷ 4 ∷ 5 ∷ []) empty_pool
      empty_pool-IsCoherent (omega arith) (omega arith)

-- Page 5 is resident, dirty and not pinned, and leaves no room for page 7.
abbrev busy_pool : Pool
unfolding insert_page make_room evict_one flush lookup insert remove on_access on_evict pick_victim
    scan
busy_pool = (insert_page 0 (lru ℕ) mem_store 5 (1 ∷ 2 ∷ 3 ∷ 4 ∷ 5 ∷ []) empty_pool).1

busy_pool-IsCoherent : IsCoherent 0 (lru ℕ) mem_store busy_pool
unfolding insert_page make_room empty_pool new busy_pool
busy_pool-IsCoherent = insert_page-Written_example.0

fits_7 : ContentFits 0 (lru ℕ) mem_store mem_store-laws 7 busy_pool
unfolding content lookup empty_pool new busy_pool insert_page make_room insert
fits_7 buf e = ground arith

-- Page 5 is written and dropped, page 7 is read.
pin-Shows_example :
    Outcome
      (Shows 0 (lru ℕ) mem_store mem_store-laws busy_pool 7)
      (λ _ q. Preserves 0 (lru ℕ) mem_store mem_store-laws busy_pool q)
      (pin 0 (lru ℕ) mem_store 100 7 busy_pool)
pin-Shows_example =
    pin-Shows 0 (lru ℕ) mem_store mem_store-laws 100 7 busy_pool busy_pool-IsCoherent fits_7

pin_evicts :
    (pin 0 (lru ℕ) mem_store 100 7 busy_pool).1.store.1
    ≡ (7, 70 ∷ 71 ∷ 72 ∷ 73 ∷ 74 ∷ []) ∷ (8, 80 ∷ 81 ∷ []) ∷ (5, 1 ∷ 2 ∷ 3 ∷ 4 ∷ 5 ∷ []) ∷ []
unfolding pin insert_page make_room evict_one flush lookup insert remove on_access on_evict
    pick_victim scan empty_pool new busy_pool
pin_evicts = refl

evict_one-Preserves_example :
    Preserves 0
      (lru ℕ)
      mem_store
      mem_store-laws
      busy_pool
      (evict_one 0 (lru ℕ) mem_store busy_pool).1
evict_one-Preserves_example =
    evict_one-Preserves 0 (lru ℕ) mem_store mem_store-laws busy_pool busy_pool-IsCoherent

busy_pool-IsAccounted : IsAccounted 0 (lru ℕ) mem_store busy_pool
unfolding insert_page make_room lookup insert empty_pool new busy_pool held weight
busy_pool-IsAccounted = record { distinct = (refl, tt); exact = refl; in_range = omega arith }

empty_pool-IsAccounted : IsAccounted 0 (lru ℕ) mem_store empty_pool
unfolding empty_pool new held weight
empty_pool-IsAccounted = record { distinct = tt; exact = refl; in_range = omega arith }

absent_7 : lookup 7 busy_pool.frames ≡ none
unfolding insert_page make_room lookup insert empty_pool new busy_pool
absent_7 = refl

absent_5 : lookup 5 empty_pool.frames ≡ none
unfolding lookup empty_pool new
absent_5 = refl

abbrev frame_5 : Frame ℕ
frame_5 = new_frame 0 (lru ℕ) mem_store 5 (1 ∷ 2 ∷ 3 ∷ 4 ∷ 5 ∷ []) 0

resident_5 : lookup 5 busy_pool.frames ≡ some frame_5
unfolding insert_page make_room lookup insert empty_pool new busy_pool
resident_5 = refl

stored_7 :
    (buf : List ℕ)
    → page_of (mem_store.read_page 7 busy_pool.store) ≡ ok buf
    → busy_pool.used_bytes + length buf < 2 ^ 64
unfolding lookup empty_pool new busy_pool insert_page make_room insert
stored_7 buf e = ground arith

pin-WithinBudget_example :
    Outcome
      (λ _ q. WithinBudget 0 (lru ℕ) mem_store q)
      (λ _ q. IsAccounted 0 (lru ℕ) mem_store q)
      (pin 0 (lru ℕ) mem_store 100 7 busy_pool)
pin-WithinBudget_example =
    pin-WithinBudget 0 (lru ℕ) mem_store 100 7 busy_pool busy_pool-IsAccounted absent_7 stored_7

insert_page-WithinBudget_example :
    Outcome
      (λ _ q. WithinBudget 0 (lru ℕ) mem_store q)
      (λ _ q. IsAccounted 0 (lru ℕ) mem_store q)
      (insert_page 0 (lru ℕ) mem_store 5 (1 ∷ 2 ∷ []) empty_pool)
unfolding empty_pool new
insert_page-WithinBudget_example =
    insert_page-WithinBudget 0 (lru ℕ) mem_store 5 (1 ∷ 2 ∷ []) empty_pool empty_pool-IsAccounted
      absent_5 (omega arith)

insert_page_resident_example :
    (insert_page 0 (lru ℕ) mem_store 5 (9 ∷ []) busy_pool).1.used_bytes
    ≡ held 0 (lru ℕ) mem_store (insert_page 0 (lru ℕ) mem_store 5 (9 ∷ []) busy_pool).1 + 5
unfolding insert_page make_room empty_pool new busy_pool
insert_page_resident_example =
    insert_page_resident 0 (lru ℕ) mem_store 5 (9 ∷ []) frame_5 busy_pool busy_pool-IsAccounted
      resident_5 (omega arith) (omega arith)

make_room-Runs_example :
    Runs 0
      (lru ℕ)
      mem_store
      5
      busy_pool
      (make_room 0 (lru ℕ) mem_store (enough_fuel 0 (lru ℕ) mem_store busy_pool) 5 busy_pool)
make_room-Runs_example =
    make_room-Runs 0 (lru ℕ) mem_store (lru-PolicyLaws ℕ) 5 busy_pool busy_pool-IsAccounted.distinct

-- Page 5 is pinned, and page 6 has to go for page 8.
abbrev pinned_pool : Pool
unfolding insert_page make_room pin lookup insert
pinned_pool =
    (insert_page 0 (lru ℕ) mem_store 6 (60 ∷ 61 ∷ []) (pin 0 (lru ℕ) mem_store 100 5 busy_pool).1).1

abbrev pinned_5 : Frame ℕ
pinned_5 = pinned_again 0 (lru ℕ) mem_store 1 frame_5

pinned_pool-Distinct : Distinct pinned_pool.frames
unfolding insert_page make_room pin lookup insert empty_pool new busy_pool pinned_pool
pinned_pool-Distinct = (refl, (refl, tt))

resident_pinned : lookup 5 pinned_pool.frames ≡ some pinned_5
unfolding insert_page make_room pin lookup insert empty_pool new busy_pool pinned_pool
resident_pinned = refl

pin-IsResident_example :
    lookup 5 (pin 0 (lru ℕ) mem_store 100 8 pinned_pool).1.frames ≡ some pinned_5
pin-IsResident_example =
    pin-IsResident 0 (lru ℕ) mem_store (lru-PolicyLaws ℕ) 5 pinned_5 refl 100 8 pinned_pool
      (λ e. omega arith) pinned_pool-Distinct resident_pinned

insert_page-IsResident_example :
    lookup 5 (insert_page 0 (lru ℕ) mem_store 9 (1 ∷ 2 ∷ []) pinned_pool).1.frames ≡ some pinned_5
insert_page-IsResident_example =
    insert_page-IsResident 0 (lru ℕ) mem_store (lru-PolicyLaws ℕ) 5 pinned_5 refl 9 (1 ∷ 2 ∷ [])
      pinned_pool (λ e. omega arith) pinned_pool-Distinct resident_pinned

-- Three frames: page 1 is pinned, page 2 was used before page 3.
abbrev meta_of : ℕ → ℕ → PageMeta ℕ
meta_of id pins = record (PageMeta_new 0 id 5) { pin_count = pins }

abbrev three_frames : List (ℕ × PageMeta ℕ)
three_frames = (1, meta_of 1 1) ∷ (2, meta_of 2 0) ∷ (3, meta_of 3 0) ∷ []

abbrev used_three : LruPolicy
used_three = record { clock = 3; last_access = (1, 1) ∷ (2, 2) ∷ (3, 3) ∷ [] }

victim_2 : pick_victim three_frames used_three ≡ some 2
unfolding pick_victim scan lookup
victim_2 = refl

pick_victim-least_example :
    (t : ℕ) × IsCandidate used_three.last_access three_frames 2 t
    × ((id u : ℕ) → IsCandidate used_three.last_access three_frames id u → t ≤ u)
pick_victim-least_example = pick_victim-least three_frames used_three 2 victim_2

-- A page that was last used at the largest u64 is never chosen.
abbrev one_frame : List (ℕ × PageMeta ℕ)
one_frame = (1, meta_of 1 0) ∷ []

abbrev used_last : LruPolicy
used_last = record { clock = 2 ^ 64 - 1; last_access = (1, 2 ^ 64 - 1) ∷ [] }

no_victim : pick_victim one_frame used_last ≡ none
unfolding pick_victim scan lookup
no_victim = refl

used_last-IsCandidate : IsCandidate used_last.last_access one_frame 1 (2 ^ 64 - 1)
unfolding lookup
used_last-IsCandidate = record {
  meta = meta_of 1 0;
  offered = inl refl;
  free = refl;
  used_at = refl;
}
