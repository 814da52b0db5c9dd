-- ===== src/Mining/MemoryGuard.antt =====
-- mining/core/memory_guard.rs: the byte budget for what lives outside the buffer pool.
pub mod Threads
use pocket_data_mining.Base.{
  ℕ, ◌+◌, ◌-◌, ◌≤◌, ◌<◌, ◌^◌, ◌≡◌, refl, Bool, true, false, List, arith, ltb, if◌then◌else◌,
}
use Prim.Native.Nat.{min}
use pocket_data_mining.Base.Io.{IoResult, ok, err}
use pocket_data_mining.Base.Exec.{Exec, settle}
use pocket_data_mining.Base.Words.{add_u64, sub_u64, saturating_sub}
use pocket_data_mining.Storage.ChunkStore.{ChunkStore}

pub record MemoryGuard : Type 0 where
  pub used : ℕ
  pub budget : ℕ

abbrev pub guard_new : ℕ → MemoryGuard
guard_new budget = record { used = 0; budget = budget }

-- The test is on the old value that fetch_add returned.
unfoldable pub try_alloc : ℕ → MemoryGuard → MemoryGuard × Bool
try_alloc bytes g =
    let prev = g.used in
    let g1 = record g { used = add_u64 prev bytes } in
    if ltb g.budget (add_u64 prev bytes)
    then (record g1 { used = sub_u64 g1.used bytes }, false)
    else (g1, true)

unfoldable pub force_alloc : ℕ → MemoryGuard → MemoryGuard
force_alloc bytes g = record g { used = add_u64 g.used bytes }

unfoldable pub free : ℕ → MemoryGuard → MemoryGuard
free bytes g = record g { used = sub_u64 g.used (min bytes g.used) }

unfoldable pub remaining : MemoryGuard → ℕ
remaining g = saturating_sub g.budget g.used

-- Spilled data goes straight to the chunk store.
module _ (C : ChunkStore) where
  unfoldable pub spill : List ℕ → Exec C.Store ℕ
  spill bytes s =
      let (page_id, t) = C.next_page_id s in
      settle (λ _ u. (ok page_id, u)) (C.write_page page_id bytes C.no_flags t)

  abbrev first : IoResult (List ℕ × C.Flags) → IoResult (List ℕ)
  first (ok (buf, _)) = ok buf
  first (err e) = err e

  unfoldable pub load : ℕ → Exec C.Store (List ℕ)
  load page_id s = (first (C.read_page page_id s), s)

  -- The result of the deletion is dropped.
  unfoldable pub load_and_delete : ℕ → Exec C.Store (List ℕ)
  unfolding load
  load_and_delete page_id s =
      settle (λ buf t. (ok buf, (C.delete_page page_id t).1)) (load page_id s)

-- Where the sum does not overflow, a reservation is granted and counted exactly when it fits in
-- the budget, and a refused one leaves the guard as it was.
pub try_alloc_lem :
    (bytes : ℕ) (g : MemoryGuard)
    → g.used + bytes < 2 ^ 64
    → try_alloc bytes g ≡ (
        if ltb g.budget (g.used + bytes)
        then (g, false)
        else (record g { used = g.used + bytes }, true))
unfolding try_alloc
try_alloc_lem bytes g h = ground arith

-- Giving back what was granted leaves the guard as it was before, where the sum did not overflow.
pub free-try_alloc :
    (bytes : ℕ) (g h : MemoryGuard)
    → g.used + bytes < 2 ^ 64
    → try_alloc bytes g ≡ (h, true)
    → free bytes h ≡ g
unfolding try_alloc free
free-try_alloc bytes g h fits e = ground arith

-- Giving back takes the bytes off a counter that is a u64, and stops at zero, whatever the caller
-- asks for.
pub free-le : (bytes : ℕ) (g : MemoryGuard) → g.used < 2 ^ 64 → (free bytes g).used ≡ g.used - bytes
unfolding free
free-le bytes g h = ground arith

-- With bytes held and every field a u64, one request for 2^64 less the held bytes is granted and
-- sets the counter to zero, whatever the budget; the whole budget is then granted once more, so
-- that what was held before is no longer accounted for.
pub try_alloc_overflow :
    (g : MemoryGuard)
    → 0 < g.used
    → g.used < 2 ^ 64
    → g.budget < 2 ^ 64
    → (try_alloc (2 ^ 64 - g.used) g ≡ (record g { used = 0 }, true))
      × (try_alloc g.budget (try_alloc (2 ^ 64 - g.used) g).0
          ≡ (record g { used = g.budget }, true))
unfolding try_alloc
try_alloc_overflow g held fits hb = (ground arith, ground arith)
