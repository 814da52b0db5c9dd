-- ===== src/Mining/MemoryGuard/Threads.antt =====
-- MemoryGuard shared by threads: try_alloc is a fetch_add, a test and perhaps a fetch_sub, and free
-- is a load and a fetch_sub; the steps of the threads interleave in any order.
use Prim.Native.Nat.{min}
use pocket_data_mining.Base.{
  ℕ, ◌+◌, ◌-◌, ◌≤◌, ◌<◌, ◌^◌, ◌≡◌, refl, true, false, List, [], ◌∷◌, arith, ltb, if◌then◌else◌, All,
  replicate, zero, suc,
}
use pocket_data_mining.Base.Words.{add_u64, sub_u64}

-- A thread, with the bytes that it was granted and still holds.
pub data Thread : Type 0 where
  -- between calls
  idle : ℕ → Thread
  -- in try_alloc, after the fetch_add of so many bytes to the old value
  added : ℕ → ℕ → ℕ → Thread
  -- in free, after the load: the bytes asked for, and those that will be taken off
  freeing : ℕ → ℕ → ℕ → Thread

-- One atomic step of a thread: the account and the thread before and after. A thread gives back
-- only what it holds, and the account does not overflow.
pub data Move (budget : ℕ) : ℕ → Thread → ℕ → Thread → Type 0 where
  add :
      {used held bytes : ℕ}
      → used + bytes < 2 ^ 64
      → Move budget used (idle held) (add_u64 used bytes) (added held bytes used)
  grant :
      {used held bytes prev : ℕ}
      → ltb budget (add_u64 prev bytes) ≡ false
      → Move budget used (added held bytes prev) used (idle (held + bytes))
  refuse :
      {used held bytes prev : ℕ}
      → ltb budget (add_u64 prev bytes) ≡ true
      → Move budget used (added held bytes prev) (sub_u64 used bytes) (idle held)
  load_used :
      {used held bytes : ℕ}
      → bytes ≤ held
      → Move budget used (idle held) used (freeing held bytes (min bytes used))
  subtract :
      {used held bytes taken : ℕ}
      → Move budget used (freeing held bytes taken) (sub_u64 used taken) (idle (held - bytes))

-- One of the threads moves.
pub data Step (budget : ℕ) : ℕ → List Thread → ℕ → List Thread → Type 0 where
  here :
      {used used' : ℕ} {t t' : Thread} {ts : List Thread}
      → Move budget used t used' t'
      → Step budget used (t ∷ ts) used' (t' ∷ ts)
  there :
      {used used' : ℕ} {t : Thread} {ts ts' : List Thread}
      → Step budget used ts used' ts'
      → Step budget used (t ∷ ts) used' (t ∷ ts')

pub data Reach (budget used : ℕ) (ts : List Thread) : ℕ → List Thread → Type 0 where
  start : Reach budget used ts used ts
  next :
      {used' used'' : ℕ} {ts' ts'' : List Thread}
      → Reach budget used ts used' ts'
      → Step budget used' ts' used'' ts''
      → Reach budget used ts used'' ts''

-- What a thread holds, what it has in the account, and what it holds or is sure to be granted.
abbrev pub held_by : Thread → ℕ
held_by (idle held) = held
held_by (added held bytes prev) = held
held_by (freeing held bytes taken) = held

abbrev accounted : Thread → ℕ
accounted (idle held) = held
accounted (added held bytes prev) = held + bytes
accounted (freeing held bytes taken) = held

abbrev committed : ℕ → Thread → ℕ
committed budget (idle held) = held
committed budget (added held bytes prev) =
    if ltb budget (add_u64 prev bytes) then held else held + bytes
committed budget (freeing held bytes taken) = held

abbrev Sound : Thread → Type 0
Sound (idle held) = Unit
Sound (added held bytes prev) = prev + bytes < 2 ^ 64
Sound (freeing held bytes taken) = (taken ≡ bytes) × (bytes ≤ held)

abbrev pub total : (Thread → ℕ) → List Thread → ℕ
total f [] = 0
total f (t ∷ ts) = f t + total f ts

-- The account is what the threads have in it, and what is committed fits in the budget. `x` and `y`
-- are the shares of the threads that are not listed.
record IsSound (budget x y used : ℕ) (ts : List Thread) : Type 0 where
  exact : used ≡ x + total accounted ts
  fits : y + total (committed budget) ts ≤ budget
  in_range : used < 2 ^ 64
  sound : All Sound ts

committed-le : (budget : ℕ) (ts : List Thread) → total (committed budget) ts ≤ total accounted ts
committed-le budget [] = omega arith
committed-le budget (idle h ∷ ts) = omega (arith, committed-le budget ts)
committed-le budget (added h b p ∷ ts) = ground (arith, committed-le budget ts)
committed-le budget (freeing h b t ∷ ts) = omega (arith, committed-le budget ts)

held-le : (budget : ℕ) (ts : List Thread) → total held_by ts ≤ total (committed budget) ts
held-le budget [] = omega arith
held-le budget (idle h ∷ ts) = omega (arith, held-le budget ts)
held-le budget (added h b p ∷ ts) = ground (arith, held-le budget ts)
held-le budget (freeing h b t ∷ ts) = omega (arith, held-le budget ts)

Move-IsSound :
    {budget used used' : ℕ} {t t' : Thread} (x y : ℕ) (ts : List Thread)
    → y ≤ x
    → Move budget used t used' t'
    → IsSound budget x y used (t ∷ ts)
    → IsSound budget x y used' (t' ∷ ts)
Move-IsSound {budget} x y ts le (add {used} {held} {bytes} h) s = record {
  exact = omega (arith, s.exact);
  fits = ground (arith, committed-le budget ts, s.exact, s.fits);
  in_range = omega arith;
  sound = (h, s.sound.1);
}
Move-IsSound {budget} x y ts le (grant g) s = record {
  exact = omega (arith, s.exact);
  fits = ground (arith, g, s.fits);
  in_range = s.in_range;
  sound = (tt, s.sound.1);
}
Move-IsSound {budget} x y ts le (refuse {used} {held} {bytes} g) s = record {
  exact = ground (arith, s.exact, s.in_range);
  fits = ground (arith, g, s.fits);
  in_range = omega arith;
  sound = (tt, s.sound.1);
}
Move-IsSound {budget} x y ts le (load_used {used} {held} {bytes} h) s = record {
  exact = s.exact;
  fits = s.fits;
  in_range = s.in_range;
  sound = ((omega (arith, s.exact), h), s.sound.1);
}
Move-IsSound {budget} x y ts le (subtract {used} {held} {bytes} {taken}) s = record {
  exact = ground (arith, s.exact, s.in_range, s.sound.0.0, s.sound.0.1);
  fits = omega (arith, s.fits);
  in_range = omega arith;
  sound = (tt, s.sound.1);
}

-- The same for a list of threads, one of which moves.
Step-IsSound :
    {budget used used' : ℕ} {ts ts' : List Thread} (x y : ℕ)
    → y ≤ x
    → Step budget used ts used' ts'
    → IsSound budget x y used ts
    → IsSound budget x y used' ts'
Step-IsSound x y le (here {ts = ts} m) s = Move-IsSound x y ts le m s
Step-IsSound {budget} x y le (there {used} {used'} {t} {ts} {ts'} m) s =
    let tail =
      Step-IsSound (x + accounted t) (y + committed budget t) (omega (arith, one)) m (record {
        exact = omega (arith, s.exact);
        fits = omega (arith, s.fits);
        in_range = s.in_range;
        sound = s.sound.1;
      }) in
    record {
      exact = omega (arith, tail.exact);
      fits = omega (arith, tail.fits);
      in_range = tail.in_range;
      sound = (s.sound.0, tail.sound);
    }
  where
    one : committed budget t + 0 ≤ accounted t + 0
    one = committed-le budget (t ∷ [])

Reach-IsSound :
    {budget used : ℕ} {ts : List Thread} {used' : ℕ} {ts' : List Thread}
    → IsSound budget 0 0 used ts
    → Reach budget used ts used' ts'
    → IsSound budget 0 0 used' ts'
Reach-IsSound s start = s
Reach-IsSound s (next r m) = Step-IsSound 0 0 (omega arith) m (Reach-IsSound s r)

total-replicate : (f : Thread → ℕ) (n : ℕ) → f (idle 0) ≡ 0 → total f (replicate n (idle 0)) ≡ 0
total-replicate f zero e = refl
total-replicate f (suc n) e = omega (arith, total-replicate f n e)

All-replicate : (n : ℕ) → All Sound (replicate n (idle 0))
All-replicate zero = tt
All-replicate (suc n) = (tt, All-replicate n)

-- From threads that hold nothing, and under every interleaving of their steps, the bytes that all
-- threads hold stay within the budget. A thread gives back only what it holds, and the counter
-- does not overflow.
pub held-le-budget :
    (budget n : ℕ) {used : ℕ} {ts : List Thread}
    → Reach budget 0 (replicate n (idle 0)) used ts
    → total held_by ts ≤ budget
held-le-budget budget n {used} {ts} r =
    omega (arith, held-le budget ts, (Reach-IsSound initial r).fits)
  where
    initial : IsSound budget 0 0 0 (replicate n (idle 0))
    initial = record {
      exact = omega (arith, total-replicate accounted n refl);
      fits = omega (arith, total-replicate (committed budget) n refl);
      in_range = omega arith;
      sound = All-replicate n;
    }
