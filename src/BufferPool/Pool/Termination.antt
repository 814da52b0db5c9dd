-- ===== src/BufferPool/Pool/Termination.antt =====
-- The loop of make_room ends: it runs in finitely many rounds, and the fuel covers them.
use mathlib.Core.Path.{subst}
use pocket_data_mining.Base.{
  ℕ, zero, suc, ◌<◌, ◌≡◌, refl, sym, true, false, Option, none, some, arith, inl, inr, Bool-cases,
  ltb,
}
use pocket_data_mining.Base.Assoc.{
  lookup, Distinct, remove-Distinct, weight, weight-insert, weight-remove, weight-one,
  lookup-insert,
}
use pocket_data_mining.Base.Io.{IoError, IoResult, ok, err, pool_full}
use pocket_data_mining.Base.Exec.{settle, WhenOk, WhenOk-settle, WhenOk-state}
use pocket_data_mining.Base.Words.{add_u64}
use pocket_data_mining.Storage.ChunkStore.{ChunkStore}
use pocket_data_mining.BufferPool.Policy.{EvictionPolicy, PolicyLaws}
use pocket_data_mining.BufferPool.Pool.{
  Frame, BufferPool, clean_frame, after_write, flush_frame, flush, metas, drop_frame, evict,
  evict_one, retry, make_room,
}
use pocket_data_mining.BufferPool.Pool.Pin.{enough_fuel}
use pocket_data_mining.BufferPool.Pool.Residents.{Member-lookup, flush-Distinct}

module _ {P : Type 0} (zero_prob : P) (E : EvictionPolicy P) (C : ChunkStore) where
  abbrev Pool : Type 0
  Pool = BufferPool zero_prob E C

  -- The while loop by its rounds, with no fuel: `Runs n p r` says that from the pool `p` it ends in
  -- the result `r`.
  pub data Runs (page_size : ℕ) : Pool → IoResult (Unit {0}) × Pool → Type 0 where
    done :
        {p : Pool}
        → ltb p.budget_bytes (add_u64 p.used_bytes page_size) ≡ false
        → Runs page_size p (ok tt, p)
    all_pinned :
        {p q : Pool}
        → ltb p.budget_bytes (add_u64 p.used_bytes page_size) ≡ true
        → evict_one zero_prob E C p ≡ (ok none, q)
        → Runs page_size p (err pool_full, q)
    write_failed :
        {p q : Pool} {e : IoError}
        → ltb p.budget_bytes (add_u64 p.used_bytes page_size) ≡ true
        → evict_one zero_prob E C p ≡ (err e, q)
        → Runs page_size p (err e, q)
    again :
        {p q : Pool} {r : IoResult (Unit {0}) × Pool} {v : ℕ}
        → ltb p.budget_bytes (add_u64 p.used_bytes page_size) ≡ true
        → evict_one zero_prob E C p ≡ (ok (some v), q)
        → Runs page_size q r
        → Runs page_size p r

  after_write-count :
      (page_id : ℕ) (frame : Frame P) (p : Pool) (r : IoResult (Unit {0}) × C.Store)
      → lookup page_id p.frames ≡ some frame
      → weight (λ _. 1) (after_write zero_prob E C page_id frame p r).1.frames
        ≡ weight (λ _. 1) p.frames
  after_write-count page_id frame p (ok _, t) l =
      ground (arith, weight-insert (λ _. 1) page_id (clean_frame zero_prob E C frame) p.frames)
  after_write-count page_id frame p (err e, t) l = refl

  flush_frame-count :
      (page_id : ℕ) (o : Option (Frame P)) (p : Pool)
      → lookup page_id p.frames ≡ o
      → weight (λ _. 1) (flush_frame zero_prob E C page_id o p).1.frames ≡ weight (λ _. 1) p.frames
  flush_frame-count page_id none p l = refl
  flush_frame-count page_id (some frame) p l = elim (Bool-cases frame.meta.dirty) [
    | inl d ↦ rw d (after_write-count page_id frame p _ l)
    | inr d ↦ rw d
  ]

  after_write-resident :
      (page_id : ℕ) (frame : Frame P) (p : Pool) (r : IoResult (Unit {0}) × C.Store)
      → lookup page_id p.frames ≡ some frame
      → (f : Frame P) × (lookup page_id (after_write zero_prob E C page_id frame p r).1.frames
          ≡ some f)
  after_write-resident page_id frame p (ok _, t) l = (
    clean_frame zero_prob E C frame,
    ground (arith, lookup-insert page_id page_id (clean_frame zero_prob E C frame) p.frames),
  )
  after_write-resident page_id frame p (err e, t) l = (frame, l)

  flush_frame-resident :
      (page_id : ℕ) (frame : Frame P) (p : Pool)
      → lookup page_id p.frames ≡ some frame
      → (f : Frame P) × (lookup page_id (flush_frame zero_prob E C page_id (some frame) p).1.frames
          ≡ some f)
  flush_frame-resident page_id frame p l = elim (Bool-cases frame.meta.dirty) [
    | inl d ↦ rw d (after_write-resident page_id frame p _ l)
    | inr d ↦ rw d (frame, l)
  ]

  -- What a successful eviction gives: one frame fewer, if it had a victim.
  abbrev Falls : Pool → Option ℕ → Pool → Type 0
  Falls p none q = Unit
  Falls p (some v) q = (weight (λ _. 1) q.frames < weight (λ _. 1) p.frames) × Distinct q.frames

  drop_frame-Falls :
      (v : ℕ) (frame : Frame P) (p q : Pool)
      → weight (λ _. 1) q.frames ≡ weight (λ _. 1) p.frames
      → Distinct q.frames
      → lookup v q.frames ≡ some frame
      → weight (λ _. 1) (drop_frame zero_prob E C v q).frames < weight (λ _. 1) p.frames
  drop_frame-Falls v frame p q c d l = ground (arith, weight-remove (λ _. 1) v q.frames d)

  evict-Falls :
      (v : ℕ) (frame : Frame P) (p : Pool)
      → Distinct p.frames
      → lookup v p.frames ≡ some frame
      → WhenOk (Falls p) (evict zero_prob E C (some v) p)
  evict-Falls v frame p d l = WhenOk-settle (Falls p) _ (flush zero_prob E C v p) (
      WhenOk-state
        (λ q.
          (weight (λ _. 1) (drop_frame zero_prob E C v q).frames < weight (λ _. 1) p.frames)
          × Distinct (drop_frame zero_prob E C v q).frames)
        (flush zero_prob E C v p)
        (
          drop_frame-Falls v frame' p (flush zero_prob E C v p).1
              (unfold flush in flush_frame-count v (lookup v p.frames) p refl)
              (flush-Distinct zero_prob E C v p d) stays,
          remove-Distinct v (flush zero_prob E C v p).1.frames (flush-Distinct zero_prob E C v p d),
        ))
    where
      frame' : Frame P
      frame' = (flush_frame-resident v frame p l).0

      stays : lookup v (flush zero_prob E C v p).1.frames ≡ some frame'
      stays =
          unfold flush in
          subst (λ o. lookup v (flush_frame zero_prob E C v o p).1.frames ≡ some frame') (sym l)
            (flush_frame-resident v frame p l).1

  module _ (lawful : PolicyLaws E) (page_size : ℕ) where
    choose-Falls :
        (o : Option ℕ) (p : Pool)
        → Distinct p.frames
        → E.pick_victim (metas zero_prob E C p.frames) p.eviction ≡ o
        → WhenOk (Falls p) (evict zero_prob E C o p)
    choose-Falls none p d e = tt
    choose-Falls (some v) p d e =
        let (m, h, _) = lawful.victim_lem (metas zero_prob E C p.frames) p.eviction v e in
        let (frame, l, _) = Member-lookup zero_prob E C v m p.frames d h in
        evict-Falls v frame p d l

    round-Runs :
        (fuel : ℕ) (p : Pool) (r : IoResult (Option ℕ) × Pool)
        → ltb p.budget_bytes (add_u64 p.used_bytes page_size) ≡ true
        → evict_one zero_prob E C p ≡ r
        → WhenOk (Falls p) r
        → ((q : Pool)
            → Distinct q.frames
            → weight (λ _. 1) q.frames < weight (λ _. 1) p.frames
            → Runs page_size q (make_room zero_prob E C fuel page_size q))
        → Runs page_size p (settle (retry zero_prob E C (make_room zero_prob E C fuel page_size)) r)
    round-Runs fuel p (ok none, q) full e f next = all_pinned full e
    round-Runs fuel p (ok (some v), q) full e f next = again full e (next q f.1 f.0)
    round-Runs fuel p (err x, q) full e f next = write_failed full e

    make_room-Runs_fuel :
        (fuel : ℕ) (p : Pool)
        → Distinct p.frames
        → weight (λ _. 1) p.frames < fuel
        → Runs page_size p (make_room zero_prob E C fuel page_size p)
    unfolding make_room
    make_room-Runs_fuel zero p d h = absurd (omega arith)
    make_room-Runs_fuel (suc fuel) p d h =
        elim (Bool-cases (ltb p.budget_bytes (add_u64 p.used_bytes page_size))) [
          | inl full ↦
              rw (full, make_room)
                (round-Runs fuel p (evict_one zero_prob E C p) full refl
                  (unfold evict_one in choose-Falls _ p d refl)
                  (λ q d' less. make_room-Runs_fuel fuel q d' (omega arith)))
          | inr room ↦ rw (room, make_room) (done room)
        ]

    -- Where the policy picks its victims among the frames, and each page has one frame, the loop
    -- ends, whatever the store does, and its result is what make_room computes with one round
    -- more than there are frames.
    pub make_room-Runs :
        (p : Pool)
        → Distinct p.frames
        → Runs page_size p (make_room zero_prob E C (enough_fuel zero_prob E C p) page_size p)
    make_room-Runs p d =
        make_room-Runs_fuel (enough_fuel zero_prob E C p) p d (omega (arith, weight-one p.frames))
