-- ===== src/BufferPool/Pool/Residents.antt =====
-- Which frames an eviction may touch: absent pages stay absent, and pinned frames stay as they are.
use pocket_data_mining.Base.{
  ℕ, ◌≡◌, ◌≢◌, refl, ◌∙◌, true, Option, none, some, [], ◌∷◌, arith, inl, inr, ◌==◌, Bool-cases,
  ==→eq, ==_false→ne,
}
use pocket_data_mining.Base.Assoc.{
  Assoc, lookup, lookup-insert, lookup-remove, Distinct, insert-Distinct, remove-Distinct,
}
use pocket_data_mining.Base.Io.{IoResult, ok, err}
use pocket_data_mining.Base.Exec.{settle-keeps}
use pocket_data_mining.Types.{PageMeta, is_pinned}
use pocket_data_mining.Storage.ChunkStore.{ChunkStore}
use pocket_data_mining.BufferPool.Policy.{EvictionPolicy, PolicyLaws, Member}
use pocket_data_mining.BufferPool.Pool.{
  Frame, BufferPool, clean_frame, after_write, flush_frame, flush, metas, evict, evict_one,
  make_room,
}
use pocket_data_mining.BufferPool.Pool.Rounds.{make_room-keeps}

module _ {P : Type 0} (zero_prob : P) (E : EvictionPolicy P) (C : ChunkStore) where
  abbrev Pool : Type 0
  Pool = BufferPool zero_prob E C

  after_write-lookup :
      (page_id id : ℕ) (frame : Frame P) (p : Pool) (r : IoResult (Unit {0}) × C.Store)
      → page_id ≢ id
      → lookup id (after_write zero_prob E C page_id frame p r).1.frames ≡ lookup id p.frames
  after_write-lookup page_id id frame p (ok _, t) ne =
      ground (arith, lookup-insert page_id id (clean_frame zero_prob E C frame) p.frames)
  after_write-lookup page_id id frame p (err e, t) ne = refl

  flush_frame-lookup :
      (page_id id : ℕ) (o : Option (Frame P)) (p : Pool)
      → page_id ≢ id
      → lookup id (flush_frame zero_prob E C page_id o p).1.frames ≡ lookup id p.frames
  flush_frame-lookup page_id id none p ne = refl
  flush_frame-lookup page_id id (some frame) p ne = elim (Bool-cases frame.meta.dirty) [
    | inl d ↦ rw d (after_write-lookup page_id id frame p _ ne)
    | inr d ↦ rw d
  ]

  -- A flush of an absent page does nothing.
  pub flush_absent :
      (page_id : ℕ) (p : Pool)
      → lookup page_id p.frames ≡ none
      → flush zero_prob E C page_id p ≡ (ok tt, p)
  unfolding flush
  flush_absent page_id p e = rw e

  abbrev IsAbsent : ℕ → Pool → Type 0
  IsAbsent id p = lookup id p.frames ≡ none

  flush-IsAbsent :
      (page_id id : ℕ) (p : Pool) → IsAbsent id p → IsAbsent id (flush zero_prob E C page_id p).1
  flush-IsAbsent page_id id p a = elim (Bool-cases (page_id == id)) [
    | inl e ↦ rw (==→eq page_id id e, flush_absent id p a) a
    | inr ne ↦
        unfold flush in
        flush_frame-lookup page_id id (lookup page_id p.frames) p (==_false→ne page_id id ne) ∙ a
  ]

  evict-IsAbsent :
      (o : Option ℕ) (id : ℕ) (p : Pool) → IsAbsent id p → IsAbsent id (evict zero_prob E C o p).1
  evict-IsAbsent none id p a = a
  evict-IsAbsent (some v) id p a =
      settle-keeps (IsAbsent id) _ (flush zero_prob E C v p) (flush-IsAbsent v id p a)
        λ _ q b. ground (arith, lookup-remove v id q.frames)

  -- Making room brings no page in.
  pub make_room-IsAbsent :
      (fuel page_size id : ℕ) (p : Pool)
      → lookup id p.frames ≡ none
      → lookup id (make_room zero_prob E C fuel page_size p).1.frames ≡ none
  make_room-IsAbsent fuel page_size id p a =
      make_room-keeps zero_prob E C (IsAbsent id)
        (λ q b. unfold evict_one in evict-IsAbsent _ id q b) fuel page_size p a

  pub Member-lookup :
      (v : ℕ) (m : PageMeta P) (frames : Assoc (Frame P))
      → Distinct frames
      → Member (v, m) (metas zero_prob E C frames)
      → (frame : Frame P) × (lookup v frames ≡ some frame) × (frame.meta ≡ m)
  unfolding lookup
  Member-lookup v m [] d h = absurd h
  Member-lookup v m ((j, f) ∷ rest) d (inl e) = (f, ground arith, ground arith)
  Member-lookup v m ((j, f) ∷ rest) d (inr h) =
      let (frame, l, e) = Member-lookup v m rest d.1 h in (frame, ground arith, e)

  after_write-Distinct :
      (page_id : ℕ) (frame : Frame P) (p : Pool) (r : IoResult (Unit {0}) × C.Store)
      → Distinct p.frames
      → Distinct (after_write zero_prob E C page_id frame p r).1.frames
  after_write-Distinct page_id frame p (ok _, t) d =
      insert-Distinct page_id (clean_frame zero_prob E C frame) p.frames d
  after_write-Distinct page_id frame p (err e, t) d = d

  flush_frame-Distinct :
      (page_id : ℕ) (o : Option (Frame P)) (p : Pool)
      → Distinct p.frames
      → Distinct (flush_frame zero_prob E C page_id o p).1.frames
  flush_frame-Distinct page_id none p d = d
  flush_frame-Distinct page_id (some frame) p d = elim (Bool-cases frame.meta.dirty) [
    | inl e ↦ rw e (after_write-Distinct page_id frame p _ d)
    | inr e ↦ rw e d
  ]

  abbrev pub HasDistinct : Pool → Type 0
  HasDistinct p = Distinct p.frames

  pub flush-Distinct :
      (page_id : ℕ) (p : Pool) → HasDistinct p → HasDistinct (flush zero_prob E C page_id p).1
  unfolding flush
  flush-Distinct page_id p d = flush_frame-Distinct page_id (lookup page_id p.frames) p d

  pub evict-Distinct :
      (o : Option ℕ) (p : Pool) → HasDistinct p → HasDistinct (evict zero_prob E C o p).1
  evict-Distinct none p d = d
  evict-Distinct (some v) p d =
      settle-keeps HasDistinct _ (flush zero_prob E C v p) (flush-Distinct v p d)
        λ _ q e. remove-Distinct v q.frames e

module _ {P : Type 0} (zero_prob : P) (E : EvictionPolicy P) (C : ChunkStore)
    (lawful : PolicyLaws E) where
  -- The page is resident in this very frame, and each page has one frame.
  abbrev Stays : ℕ → Frame P → BufferPool zero_prob E C → Type 0
  Stays id frame p = (lookup id p.frames ≡ some frame) × Distinct p.frames

  -- A victim is not a pinned page.
  victim-ne :
      (id victim : ℕ) (frame : Frame P) (p : BufferPool zero_prob E C)
      → is_pinned frame.meta ≡ true
      → Stays id frame p
      → E.pick_victim (metas zero_prob E C p.frames) p.eviction ≡ some victim
      → victim ≢ id
  victim-ne id victim frame p pinned (l, d) e same =
      let (m, h, free) = lawful.victim_lem (metas zero_prob E C p.frames) p.eviction victim e in
      let (f, k, q) = Member-lookup zero_prob E C victim m p.frames d h in ground arith

  evict-Stays :
      (o : Option ℕ) (id : ℕ) (frame : Frame P) (p : BufferPool zero_prob E C)
      → ((victim : ℕ) → o ≡ some victim → victim ≢ id)
      → Stays id frame p
      → Stays id frame (evict zero_prob E C o p).1
  evict-Stays none id frame p ne s = s
  evict-Stays (some v) id frame p ne s =
      settle-keeps (Stays id frame) _ (flush zero_prob E C v p)
        (
          unfold flush in
              flush_frame-lookup zero_prob E C v id (lookup v p.frames) p (ne v refl) ∙ s.0,
          flush-Distinct zero_prob E C v p s.1,
        )
        λ _ q k.
          (ground (arith, lookup-remove v id q.frames, ne v refl), remove-Distinct v q.frames k.1)

  -- A pinned frame survives whatever is evicted to make room, with its bytes and its pins.
  pub make_room-pinned :
      (fuel page_size id : ℕ) (frame : Frame P) (p : BufferPool zero_prob E C)
      → is_pinned frame.meta ≡ true
      → Distinct p.frames
      → lookup id p.frames ≡ some frame
      → lookup id (make_room zero_prob E C fuel page_size p).1.frames ≡ some frame
  make_room-pinned fuel page_size id frame p pinned d l =
      (make_room-keeps zero_prob E C (Stays id frame)
        (λ q s.
          unfold evict_one in evict-Stays _ id frame q (λ v e. victim-ne id v frame q pinned s e) s)
        fuel page_size p (l, d)).0
