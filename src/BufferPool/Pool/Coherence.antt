-- ===== src/BufferPool/Pool/Coherence.antt =====
-- The pool is transparent: flushing, evicting and making room change no page that a client can see.
use pocket_data_mining.Base.{
  ℕ, ◌≡◌, ◌≢◌, refl, ◌∙◌, true, false, Option, none, some, arith, inl, inr, Bool-cases,
  Option-cases,
}
use pocket_data_mining.Base.Assoc.{lookup, lookup-insert, lookup-remove}
use pocket_data_mining.Base.Io.{IoResult, ok, err}
use pocket_data_mining.Base.Exec.{WhenOk, settle-keeps_with}
use pocket_data_mining.Storage.ChunkStore.{ChunkStore, StoreLaws}
use pocket_data_mining.BufferPool.Policy.{EvictionPolicy}
use pocket_data_mining.BufferPool.Pool.{
  Frame, BufferPool, clean_frame, after_write, flush_frame, flush, drop_frame, evict, evict_one,
  make_room,
}
use pocket_data_mining.BufferPool.Pool.Rounds.{make_room-keeps}
use pocket_data_mining.BufferPool.Pool.View.{content, IsCoherent}

module _ {P : Type 0} (zero_prob : P) (E : EvictionPolicy P) (C : ChunkStore)
    (laws : StoreLaws C) where
  abbrev Pool : Type 0
  Pool = BufferPool zero_prob E C

  -- `q` shows the same pages as `p`, and is coherent too.
  pub record Preserves (p q : Pool) : Type 0 where
    pub coherent : IsCoherent zero_prob E C q
    pub same : (id : ℕ) → content zero_prob E C q id ≡ content zero_prob E C p id

  pub Preserves-refl : (p : Pool) → IsCoherent zero_prob E C p → Preserves p p
  Preserves-refl p h = record { coherent = h; same = λ id. refl }

  pub Preserves-trans : (p q r : Pool) → Preserves p q → Preserves q r → Preserves p r
  Preserves-trans p q r h k = record { coherent = k.coherent; same = λ id. k.same id ∙ h.same id }

  after_write-Preserves :
      (page_id : ℕ) (frame : Frame P) (p : Pool) (r : IoResult (Unit {0}) × C.Store)
      → IsCoherent zero_prob E C p
      → lookup page_id p.frames ≡ some frame
      → ((j : ℕ) → page_id ≢ j → C.read_page j r.1 ≡ C.read_page j p.store)
      → WhenOk (λ _ t. (f : C.Flags) × (C.read_page page_id t ≡ ok (frame.data_bytes, f))) r
      → frame.meta.dirty ≡ true
      → Preserves p (after_write zero_prob E C page_id frame p r).1
  unfolding content
  after_write-Preserves page_id frame p (ok _, t) h l ne (f, e) d = record {
    coherent = record {
      clean = λ id fr k c. ground (
        arith,
        lookup-insert page_id id (clean_frame zero_prob E C frame) p.frames,
        ne id,
        h.clean id fr,
        e,
      );
      fits = λ id fr k. ground (
        arith,
        lookup-insert page_id id (clean_frame zero_prob E C frame) p.frames,
        h.fits id fr,
        h.fits page_id frame,
      );
    };
    same = λ id.
        ground
          (arith, lookup-insert page_id id (clean_frame zero_prob E C frame) p.frames, ne id, e);
  }
  after_write-Preserves page_id frame p (err x, t) h l ne _ d = record {
    coherent = record {
      clean = λ id fr k c. ground (arith, ne id, h.clean id fr);
      fits = λ id fr k. h.fits id fr k;
    };
    same = λ id. ground (arith, ne id);
  }

  flush_frame-Preserves :
      (page_id : ℕ) (o : Option (Frame P)) (p : Pool)
      → IsCoherent zero_prob E C p
      → lookup page_id p.frames ≡ o
      → Preserves p (flush_frame zero_prob E C page_id o p).1
  flush_frame-Preserves page_id none p h l = Preserves-refl p h
  flush_frame-Preserves page_id (some frame) p h l = elim (Bool-cases frame.meta.dirty) [
    | inl d ↦ rw d (
        after_write-Preserves page_id frame p
          (C.write_page page_id frame.data_bytes C.no_flags p.store) h l
          (λ j ne. laws.read-write_ne page_id j frame.data_bytes C.no_flags p.store ne)
          (laws.read-write page_id frame.data_bytes C.no_flags p.store laws.no_flags-Plain
            (h.fits page_id frame l).0 (h.fits page_id frame l).1)
          d)
    | inr d ↦ rw d (Preserves-refl p h)
  ]

  -- Over a store that keeps its contract, a flush on a coherent pool, failing or not, changes no
  -- page that a client sees and leaves the pool coherent.
  pub flush-Preserves :
      (page_id : ℕ) (p : Pool)
      → IsCoherent zero_prob E C p
      → Preserves p (flush zero_prob E C page_id p).1
  unfolding flush
  flush-Preserves page_id p h = flush_frame-Preserves page_id (lookup page_id p.frames) p h refl

  abbrev IsClean : ℕ → Unit {0} → Pool → Type 0
  IsClean page_id _ q =
      (frame : Frame P) → lookup page_id q.frames ≡ some frame → frame.meta.dirty ≡ false

  after_write-IsClean :
      (page_id : ℕ) (frame : Frame P) (p : Pool) (r : IoResult (Unit {0}) × C.Store)
      → WhenOk (IsClean page_id) (after_write zero_prob E C page_id frame p r)
  after_write-IsClean page_id frame p (ok _, t) = λ fr l.
      ground (arith, lookup-insert page_id page_id (clean_frame zero_prob E C frame) p.frames)
  after_write-IsClean page_id frame p (err x, t) = tt

  flush_frame-IsClean :
      (page_id : ℕ) (o : Option (Frame P)) (p : Pool)
      → lookup page_id p.frames ≡ o
      → WhenOk (IsClean page_id) (flush_frame zero_prob E C page_id o p)
  flush_frame-IsClean page_id none p l = λ fr k. cc
  flush_frame-IsClean page_id (some frame) p l = elim (Bool-cases frame.meta.dirty) [
    | inl d ↦ rw d (after_write-IsClean page_id frame p _)
    | inr d ↦ rw d (λ fr k. ground arith)
  ]

  -- What evict_one drops is clean: it was flushed.
  drop_frame-Preserves :
      (victim : ℕ) (p : Pool)
      → IsCoherent zero_prob E C p
      → IsClean victim tt p
      → Preserves p (drop_frame zero_prob E C victim p)
  unfolding content
  drop_frame-Preserves victim p h c = record {
    coherent = record {
      clean = λ id fr k d. ground (arith, lookup-remove victim id p.frames, h.clean id fr);
      fits = λ id fr k. ground (arith, lookup-remove victim id p.frames, h.fits id fr);
    };
    same = λ id. elim (Option-cases (lookup victim p.frames)) [
      | inl a ↦ ground (arith, lookup-remove victim id p.frames)
      | inr (fr, a) ↦ ground (arith, lookup-remove victim id p.frames, c fr, h.clean victim fr)
    ];
  }

  evict-Preserves :
      (o : Option ℕ) (p : Pool)
      → IsCoherent zero_prob E C p
      → Preserves p (evict zero_prob E C o p).1
  unfolding flush
  evict-Preserves none p h = Preserves-refl p h
  evict-Preserves (some victim) p h =
      settle-keeps_with (Preserves p) (IsClean victim) _ (flush zero_prob E C victim p)
        (flush-Preserves victim p h) (flush_frame-IsClean victim (lookup victim p.frames) p refl)
        λ _ q k c. Preserves-trans p q _ k (drop_frame-Preserves victim q k.coherent c)

  -- Over a store that keeps its contract, evict_one on a coherent pool changes no page that a
  -- client sees and leaves the pool coherent, on success and on failure.
  pub evict_one-Preserves :
      (p : Pool) → IsCoherent zero_prob E C p → Preserves p (evict_one zero_prob E C p).1
  unfolding evict_one
  evict_one-Preserves p h = evict-Preserves _ p h

  -- Making room changes no page, whether it succeeds, finds all pages pinned, or fails to write.
  pub make_room-Preserves :
      (fuel page_size : ℕ) (p : Pool)
      → IsCoherent zero_prob E C p
      → Preserves p (make_room zero_prob E C fuel page_size p).1
  make_room-Preserves fuel page_size p h =
      make_room-keeps zero_prob E C (Preserves p)
        (λ q k. Preserves-trans p q _ k (evict_one-Preserves q k.coherent)) fuel page_size p
        (Preserves-refl p h)
