-- ===== src/BufferPool/Pool/Accounts.antt =====
-- The byte account: `used_bytes` is the sum of the sizes of the frames.
use pocket_data_mining.Base.{
  ℕ, ◌^◌, ◌≤◌, ◌<◌, ◌≡◌, refl, ◌∙◌, Option, none, some, length, arith, inl, inr, Bool-cases,
  Option-cases,
}
use pocket_data_mining.Base.Assoc.{
  lookup, Distinct, insert-Distinct, remove-Distinct, weight, weight-insert, weight-remove,
}
use pocket_data_mining.Base.Io.{IoResult, ok, err}
use pocket_data_mining.Base.Exec.{settle-keeps}
use pocket_data_mining.Storage.ChunkStore.{ChunkStore}
use pocket_data_mining.BufferPool.Policy.{EvictionPolicy}
use pocket_data_mining.BufferPool.Pool.{
  Frame, BufferPool, clean_frame, after_write, flush_frame, flush, drop_frame, evict, evict_one,
  make_room,
}
use pocket_data_mining.BufferPool.Pool.Rounds.{make_room-keeps}

module _ {P : Type 0} (zero_prob : P) (E : EvictionPolicy P) (C : ChunkStore) where
  abbrev Pool : Type 0
  Pool = BufferPool zero_prob E C

  abbrev pub frame_size : Frame P → ℕ
  frame_size f = length f.data_bytes

  -- The bytes held, and the account that says so.
  unfoldable pub held : Pool → ℕ
  held p = weight frame_size p.frames

  pub record IsAccounted (p : Pool) : Type 0 where
    pub distinct : Distinct p.frames
    pub exact : p.used_bytes ≡ held p
    pub in_range : p.used_bytes < 2 ^ 64

  -- A later state of the same pool, with no more bytes and under the same budget.
  pub record Shrinks (p q : Pool) : Type 0 where
    pub accounted : IsAccounted q
    pub less : q.used_bytes ≤ p.used_bytes
    pub budget : q.budget_bytes ≡ p.budget_bytes

  pub Shrinks-refl : (p : Pool) → IsAccounted p → Shrinks p p
  Shrinks-refl p h = record { accounted = h; less = omega arith; budget = refl }

  Shrinks-trans : (p q r : Pool) → Shrinks p q → Shrinks q r → Shrinks p r
  Shrinks-trans p q r h k = record {
    accounted = k.accounted;
    less = omega (arith, h.less, k.less);
    budget = k.budget ∙ h.budget;
  }

  after_write-Shrinks :
      (page_id : ℕ) (frame : Frame P) (p : Pool) (r : IoResult (Unit {0}) × C.Store)
      → IsAccounted p
      → lookup page_id p.frames ≡ some frame
      → Shrinks p (after_write zero_prob E C page_id frame p r).1
  unfolding held
  after_write-Shrinks page_id frame p (ok _, t) h l = record {
    accounted = record {
      distinct = insert-Distinct page_id (clean_frame zero_prob E C frame) p.frames h.distinct;
      exact = ground (
        arith,
        h.exact,
        weight-insert frame_size page_id (clean_frame zero_prob E C frame) p.frames,
      );
      in_range = h.in_range;
    };
    less = omega arith;
    budget = refl;
  }
  after_write-Shrinks page_id frame p (err e, t) h l = record {
    accounted = record { distinct = h.distinct; exact = h.exact; in_range = h.in_range };
    less = omega arith;
    budget = refl;
  }

  flush_frame-Shrinks :
      (page_id : ℕ) (o : Option (Frame P)) (p : Pool)
      → IsAccounted p
      → lookup page_id p.frames ≡ o
      → Shrinks p (flush_frame zero_prob E C page_id o p).1
  flush_frame-Shrinks page_id none p h l = Shrinks-refl p h
  flush_frame-Shrinks page_id (some frame) p h l = elim (Bool-cases frame.meta.dirty) [
    | inl d ↦ rw d (after_write-Shrinks page_id frame p _ h l)
    | inr d ↦ rw d (Shrinks-refl p h)
  ]

  -- What leaves the frames leaves the account.
  drop_frame-Shrinks :
      (victim : ℕ) (p : Pool) → IsAccounted p → Shrinks p (drop_frame zero_prob E C victim p)
  unfolding held
  drop_frame-Shrinks victim p h = elim (Option-cases (lookup victim p.frames)) [
    | inl a ↦ record {
      accounted = record {
        distinct = remove-Distinct victim p.frames h.distinct;
        exact =
            ground
              (arith, h.exact, h.in_range, weight-remove frame_size victim p.frames h.distinct);
        in_range = ground arith;
      };
      less = ground (arith, h.in_range);
      budget = refl;
    }
    | inr (frame, l) ↦ record {
      accounted = record {
        distinct = remove-Distinct victim p.frames h.distinct;
        exact =
            ground
              (arith, h.exact, h.in_range, weight-remove frame_size victim p.frames h.distinct);
        in_range = ground arith;
      };
      less =
          ground (arith, h.exact, h.in_range, weight-remove frame_size victim p.frames h.distinct);
      budget = refl;
    }
  ]

  evict-Shrinks : (o : Option ℕ) (p : Pool) → IsAccounted p → Shrinks p (evict zero_prob E C o p).1
  unfolding flush
  evict-Shrinks none p h = Shrinks-refl p h
  evict-Shrinks (some v) p h =
      settle-keeps (Shrinks p) _ (flush zero_prob E C v p)
        (flush_frame-Shrinks v (lookup v p.frames) p h refl)
        λ _ q k. Shrinks-trans p q _ k (drop_frame-Shrinks v q k.accounted)

  pub make_room-Shrinks :
      (fuel page_size : ℕ) (p : Pool)
      → IsAccounted p
      → Shrinks p (make_room zero_prob E C fuel page_size p).1
  make_room-Shrinks fuel page_size p h =
      make_room-keeps zero_prob E C (Shrinks p)
        (λ q k. Shrinks-trans p q _ k (unfold evict_one in evict-Shrinks _ q k.accounted)) fuel
        page_size p (Shrinks-refl p h)
