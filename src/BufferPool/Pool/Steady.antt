-- ===== src/BufferPool/Pool/Steady.antt =====
-- What the operations of buffer_pool/pool.rs leave alone besides the pages: each page keeps one frame, and
-- the counter of page ids stays. A failure is an error of the store or of a full pool.
use mathlib.Core.Path.{subst}
use pocket_data_mining.Base.{
  ℕ, ◌≡◌, ◌∙◌, Option, none, some, List, length, arith, inl, inr, Bool-cases, Option-cases,
}
use pocket_data_mining.Base.Assoc.{lookup, lookup-insert, Distinct, insert-Distinct}
use pocket_data_mining.Base.Io.{IoResult, ok, err}
use pocket_data_mining.Base.Exec.{settle-keeps, Ends, Answers, Ends-then}
use pocket_data_mining.Storage.ChunkStore.{ChunkStore, StoreLaws, PageIdLaws}
use pocket_data_mining.BufferPool.Policy.{EvictionPolicy, PolicyLaws}
use pocket_data_mining.BufferPool.Pool.{
  Frame, PinGuard, BufferPool, after_write, flush_frame, flush, evict, evict_one, make_room, metas,
  unpin, update_frame,
}
use pocket_data_mining.BufferPool.Pool.Pin.{pin, insert_page, admit, miss, enough_fuel, drop_guard}
use pocket_data_mining.Base.Words.{saturating_sub}
use pocket_data_mining.BufferPool.Pool.View.{content, IsCoherent}
use pocket_data_mining.BufferPool.Pool.Coherence.{Preserves, Preserves-refl}
use pocket_data_mining.BufferPool.Pool.Residents.{evict-Distinct}
use pocket_data_mining.BufferPool.Pool.Rounds.{make_room-keeps}
use pocket_data_mining.BufferPool.Pool.Termination.{
  Runs, done, all_pinned, write_failed, again, make_room-Runs,
}

module _ {P : Type 0} (zero_prob : P) (E : EvictionPolicy P) (C : ChunkStore)
    (ids : PageIdLaws C) where
  abbrev Pool : Type 0
  Pool = BufferPool zero_prob E C

  -- One frame for each page, and the counter at `n`.
  abbrev pub Counts : ℕ → Pool → Type 0
  Counts n p = Distinct p.frames × (ids.counter p.store ≡ n)

  after_write-counter :
      (page_id n : ℕ) (frame : Frame P) (p : Pool) (r : IoResult (Unit {0}) × C.Store)
      → ids.counter r.1 ≡ n
      → ids.counter (after_write zero_prob E C page_id frame p r).1.store ≡ n
  after_write-counter page_id n frame p (ok _, t) e = e
  after_write-counter page_id n frame p (err x, t) e = e

  flush_frame-counter :
      (page_id n : ℕ) (o : Option (Frame P)) (p : Pool)
      → ids.counter p.store ≡ n
      → ids.counter (flush_frame zero_prob E C page_id o p).1.store ≡ n
  flush_frame-counter page_id n none p e = e
  flush_frame-counter page_id n (some frame) p e = elim (Bool-cases frame.meta.dirty) [
    | inl d ↦ rw d (
        after_write-counter page_id n frame p
          (C.write_page page_id frame.data_bytes C.no_flags p.store)
          (ids.counter-write_page page_id frame.data_bytes C.no_flags p.store ∙ e))
    | inr d ↦ rw d e
  ]

  evict-counter :
      (n : ℕ) (o : Option ℕ) (p : Pool)
      → ids.counter p.store ≡ n
      → ids.counter (evict zero_prob E C o p).1.store ≡ n
  unfolding flush
  evict-counter n none p e = e
  evict-counter n (some v) p e =
      settle-keeps (λ q. ids.counter q.store ≡ n) _ (flush zero_prob E C v p)
        (flush_frame-counter v n (lookup v p.frames) p e) λ _ q k. k

  make_room-Counts :
      (fuel page_size n : ℕ) (p : Pool)
      → Counts n p
      → Counts n (make_room zero_prob E C fuel page_size p).1
  unfolding evict_one
  make_room-Counts fuel page_size n p h =
      make_room-keeps zero_prob E C (Counts n)
        (λ q k. (evict-Distinct zero_prob E C _ q k.0, evict-counter n _ q k.1)) fuel page_size p h

  admit-Counts :
      (id load_ns n : ℕ) (buf : List ℕ) (p : Pool)
      → Counts n p
      → Counts n (admit zero_prob E C id load_ns buf p).1
  admit-Counts id load_ns n buf p h =
      settle-keeps (Counts n) _
        (make_room zero_prob E C (enough_fuel zero_prob E C p) (length buf) p)
        (make_room-Counts _ (length buf) n p h) λ _ q k. (insert-Distinct id _ q.frames k.0, k.1)

  miss-Counts :
      (id load_ns n : ℕ) (r : IoResult (List ℕ × C.Flags)) (p : Pool)
      → Counts n p
      → Counts n (miss zero_prob E C id load_ns r p).1
  miss-Counts id load_ns n (err e) p h = h
  miss-Counts id load_ns n (ok (buf, _)) p h = admit-Counts id load_ns n buf _ h

  pub pin-Counts :
      (elapsed_ns id n : ℕ) (p : Pool) → Counts n p → Counts n (pin zero_prob E C elapsed_ns id p).1
  unfolding pin
  pin-Counts elapsed_ns id n p h = elim (Option-cases (lookup id p.frames)) [
    | inl a ↦ rw (a, pin) (miss-Counts id _ n (C.read_page id p.store) _ h)
    | inr (frame, l) ↦ rw (l, pin) (insert-Distinct id _ p.frames h.0, h.1)
  ]

  pub insert_page-Counts :
      (id n : ℕ) (bytes : List ℕ) (p : Pool)
      → Counts n p
      → Counts n (insert_page zero_prob E C id bytes p).1
  unfolding insert_page
  insert_page-Counts id n bytes p h =
      settle-keeps (Counts n) _
        (make_room zero_prob E C (enough_fuel zero_prob E C p) (length bytes) p)
        (make_room-Counts _ (length bytes) n p h) λ _ q k. (insert-Distinct id _ q.frames k.0, k.1)

  after_write-Ends :
      (page_id : ℕ) (frame : Frame P) (p : Pool) (r : IoResult (Unit {0}) × C.Store)
      → Ends (λ _ _. Unit {0}) r
      → Ends (λ _ _. Unit {0}) (after_write zero_prob E C page_id frame p r)
  after_write-Ends page_id frame p (ok _, t) h = tt
  after_write-Ends page_id frame p (err x, t) h = h

  flush_frame-Ends :
      (page_id : ℕ) (o : Option (Frame P)) (p : Pool)
      → Ends (λ _ _. Unit {0}) (flush_frame zero_prob E C page_id o p)
  flush_frame-Ends page_id none p = tt
  flush_frame-Ends page_id (some frame) p = elim (Bool-cases frame.meta.dirty) [
    | inl d ↦ rw d (
        after_write-Ends page_id frame p (C.write_page page_id frame.data_bytes C.no_flags p.store)
          (ids.write_page-Ends page_id frame.data_bytes C.no_flags p.store))
    | inr d ↦ rw d tt
  ]

  evict-Ends : (o : Option ℕ) (p : Pool) → Ends (λ _ _. Unit {0}) (evict zero_prob E C o p)
  unfolding flush
  evict-Ends none p = tt
  evict-Ends (some v) p =
      Ends-then _ (flush zero_prob E C v p) (flush_frame-Ends v (lookup v p.frames) p) λ _ q. tt

  Runs-Ends :
      (page_size : ℕ) (p : Pool) (r : IoResult (Unit {0}) × Pool)
      → Runs zero_prob E C page_size p r
      → Ends (λ _ _. Unit {0}) r
  unfolding evict_one
  Runs-Ends page_size p r (done room) = tt
  Runs-Ends page_size p r (all_pinned full e) = λ q. cc
  Runs-Ends page_size p r (write_failed full e) =
      subst (Ends (λ _ _. Unit {0})) e
        (evict-Ends (E.pick_victim (metas zero_prob E C p.frames) p.eviction) p)
  Runs-Ends page_size p r (again full e later) = Runs-Ends page_size _ r later

  module _ (lawful : PolicyLaws E) where
    make_room-Ends :
        (page_size : ℕ) (p : Pool)
        → Distinct p.frames
        → Ends (λ _ _. Unit {0}) (make_room zero_prob E C (enough_fuel zero_prob E C p) page_size p)
    make_room-Ends page_size p d =
        Runs-Ends page_size p _ (make_room-Runs zero_prob E C lawful page_size p d)

    pub insert_page-Ends :
        (id : ℕ) (bytes : List ℕ) (p : Pool)
        → Distinct p.frames
        → Ends (λ _ _. Unit {0}) (insert_page zero_prob E C id bytes p)
    unfolding insert_page
    insert_page-Ends id bytes p d =
        Ends-then _ (make_room zero_prob E C (enough_fuel zero_prob E C p) (length bytes) p)
          (make_room-Ends (length bytes) p d) λ _ q. tt

    miss-Ends :
        (id load_ns : ℕ) (r : IoResult (List ℕ × C.Flags)) (p : Pool)
        → Distinct p.frames
        → Answers r
        → Ends (λ _ _. Unit {0}) (miss zero_prob E C id load_ns r p)
    miss-Ends id load_ns (err e) p d h = h
    miss-Ends id load_ns (ok (buf, _)) p d h =
        Ends-then _ (make_room zero_prob E C (enough_fuel zero_prob E C p) (length buf) _)
          (make_room-Ends (length buf) _ d) λ _ q. tt

    pub pin-Ends :
        (elapsed_ns id : ℕ) (p : Pool)
        → Distinct p.frames
        → Ends (λ _ _. Unit {0}) (pin zero_prob E C elapsed_ns id p)
    unfolding pin
    pin-Ends elapsed_ns id p d = elim (Option-cases (lookup id p.frames)) [
      | inl a ↦
          rw (a, pin)
            (miss-Ends id _ (C.read_page id p.store) _ d (ids.read_page-Answers id p.store))
      | inr (frame, l) ↦ rw (l, pin) tt
    ]

  pub drop_guard-Counts :
      (g : PinGuard) (n : ℕ) (p : Pool) → Counts n p → Counts n (drop_guard zero_prob E C g p)
  unfolding drop_guard unpin update_frame
  drop_guard-Counts g n p h = elim (Option-cases (lookup g.page_id p.frames)) [
    | inl a ↦ rw (a, update_frame) h
    | inr (frame, l) ↦ rw (l, update_frame) (insert-Distinct g.page_id _ p.frames h.0, h.1)
  ]

module _ {P : Type 0} (zero_prob : P) (E : EvictionPolicy P) (C : ChunkStore)
    (laws : StoreLaws C) where
  -- The frame of a guard that is dropped has one pin less, and no page changes.
  pub drop_guard-Preserves :
      (g : PinGuard) (p : BufferPool zero_prob E C)
      → IsCoherent zero_prob E C p
      → Preserves zero_prob E C laws p (drop_guard zero_prob E C g p)
  unfolding drop_guard unpin update_frame content
  drop_guard-Preserves g p h = elim (Option-cases (lookup g.page_id p.frames)) [
    | inl a ↦ rw (a, update_frame) (Preserves-refl zero_prob E C laws p h)
    | inr (frame, l) ↦
        rw (l, update_frame)
          (record {
            coherent = record {
              clean = λ j fr k d. ground (
                arith,
                lookup-insert g.page_id j (unpinned frame) p.frames,
                h.clean j fr,
                h.clean g.page_id frame,
              );
              fits = λ j fr k. ground (
                arith,
                lookup-insert g.page_id j (unpinned frame) p.frames,
                h.fits j fr,
                h.fits g.page_id frame,
              );
            };
            same = λ j. ground (arith, lookup-insert g.page_id j (unpinned frame) p.frames);
          })
  ]
    where
      unpinned : Frame P → Frame P
      unpinned f = record f {
        meta = record f.meta { pin_count = saturating_sub f.meta.pin_count 1 };
      }
