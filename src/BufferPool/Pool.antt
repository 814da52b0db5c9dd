-- ===== src/BufferPool/Pool.antt =====
-- buffer_pool/pool.rs and buffer_pool/frame.rs. The store and the policy are the values behind the
-- two trait objects. DashMap is a map from page ids to frames; the time that a load took is an
-- argument; calls run one at a time.
pub mod Pin
pub mod Rounds
pub mod View
pub mod Coherence
pub mod Transparency
pub mod Residents
pub mod Accounts
pub mod Budget
pub mod Termination
pub mod Pinned
pub mod Steady
use pocket_data_mining.Base.{
  ℕ, zero, suc, ◌+◌, ◌-◌, ◌^◌, ◌%◌, Bool, true, false, Option, none, some, List, [], ◌∷◌, map,
  length, ltb, ◌==◌, if◌then◌else◌,
}
use pocket_data_mining.Base.Assoc.{Assoc, lookup, insert, remove}
use pocket_data_mining.Base.Io.{IoResult, ok, err, pool_full, diverged}
use pocket_data_mining.Base.Exec.{Exec, settle, ◌>>=◌, ◌>>◌}
use pocket_data_mining.Base.Words.{add_u16, add_u32, add_u64, sub_u64, u32_mod, saturating_sub}
use pocket_data_mining.Types.{PageMeta, PageMeta_new}
use pocket_data_mining.Storage.ChunkStore.{ChunkStore}
use pocket_data_mining.BufferPool.Policy.{EvictionPolicy}
use pocket_data_mining.BufferPool.Metrics.{
  BufferPoolMetrics, metrics_new, record_hit, record_miss, record_eviction, record_dirty_flush,
  record_bytes_read, record_bytes_written, update_peak,
}

pub record Frame (P : Type 0) : Type 0 where
  pub data_bytes : List ℕ
  pub meta : PageMeta P

-- What PinGuard dereferences to: the frame's bytes at the time of the pin.
pub record PinGuard : Type 0 where
  pub page_id : ℕ
  pub data_bytes : List ℕ

module _ {P : Type 0} (zero_prob : P) (E : EvictionPolicy P) (C : ChunkStore) where
  abbrev pub Frame_new : ℕ → List ℕ → Frame P
  Frame_new page_id bytes = record {
    data_bytes = bytes;
    meta = PageMeta_new zero_prob page_id (length bytes % u32_mod);
  }

  pub record BufferPool : Type 0 where
    pub budget_bytes : ℕ
    pub used_bytes : ℕ
    pub frames : Assoc (Frame P)
    pub eviction : E.State
    pub store : C.Store
    pub metrics : BufferPoolMetrics
    pub tick : ℕ

  unfoldable pub new : ℕ → C.Store → E.State → BufferPool
  new budget_bytes store eviction = record {
    budget_bytes = budget_bytes;
    used_bytes = 0;
    frames = [];
    eviction = eviction;
    store = store;
    metrics = metrics_new;
    tick = 0;
  }

  unfoldable pub budget_remaining : BufferPool → ℕ
  budget_remaining p = saturating_sub p.budget_bytes p.used_bytes

  unfoldable pub set_budget : ℕ → BufferPool → BufferPool
  set_budget bytes p = record p { budget_bytes = bytes }

  -- `frames.get_mut(&page_id)` and an update of the frame, if there is one.
  unfoldable pub update_frame : ℕ → (Frame P → Frame P) → BufferPool → BufferPool
  update_frame page_id f p = elim (lookup page_id p.frames) [
    | none ↦ p
    | some frame ↦ record p { frames = insert page_id (f frame) p.frames }
  ]

  unfoldable pub unpin : ℕ → BufferPool → BufferPool
  unfolding update_frame
  unpin page_id =
      update_frame page_id
        λ f. record f { meta = record f.meta { pin_count = saturating_sub f.meta.pin_count 1 } }

  unfoldable pub mark_dirty : ℕ → BufferPool → BufferPool
  unfolding update_frame
  mark_dirty page_id = update_frame page_id λ f. record f { meta = record f.meta { dirty = true } }

  unfoldable pub set_predicted_prob : ℕ → P → BufferPool → BufferPool
  unfolding update_frame
  set_predicted_prob page_id prob =
      update_frame page_id λ f. record f { meta = record f.meta { predicted_access_prob = prob } }

  abbrev pub clean_frame : Frame P → Frame P
  clean_frame f = record f { meta = record f.meta { dirty = false } }

  -- After the page was written: two counters, and the dirty bit.
  abbrev pub flushed : ℕ → Frame P → BufferPool → C.Store → BufferPool
  flushed page_id frame p store = record p {
    store = store;
    metrics = record_bytes_written (length frame.data_bytes) (record_dirty_flush p.metrics);
    frames = insert page_id (clean_frame frame) p.frames;
  }

  abbrev pub after_write :
      ℕ → Frame P → BufferPool → IoResult (Unit {0}) × C.Store → IoResult (Unit {0}) × BufferPool
  after_write page_id frame p (ok _, store) = (ok tt, flushed page_id frame p store)
  after_write page_id frame p (err e, store) = (err e, record p { store = store })

  abbrev pub flush_frame : ℕ → Option (Frame P) → Exec BufferPool (Unit {0})
  flush_frame page_id none p = (ok tt, p)
  flush_frame page_id (some frame) p =
      if frame.meta.dirty
      then after_write page_id frame p (C.write_page page_id frame.data_bytes C.no_flags p.store)
      else (ok tt, p)

  unfoldable pub flush : ℕ → Exec BufferPool (Unit {0})
  flush page_id p = flush_frame page_id (lookup page_id p.frames) p

  -- The metadata of every frame, as the policy sees it.
  abbrev pub metas : Assoc (Frame P) → List (ℕ × PageMeta P)
  metas = map λ e. (e.0, e.1.meta)

  abbrev pub size_of : Option (Frame P) → ℕ
  size_of none = 0
  size_of (some frame) = length frame.data_bytes

  -- The part of evict_one after the flush.
  abbrev pub drop_frame : ℕ → BufferPool → BufferPool
  drop_frame victim p = record p {
    frames = remove victim p.frames;
    used_bytes = sub_u64 p.used_bytes (size_of (lookup victim p.frames));
    eviction = E.on_evict victim p.eviction;
    metrics = record_eviction p.metrics;
  }

  abbrev pub evict : Option ℕ → Exec BufferPool (Option ℕ)
  evict none p = (ok none, p)
  evict (some victim) p = settle (λ _ q. (ok (some victim), drop_frame victim q)) (flush victim p)

  unfoldable pub evict_one : Exec BufferPool (Option ℕ)
  unfolding flush
  evict_one p = evict (E.pick_victim (metas p.frames) p.eviction) p

  -- The body of the loop after evict_one: another round, or the error that all pages are pinned.
  abbrev pub retry : Exec BufferPool (Unit {0}) → Option ℕ → Exec BufferPool (Unit {0})
  retry rest none q = (err pool_full, q)
  retry rest (some _) q = rest q

  -- `while used + page_size > budget { evict_one()? … }`
  unfoldable pub make_room : ℕ → ℕ → Exec BufferPool (Unit {0})
  unfolding evict_one
  make_room zero page_size p = (err diverged, p)
  make_room (suc fuel) page_size p = elim (ltb p.budget_bytes (add_u64 p.used_bytes page_size)) [
    | true ↦ settle (retry (make_room fuel page_size)) (evict_one p)
    | false ↦ (ok tt, p)
  ]

  -- The frame goes in, with the accounts and the policy's notice.
  abbrev pub install : ℕ → Frame P → BufferPool → BufferPool
  install page_id frame p =
      let used = add_u64 p.used_bytes (length frame.data_bytes) in
      record p {
        tick = add_u64 p.tick 1;
        used_bytes = used;
        metrics = update_peak used p.metrics;
        frames = insert page_id frame p.frames;
        eviction = E.on_insert page_id p.eviction;
      }
