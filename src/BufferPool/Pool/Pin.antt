-- ===== src/BufferPool/Pool/Pin.antt =====
-- The operations of buffer_pool/pool.rs that bring a page in: pin, pin_mut and insert_page, and the
-- drops of the two guards of buffer_pool/frame.rs.
use Prim.Native.Nat.{min}
use pocket_data_mining.Base.{
  ℕ, suc, ◌-◌, ◌^◌, true, Option, none, some, List, length, ◌==◌, if◌then◌else◌,
}
use pocket_data_mining.Base.Assoc.{lookup, insert}
use pocket_data_mining.Base.Io.{IoResult, ok, err}
use pocket_data_mining.Base.Exec.{Exec, settle}
use pocket_data_mining.Base.Words.{add_u16, add_u32, add_u64}
use pocket_data_mining.Storage.ChunkStore.{ChunkStore}
use pocket_data_mining.BufferPool.Policy.{EvictionPolicy}
use pocket_data_mining.BufferPool.Metrics.{record_hit, record_miss, record_bytes_read}
use pocket_data_mining.BufferPool.Pool.{
  Frame, PinGuard, Frame_new, BufferPool, make_room, install, update_frame, mark_dirty, unpin,
}

module _ {P : Type 0} (zero_prob : P) (E : EvictionPolicy P) (C : ChunkStore) where
  abbrev Pool : Type 0
  Pool = BufferPool zero_prob E C

  -- A pin of a resident frame.
  abbrev pub pinned_again : ℕ → Frame P → Frame P
  pinned_again tick frame = record frame {
    meta = record frame.meta {
      pin_count = add_u16 frame.meta.pin_count 1;
      access_count = add_u32 frame.meta.access_count 1;
      last_access_tick = tick;
    };
  }

  abbrev pub hit : ℕ → Frame P → Exec Pool PinGuard
  hit page_id frame p = (
    ok (record { page_id = page_id; data_bytes = frame.data_bytes }),
    record p {
      tick = add_u64 p.tick 1;
      frames = insert page_id (pinned_again p.tick frame) p.frames;
      metrics = record_hit p.metrics;
      eviction = E.on_access page_id p.eviction;
    },
  )

  -- The frame of a page that was read, pinned once.
  abbrev pub loaded_frame : ℕ → List ℕ → ℕ → ℕ → Frame P
  loaded_frame page_id buf load_ns tick =
      let frame = Frame_new zero_prob E C page_id buf in
      record frame {
        meta = record frame.meta {
          pin_count = 1;
          access_count = 1;
          last_access_tick = tick;
          reload_cost_ns = load_ns;
        };
      }

  -- A new page of the algorithm: not pinned, and dirty, so that eviction writes it.
  abbrev pub new_frame : ℕ → List ℕ → ℕ → Frame P
  new_frame page_id bytes tick =
      let frame = Frame_new zero_prob E C page_id bytes in
      record frame {
        meta = record frame.meta {
          pin_count = 0;
          access_count = 1;
          last_access_tick = tick;
          dirty = true;
          reload_cost_ns = 50_000;
        };
      }

  -- One round more than there are frames: each round of the loop removes one.
  abbrev pub enough_fuel : Pool → ℕ
  enough_fuel p = suc (length p.frames)

  -- After the read: room is made, then the frame goes in.
  abbrev pub admit : ℕ → ℕ → List ℕ → Exec Pool PinGuard
  admit page_id load_ns buf p =
      settle
        (λ _ q. (
          ok (record { page_id = page_id; data_bytes = buf }),
          install zero_prob E C page_id (loaded_frame page_id buf load_ns q.tick) q,
        ))
        (make_room zero_prob E C (enough_fuel p) (length buf) p)

  abbrev pub miss : ℕ → ℕ → IoResult (List ℕ × C.Flags) → Exec Pool PinGuard
  miss page_id load_ns (err e) p = (err e, p)
  miss page_id load_ns (ok (buf, _)) p =
      admit page_id load_ns buf (record p { metrics = record_bytes_read (length buf) p.metrics })

  abbrev pin_frame : ℕ → ℕ → Option (Frame P) → Exec Pool PinGuard
  pin_frame elapsed_ns page_id (some frame) p = hit page_id frame p
  pin_frame elapsed_ns page_id none p =
      miss page_id (min elapsed_ns (2 ^ 32 - 1)) (C.read_page page_id p.store)
        (record p { metrics = record_miss p.metrics })

  unfoldable pub pin : ℕ → ℕ → Exec Pool PinGuard
  pin elapsed_ns page_id p = pin_frame elapsed_ns page_id (lookup page_id p.frames) p

  -- The body of pin_mut is that of pin; its guard differs in what it does when dropped.
  unfoldable pub pin_mut : ℕ → ℕ → Exec Pool PinGuard
  pin_mut elapsed_ns page_id p = pin_frame elapsed_ns page_id (lookup page_id p.frames) p

  unfoldable pub insert_page : ℕ → List ℕ → Exec Pool (Unit {0})
  insert_page page_id bytes p =
      settle (λ _ q. (ok tt, install zero_prob E C page_id (new_frame page_id bytes q.tick) q))
        (make_room zero_prob E C (enough_fuel p) (length bytes) p)

  -- Drop for PinGuard.
  unfoldable pub drop_guard : PinGuard → Pool → Pool
  unfolding unpin
  drop_guard g p = unpin zero_prob E C g.page_id p

  -- A write through PinMutGuard: the slice has a fixed length.
  unfoldable pub write_guard : PinGuard → List ℕ → Pool → Pool
  unfolding update_frame
  write_guard g bytes =
      update_frame zero_prob E C g.page_id
        λ f. if length bytes == length f.data_bytes then record f { data_bytes = bytes } else f

  -- Drop for PinMutGuard.
  unfoldable pub drop_mut_guard : PinGuard → Pool → Pool
  unfolding mark_dirty unpin
  drop_mut_guard g p = unpin zero_prob E C g.page_id (mark_dirty zero_prob E C g.page_id p)
