-- ===== src/BufferPool/Pool/Pinned.antt =====
-- Pinned pages under pin and insert_page of other pages: the pointer in a PinGuard stays good.
use Prim.Native.Nat.{min}
use pocket_data_mining.Base.{
  ℕ, ◌-◌, ◌^◌, ◌≡◌, ◌≢◌, true, some, List, length, arith, inl, inr, Option-cases,
}
use pocket_data_mining.Base.Assoc.{lookup, lookup-insert, Distinct}
use pocket_data_mining.Base.Io.{IoResult, ok, err}
use pocket_data_mining.Base.Exec.{settle-keeps}
use pocket_data_mining.Types.{is_pinned}
use pocket_data_mining.Storage.ChunkStore.{ChunkStore}
use pocket_data_mining.BufferPool.Policy.{EvictionPolicy, PolicyLaws}
use pocket_data_mining.BufferPool.Metrics.{record_miss, record_bytes_read}
use pocket_data_mining.BufferPool.Pool.{Frame, BufferPool, make_room}
use pocket_data_mining.BufferPool.Pool.Pin.{
  pinned_again, enough_fuel, loaded_frame, new_frame, miss, pin, insert_page,
}
use pocket_data_mining.BufferPool.Pool.Residents.{make_room-pinned}

module _ {P : Type 0} (zero_prob : P) (E : EvictionPolicy P) (C : ChunkStore)
    (lawful : PolicyLaws E) (id : ℕ) (frame : Frame P) (pinned : is_pinned frame.meta ≡ true) where
  abbrev IsResident : BufferPool zero_prob E C → Type 0
  IsResident p = lookup id p.frames ≡ some frame

  miss-IsResident :
      (other load_ns : ℕ) (r : IoResult (List ℕ × C.Flags)) (p : BufferPool zero_prob E C)
      → other ≢ id
      → Distinct p.frames
      → IsResident p
      → IsResident (miss zero_prob E C other load_ns r p).1
  miss-IsResident other load_ns (err e) p ne d l = l
  miss-IsResident other load_ns (ok (buf, flags)) p ne d l =
      settle-keeps IsResident _
        (make_room zero_prob E C (enough_fuel zero_prob E C p) (length buf)
          (record p { metrics = record_bytes_read (length buf) p.metrics }))
        (make_room-pinned zero_prob E C lawful _ (length buf) id frame _ pinned d l)
        λ _ q k. ground (
          arith,
          lookup-insert other id (loaded_frame zero_prob E C other buf load_ns q.tick) q.frames,
        )

  -- Where the policy picks no pinned frame, and each page has one frame, pinning another page
  -- leaves a pinned frame as it is, whatever is evicted for it and whether or not the pin
  -- succeeds.
  pub pin-IsResident :
      (elapsed_ns other : ℕ) (p : BufferPool zero_prob E C)
      → other ≢ id
      → Distinct p.frames
      → lookup id p.frames ≡ some frame
      → lookup id (pin zero_prob E C elapsed_ns other p).1.frames ≡ some frame
  unfolding pin
  pin-IsResident elapsed_ns other p ne d l = elim (Option-cases (lookup other p.frames)) [
    | inl a ↦
        rw (a, pin)
          (miss-IsResident other (min elapsed_ns (2 ^ 32 - 1)) (C.read_page other p.store)
            (record p { metrics = record_miss p.metrics }) ne d l)
    | inr (f, k) ↦
        rw (k, pin)
          (ground (arith, lookup-insert other id (pinned_again zero_prob E C p.tick f) p.frames))
  ]

  -- Where the policy picks no pinned frame, and each page has one frame, putting in another page
  -- leaves a pinned frame as it is, whether or not it succeeds.
  pub insert_page-IsResident :
      (other : ℕ) (bytes : List ℕ) (p : BufferPool zero_prob E C)
      → other ≢ id
      → Distinct p.frames
      → lookup id p.frames ≡ some frame
      → lookup id (insert_page zero_prob E C other bytes p).1.frames ≡ some frame
  unfolding insert_page
  insert_page-IsResident other bytes p ne d l =
      settle-keeps IsResident _
        (make_room zero_prob E C (enough_fuel zero_prob E C p) (length bytes) p)
        (make_room-pinned zero_prob E C lawful _ (length bytes) id frame p pinned d l)
        λ _ q k.
          ground
            (arith, lookup-insert other id (new_frame zero_prob E C other bytes q.tick) q.frames)
