-- ===== src/BufferPool/Pool/Budget.antt =====
-- pin and insert_page keep the byte account, and what they bring in fits in the budget.
use Prim.Native.Nat.{min}
use pocket_data_mining.Base.{
  ℕ, zero, suc, ◌+◌, ◌-◌, ◌^◌, ◌≤◌, ◌<◌, ◌≡◌, refl, false, Option, none, some, List, length, arith,
  inl, inr, Bool-cases, ltb, ltb_false→le,
}
use pocket_data_mining.Base.Assoc.{lookup, insert-Distinct, weight-insert}
use pocket_data_mining.Base.Io.{IoResult, ok, err}
use pocket_data_mining.Base.Exec.{Exec, Outcome, Outcome-settle, WhenOk, WhenOk-settle, WhenOk-all}
use pocket_data_mining.Base.Words.{add_u64}
use pocket_data_mining.Storage.ChunkStore.{ChunkStore}
use pocket_data_mining.BufferPool.Policy.{EvictionPolicy}
use pocket_data_mining.BufferPool.Metrics.{record_miss, record_bytes_read}
use pocket_data_mining.BufferPool.Pool.{Frame, BufferPool, evict_one, retry, make_room, install}
use pocket_data_mining.BufferPool.Pool.Pin.{
  pinned_again, hit, loaded_frame, new_frame, admit, miss, pin, insert_page,
}
use pocket_data_mining.BufferPool.Pool.View.{page_of}
use pocket_data_mining.BufferPool.Pool.Accounts.{
  frame_size, held, IsAccounted, Shrinks, make_room-Shrinks,
}
use pocket_data_mining.BufferPool.Pool.Residents.{make_room-IsAbsent}

module _ {P : Type 0} (zero_prob : P) (E : EvictionPolicy P) (C : ChunkStore) where
  abbrev Pool : Type 0
  Pool = BufferPool zero_prob E C

  abbrev HasRoom : ℕ → Unit {0} → Pool → Type 0
  HasRoom page_size _ q = add_u64 q.used_bytes page_size ≤ q.budget_bytes

  retry-HasRoom :
      (page_size : ℕ) (rest : Exec Pool (Unit {0})) (o : Option ℕ) (q : Pool)
      → WhenOk (HasRoom page_size) (rest q)
      → WhenOk (HasRoom page_size) (retry zero_prob E C rest o q)
  retry-HasRoom page_size rest none q h = tt
  retry-HasRoom page_size rest (some v) q h = h

  -- The loop ends by its test.
  make_room-HasRoom :
      (fuel page_size : ℕ) (p : Pool)
      → WhenOk (HasRoom page_size) (make_room zero_prob E C fuel page_size p)
  unfolding make_room
  make_room-HasRoom zero page_size p = tt
  make_room-HasRoom (suc fuel) page_size p =
      elim (Bool-cases (ltb p.budget_bytes (add_u64 p.used_bytes page_size))) [
        | inl full ↦
            rw (full, make_room)
              (WhenOk-settle (HasRoom page_size) _ (evict_one zero_prob E C p) (
                WhenOk-all _ (evict_one zero_prob E C p) (λ o q.
                  retry-HasRoom page_size (make_room zero_prob E C fuel page_size) o q
                    (make_room-HasRoom fuel page_size q))))
        | inr room ↦ rw (room, make_room) (ltb_false→le _ _ room)
      ]

  abbrev Made : Pool → ℕ → Pool → Type 0
  Made p id q = Shrinks zero_prob E C p q × (lookup id q.frames ≡ none)

  make_room-Made :
      (fuel page_size id : ℕ) (p : Pool)
      → IsAccounted zero_prob E C p
      → lookup id p.frames ≡ none
      → Outcome
          (λ a q. Made p id q × HasRoom page_size a q)
          (λ _ q. Made p id q)
          (make_room zero_prob E C fuel page_size p)
  make_room-Made fuel page_size id p h a =
      both _
        (
          make_room-Shrinks zero_prob E C fuel page_size p h,
          make_room-IsAbsent zero_prob E C fuel page_size id p a,
        )
        (make_room-HasRoom fuel page_size p)
    where
      both :
          (r : IoResult (Unit {0}) × Pool)
          → Made p id r.1
          → WhenOk (HasRoom page_size) r
          → Outcome (λ a q. Made p id q × HasRoom page_size a q) (λ _ q. Made p id q) r
      both (ok a, q) m w = (m, w)
      both (err e, q) m w = m

  -- The account is exact again, and what the pool holds is within its budget.
  abbrev pub WithinBudget : Pool → Type 0
  WithinBudget q = IsAccounted zero_prob E C q × (held zero_prob E C q ≤ q.budget_bytes)

  install-WithinBudget :
      (id : ℕ) (frame : Frame P) (q : Pool)
      → IsAccounted zero_prob E C q
      → lookup id q.frames ≡ none
      → q.used_bytes + length frame.data_bytes < 2 ^ 64
      → HasRoom (length frame.data_bytes) tt q
      → WithinBudget (install zero_prob E C id frame q)
  unfolding held
  install-WithinBudget id frame q h a fits room = (
    record {
      distinct = insert-Distinct id frame q.frames h.distinct;
      exact = ground (arith, h.exact, weight-insert (frame_size zero_prob E C) id frame q.frames);
      in_range = omega arith;
    },
    ground (arith, h.exact, weight-insert (frame_size zero_prob E C) id frame q.frames),
  )

  -- From an exact account, putting in a page that is not resident keeps the account exact, and if
  -- it succeeds, the frames hold no more than the budget. The account and the page together do
  -- not overflow.
  pub insert_page-WithinBudget :
      (id : ℕ) (bytes : List ℕ) (p : Pool)
      → IsAccounted zero_prob E C p
      → lookup id p.frames ≡ none
      → p.used_bytes + length bytes < 2 ^ 64
      → Outcome
          (λ _ q. WithinBudget q)
          (λ _ q. IsAccounted zero_prob E C q)
          (insert_page zero_prob E C id bytes p)
  unfolding insert_page
  insert_page-WithinBudget id bytes p h a fits =
      Outcome-settle (λ a q. Made p id q × HasRoom (length bytes) a q) (λ _ q. Made p id q) _ _ _ _
        (make_room-Made _ (length bytes) id p h a)
        (λ _ q ((s, b), room).
          install-WithinBudget id (new_frame zero_prob E C id bytes q.tick) q s.accounted b
            (omega (arith, s.less)) room)
        (λ _ q (s, b). s.accounted)

  admit-WithinBudget :
      (id load_ns : ℕ) (buf : List ℕ) (p : Pool)
      → IsAccounted zero_prob E C p
      → lookup id p.frames ≡ none
      → p.used_bytes + length buf < 2 ^ 64
      → Outcome
          (λ _ q. WithinBudget q)
          (λ _ q. IsAccounted zero_prob E C q)
          (admit zero_prob E C id load_ns buf p)
  admit-WithinBudget id load_ns buf p h a fits =
      Outcome-settle (λ a q. Made p id q × HasRoom (length buf) a q) (λ _ q. Made p id q) _ _ _ _
        (make_room-Made _ (length buf) id p h a)
        (λ _ q ((s, b), room).
          install-WithinBudget id (loaded_frame zero_prob E C id buf load_ns q.tick) q s.accounted b
            (omega (arith, s.less)) room)
        (λ _ q (s, b). s.accounted)

  hit-IsAccounted :
      (id : ℕ) (frame : Frame P) (p : Pool)
      → IsAccounted zero_prob E C p
      → lookup id p.frames ≡ some frame
      → IsAccounted zero_prob E C (hit zero_prob E C id frame p).1
  unfolding held
  hit-IsAccounted id frame p h l = record {
    distinct = insert-Distinct id (pinned_again zero_prob E C p.tick frame) p.frames h.distinct;
    exact = ground (
      arith,
      h.exact,
      weight-insert (frame_size zero_prob E C) id (pinned_again zero_prob E C p.tick frame)
          p.frames,
    );
    in_range = h.in_range;
  }

  miss-WithinBudget :
      (id load_ns : ℕ) (r : IoResult (List ℕ × C.Flags)) (p : Pool)
      → IsAccounted zero_prob E C p
      → lookup id p.frames ≡ none
      → ((buf : List ℕ) → page_of r ≡ ok buf → p.used_bytes + length buf < 2 ^ 64)
      → Outcome
          (λ _ q. WithinBudget q)
          (λ _ q. IsAccounted zero_prob E C q)
          (miss zero_prob E C id load_ns r p)
  unfolding held
  miss-WithinBudget id load_ns (err e) p h a fits = h
  miss-WithinBudget id load_ns (ok (buf, flags)) p h a fits =
      admit-WithinBudget id load_ns buf
        (record p { metrics = record_bytes_read (length buf) p.metrics })
        (record { distinct = h.distinct; exact = h.exact; in_range = h.in_range }) a (fits buf refl)

  -- From an exact account, a pin of a page that is not resident keeps the account exact, and if
  -- it succeeds, the frames hold no more than the budget. The account and the page together do
  -- not overflow.
  pub pin-WithinBudget :
      (elapsed_ns id : ℕ) (p : Pool)
      → IsAccounted zero_prob E C p
      → lookup id p.frames ≡ none
      → ((buf : List ℕ)
          → page_of (C.read_page id p.store) ≡ ok buf
          → p.used_bytes + length buf < 2 ^ 64)
      → Outcome
          (λ _ q. WithinBudget q)
          (λ _ q. IsAccounted zero_prob E C q)
          (pin zero_prob E C elapsed_ns id p)
  unfolding pin held
  pin-WithinBudget elapsed_ns id p h a fits =
      rw (a, pin)
        (miss-WithinBudget id (min elapsed_ns (2 ^ 32 - 1)) (C.read_page id p.store)
          (record p { metrics = record_miss p.metrics })
          (record { distinct = h.distinct; exact = h.exact; in_range = h.in_range }) a fits)

  -- From an exact account, a pin of a resident page succeeds, keeps the account exact and takes
  -- no bytes.
  pub pin-IsAccounted :
      (elapsed_ns id : ℕ) (frame : Frame P) (p : Pool)
      → IsAccounted zero_prob E C p
      → lookup id p.frames ≡ some frame
      → Outcome
          (λ _ q. IsAccounted zero_prob E C q × (q.used_bytes ≡ p.used_bytes))
          (λ _ _. ⊥)
          (pin zero_prob E C elapsed_ns id p)
  unfolding pin
  pin-IsAccounted elapsed_ns id frame p h l = rw (l, pin) (hit-IsAccounted id frame p h l, refl)

  make_room-idle :
      (fuel page_size : ℕ) (p : Pool)
      → ltb p.budget_bytes (add_u64 p.used_bytes page_size) ≡ false
      → make_room zero_prob E C (suc fuel) page_size p ≡ (ok tt, p)
  unfolding make_room
  make_room-idle fuel page_size p e = rw (e, make_room)

  -- From an exact account, putting in a page that is resident, where the budget has room for it,
  -- leaves an account that is ahead of what the frames hold by the size of the frame that was
  -- replaced.
  pub insert_page_resident :
      (id : ℕ) (bytes : List ℕ) (frame : Frame P) (p : Pool)
      → IsAccounted zero_prob E C p
      → lookup id p.frames ≡ some frame
      → p.used_bytes + length bytes ≤ p.budget_bytes
      → p.budget_bytes < 2 ^ 64
      → let q = (insert_page zero_prob E C id bytes p).1 in
        q.used_bytes ≡ held zero_prob E C q + length frame.data_bytes
  unfolding insert_page held
  insert_page_resident id bytes frame p h l room fits =
      rw (make_room-idle (length p.frames) (length bytes) p (ground arith)) (
        ground (
          arith,
          h.exact,
          weight-insert (frame_size zero_prob E C) id (new_frame zero_prob E C id bytes p.tick)
              p.frames,
        ))
