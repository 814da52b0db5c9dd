-- ===== src/BufferPool/Pool/Transparency.antt =====
-- pin, pin_mut and insert_page against the pages that a client sees, on success and on failure.
use Prim.Native.Nat.{min}
use pocket_data_mining.Base.{
  ℕ, ◌-◌, ◌<◌, ◌^◌, ◌≡◌, refl, ◌∙◌, none, some, List, length, arith, inl, inr, ◌==◌, if◌then◌else◌,
  Option-cases,
}
use pocket_data_mining.Base.Assoc.{lookup, lookup-insert}
use pocket_data_mining.Base.Io.{IoResult, ok, err}
use pocket_data_mining.Base.Exec.{Outcome, Outcome-state, Outcome-mono, Outcome-settle}
use pocket_data_mining.Storage.ChunkStore.{ChunkStore, StoreLaws}
use pocket_data_mining.BufferPool.Policy.{EvictionPolicy}
use pocket_data_mining.BufferPool.Metrics.{record_miss, record_bytes_read}
use pocket_data_mining.BufferPool.Pool.{Frame, PinGuard, BufferPool, make_room, install}
use pocket_data_mining.BufferPool.Pool.Pin.{
  pinned_again, hit, loaded_frame, new_frame, enough_fuel, admit, miss, pin, insert_page,
}
use pocket_data_mining.BufferPool.Pool.View.{page_of, content, IsCoherent}
use pocket_data_mining.BufferPool.Pool.Coherence.{
  Preserves, Preserves-refl, Preserves-trans, make_room-Preserves,
}
use pocket_data_mining.BufferPool.Pool.Residents.{make_room-IsAbsent}

module _ {P : Type 0} (zero_prob : P) (E : EvictionPolicy P) (C : ChunkStore)
    (laws : StoreLaws C) where
  abbrev Pool : Type 0
  Pool = BufferPool zero_prob E C

  abbrev Same : Pool → Pool → Type 0
  Same = Preserves zero_prob E C laws

  -- The guard shows the page that was asked for, as the client saw it before.
  abbrev pub Shows : Pool → ℕ → PinGuard → Pool → Type 0
  Shows p id g q = Same p q × (g.page_id ≡ id) × (content zero_prob E C p id ≡ ok g.data_bytes)

  hit-Shows :
      (id : ℕ) (frame : Frame P) (p : Pool)
      → IsCoherent zero_prob E C p
      → lookup id p.frames ≡ some frame
      → Shows p id
          (record { page_id = id; data_bytes = frame.data_bytes })
          (hit zero_prob E C id frame p).1
  unfolding content
  hit-Shows id frame p h l = (
    record {
      coherent = record {
        clean = λ j fr k d. ground (
          arith,
          lookup-insert id j (pinned_again zero_prob E C p.tick frame) p.frames,
          h.clean j fr,
          h.clean id frame,
        );
        fits = λ j fr k. ground (
          arith,
          lookup-insert id j (pinned_again zero_prob E C p.tick frame) p.frames,
          h.fits j fr,
          h.fits id frame,
        );
      };
      same = λ j.
          ground (arith, lookup-insert id j (pinned_again zero_prob E C p.tick frame) p.frames);
    },
    refl,
    ground arith,
  )

  -- A frame put in where its page was absent, with the bytes that the store holds.
  install-Same :
      (id load_ns : ℕ) (buf : List ℕ) (q : Pool)
      → IsCoherent zero_prob E C q
      → lookup id q.frames ≡ none
      → page_of (C.read_page id q.store) ≡ ok buf
      → (id < 2 ^ 64) × (length buf < 2 ^ 32)
      → Same q (install zero_prob E C id (loaded_frame zero_prob E C id buf load_ns q.tick) q)
  unfolding content
  install-Same id load_ns buf q h a e fit = record {
    coherent = record {
      clean = λ j fr k d. ground (
        arith,
        lookup-insert id j (loaded_frame zero_prob E C id buf load_ns q.tick) q.frames,
        h.clean j fr,
      );
      fits = λ j fr k. ground (
        arith,
        lookup-insert id j (loaded_frame zero_prob E C id buf load_ns q.tick) q.frames,
        h.fits j fr,
      );
    };
    same = λ j.
        ground
          (arith, lookup-insert id j (loaded_frame zero_prob E C id buf load_ns q.tick) q.frames);
  }

  stored-content :
      (id : ℕ) (buf : List ℕ) (q : Pool)
      → lookup id q.frames ≡ none
      → content zero_prob E C q id ≡ ok buf
      → page_of (C.read_page id q.store) ≡ ok buf
  unfolding content
  stored-content id buf q a c = ground arith

  admit-Shows :
      (id load_ns : ℕ) (buf : List ℕ) (p : Pool)
      → IsCoherent zero_prob E C p
      → lookup id p.frames ≡ none
      → content zero_prob E C p id ≡ ok buf
      → (id < 2 ^ 64) × (length buf < 2 ^ 32)
      → Outcome (Shows p id) (λ _ q. Same p q) (admit zero_prob E C id load_ns buf p)
  admit-Shows id load_ns buf p h a c fit =
      Outcome-settle (λ _ q. Room q) (λ _ q. Room q) _ _ _
        (make_room zero_prob E C (enough_fuel zero_prob E C p) (length buf) p)
        (Outcome-state Room _ (
          make_room-Preserves zero_prob E C laws _ (length buf) p h,
          make_room-IsAbsent zero_prob E C _ (length buf) id p a,
        ))
        (λ _ q (k, b). (
          Preserves-trans zero_prob E C laws p q _ k (
              install-Same id load_ns buf q k.coherent b (stored-content id buf q b (k.same id ∙ c))
                fit),
          refl,
          c,
        ))
        (λ _ q k. k.0)
    where
      Room : Pool → Type 0
      Room q = Same p q × (lookup id q.frames ≡ none)

  -- The page, if it can be read, has a length that its header can say.
  abbrev pub ContentFits : ℕ → Pool → Type 0
  ContentFits id p =
      (buf : List ℕ) → content zero_prob E C p id ≡ ok buf → (id < 2 ^ 64) × (length buf < 2 ^ 32)

  miss-Shows :
      (id load_ns : ℕ) (r : IoResult (List ℕ × C.Flags)) (p : Pool)
      → IsCoherent zero_prob E C p
      → lookup id p.frames ≡ none
      → C.read_page id p.store ≡ r
      → ContentFits id p
      → Outcome (Shows p id) (λ _ q. Same p q) (miss zero_prob E C id load_ns r p)
  unfolding content
  miss-Shows id load_ns (err e) p h a c fit = Preserves-refl zero_prob E C laws p h
  miss-Shows id load_ns (ok (buf, flags)) p h a c fit =
      Outcome-mono (Shows counted id) (Shows p id) (λ _ q. Same counted q) (λ _ q. Same p q)
        (admit zero_prob E C id load_ns buf counted)
        (admit-Shows id load_ns buf counted (record { clean = h.clean; fits = h.fits }) a
          (ground arith) (fit buf (ground arith)))
        (λ g q (k, named, shown). (record { coherent = k.coherent; same = k.same }, named, shown))
        (λ _ q k. record { coherent = k.coherent; same = k.same })
    where
      counted : Pool
      counted = record p { metrics = record_bytes_read (length buf) p.metrics }

  -- Over a store that keeps its contract, pinning a page of a coherent pool changes no page that
  -- a client sees, on success and on failure, and on success the guard shows the bytes that the
  -- page had. The id and the bytes of the page are within the widths of the header.
  pub pin-Shows :
      (elapsed_ns id : ℕ) (p : Pool)
      → IsCoherent zero_prob E C p
      → ContentFits id p
      → Outcome (Shows p id) (λ _ q. Same p q) (pin zero_prob E C elapsed_ns id p)
  unfolding pin content
  pin-Shows elapsed_ns id p h fit = elim (Option-cases (lookup id p.frames)) [
    | inl a ↦
        rw (a, pin)
          (Outcome-mono (Shows counted id) (Shows p id) (λ _ q. Same counted q) (λ _ q. Same p q) _
            (miss-Shows id (min elapsed_ns (2 ^ 32 - 1)) (C.read_page id p.store) counted
              (record { clean = h.clean; fits = h.fits }) a refl fit)
            (λ g q (k, named, shown).
              (record { coherent = k.coherent; same = k.same }, named, shown))
            (λ _ q k. record { coherent = k.coherent; same = k.same }))
    | inr (frame, l) ↦ rw (l, pin) (hit-Shows id frame p h l)
  ]
    where
      counted : Pool
      counted = record p { metrics = record_miss p.metrics }

  -- A page that is put in shows its new bytes, and every other page what it showed.
  abbrev pub Written : Pool → ℕ → List ℕ → Pool → Type 0
  Written p id bytes q =
      IsCoherent zero_prob E C q
      × ((j : ℕ)
          → content zero_prob E C q j ≡ (if id == j then ok bytes else content zero_prob E C p j))

  install-Written :
      (id : ℕ) (bytes : List ℕ) (p q : Pool)
      → Same p q
      → (id < 2 ^ 64) × (length bytes < 2 ^ 32)
      → Written p id bytes (install zero_prob E C id (new_frame zero_prob E C id bytes q.tick) q)
  unfolding content
  install-Written id bytes p q k fit = (
    record {
      clean = λ j fr l d. ground (
        arith,
        lookup-insert id j (new_frame zero_prob E C id bytes q.tick) q.frames,
        k.coherent.clean j fr,
      );
      fits = λ j fr l. ground (
        arith,
        lookup-insert id j (new_frame zero_prob E C id bytes q.tick) q.frames,
        k.coherent.fits j fr,
      );
    },
    λ j.
        ground
          (arith, lookup-insert id j (new_frame zero_prob E C id bytes q.tick) q.frames, k.same j),
  )

  -- Over a store that keeps its contract, insert_page on a coherent pool sets the bytes of its
  -- page and leaves every other page, or fails and changes no page. The id and the length are
  -- within the widths of the header.
  pub insert_page-Written :
      (id : ℕ) (bytes : List ℕ) (p : Pool)
      → IsCoherent zero_prob E C p
      → id < 2 ^ 64
      → length bytes < 2 ^ 32
      → Outcome
          (λ _ q. Written p id bytes q)
          (λ _ q. Same p q)
          (insert_page zero_prob E C id bytes p)
  unfolding insert_page
  insert_page-Written id bytes p h hid hlen =
      Outcome-settle (λ _ q. Same p q) (λ _ q. Same p q) _ _ _
        (make_room zero_prob E C (enough_fuel zero_prob E C p) (length bytes) p)
        (Outcome-state (Same p) _ (make_room-Preserves zero_prob E C laws _ (length bytes) p h))
        (λ _ q k. install-Written id bytes p q k (hid, hlen)) (λ _ q k. k)
