-- ===== src/Mining/Algorithms/PoolBodies/Lawful.antt =====
-- join_utility_lists of mining/components/ul_join.rs over the buffer pool, and the laws that the search
-- asks of its bodies, filled in with the pool's.
use pocket_data_mining.Base.{
  ℕ, suc, ◌+◌, ◌<◌, ◌^◌, ◌≡◌, refl, List, length, arith, inl, inr, Bool-cases, leb,
}
use pocket_data_mining.Base.Exec.{Ends, Ends-mono, Ends-settle, Ends-all}
use pocket_data_mining.Types.{UlEntry}
use pocket_data_mining.Storage.ChunkStore.{ChunkStore, StoreLaws, PageIdLaws}
use pocket_data_mining.BufferPool.Policy.{EvictionPolicy, PolicyLaws}
use pocket_data_mining.BufferPool.Pool.{BufferPool, set_budget}
use pocket_data_mining.BufferPool.Pool.Pin.{insert_page}
use pocket_data_mining.BufferPool.Pool.View.{content, IsCoherent}
use pocket_data_mining.BufferPool.Pool.Coherence.{Preserves}
use pocket_data_mining.BufferPool.Pool.Transparency.{Written, insert_page-Written}
use pocket_data_mining.BufferPool.Pool.Steady.{Counts, insert_page-Counts, insert_page-Ends}
use pocket_data_mining.Mining.UlJoin.{Joined, join_entries, serialize_ul_body}
use pocket_data_mining.Mining.UlJoin.Bytes.{length-serialize_ul_body}
use pocket_data_mining.Mining.UlJoin.Materialize.{
  UlBody, in_memory, on_disk, materialize_threshold_bytes, materialize, joined_header,
  join_utility_lists,
}
use pocket_data_mining.Mining.Search.Nodes.{Describes, IsStorable}
use pocket_data_mining.Mining.Core.Context.{apply_os_safety_net}
use pocket_data_mining.Mining.Search.Lawful.{BodiesLaws}
use pocket_data_mining.Mining.UlJoin.Sums.{IsSummed, join_entries-IsSummed}
use pocket_data_mining.Mining.Algorithms.PoolBodies.{HasRoom, Keeps, get_body-Fetched}
use pocket_data_mining.Mining.Algorithms.Parts.{pool_bodies}

joined_header-Describes :
    (itemset : List ℕ) (j : Joined) (body : UlBody)
    → IsSummed j
    → Describes (joined_header itemset j body) (itemset, j.result)
unfolding joined_header
joined_header-Describes itemset j body (hi, hr) = record {
  itemset_eq = refl;
  iutils_eq = hi;
  rutils_eq = hr;
  len_eq = refl;
}

module _ {P : Type 0} (zero_prob : P) (E : EvictionPolicy P) (C : ChunkStore) (laws : StoreLaws C)
    (ids : PageIdLaws C) where
  abbrev Pool : Type 0
  Pool = BufferPool zero_prob E C

  abbrev Room : ℕ → Pool → Type 0
  Room = HasRoom zero_prob E C laws ids

  abbrev Has : Pool → UlBody → List UlEntry → Type 0
  Has = Keeps zero_prob E C laws ids

  -- The pool after an id was taken.
  abbrev numbered : Pool → Pool
  numbered p = record p { store = (C.next_page_id p.store).1 }

  numbered-content :
      (p : Pool) (j : ℕ) → content zero_prob E C (numbered p) j ≡ content zero_prob E C p j
  unfolding content
  numbered-content p j = rw (laws.read-next_page_id j p.store) refl

  numbered-IsCoherent :
      (p : Pool) → IsCoherent zero_prob E C p → IsCoherent zero_prob E C (numbered p)
  numbered-IsCoherent p h = record {
    clean = λ id frame l d. rw (laws.read-next_page_id id p.store) (h.clean id frame l d);
    fits = λ id frame l. h.fits id frame l;
  }

  numbered-Counts :
      (n : ℕ) (p : Pool)
      → Room (suc n) p
      → Counts zero_prob E C ids (ids.counter p.store + 1) (numbered p)
  numbered-Counts n p h = (h.distinct, ids.counter-next_page_id p.store (omega (arith, h.room)))

  -- A body that was put somewhere, with all that were there before.
  abbrev Stored : ℕ → Pool → List UlEntry → UlBody → Pool → Type 0
  Stored n p es body t =
      Room n t × Has t body es × ((c : UlBody) (fs : List UlEntry) → Has p c fs → Has t c fs)

  Keeps-Written :
      (id : ℕ) (bytes : List ℕ) (p q : Pool) (c : UlBody) (fs : List UlEntry)
      → id ≡ ids.counter p.store
      → Written zero_prob E C laws (numbered p) id bytes q
      → ids.counter q.store ≡ ids.counter p.store + 1
      → Has p c fs
      → Has q c fs
  Keeps-Written id bytes p q (in_memory kept) fs fresh w e k = k
  Keeps-Written id bytes p q (on_disk j) fs fresh w e (shows, given) =
      (ground (arith, w.1 j, numbered-content p j), omega (arith, e))

  Written-Stored :
      (n id : ℕ) (p q : Pool) (es : List UlEntry)
      → Room (suc n) p
      → id ≡ ids.counter p.store
      → Written zero_prob E C laws (numbered p) id (serialize_ul_body es) q
      → Counts zero_prob E C ids (ids.counter p.store + 1) q
      → Stored n p es (on_disk id) q
  Written-Stored n id p q es h fresh w (d, e) = (
    record { coherent = w.0; distinct = d; room = omega (arith, e, h.room) },
    (ground (arith, w.1 id), omega (arith, e)),
    λ c fs. Keeps-Written id (serialize_ul_body es) p q c fs fresh w e,
  )

  module _ (lawful : PolicyLaws E) where
    materialize-Stored :
        (n : ℕ) (p : Pool) (es : List UlEntry)
        → Room (suc n) p
        → IsStorable es
        → Ends (Stored n p es) (materialize zero_prob E C es p)
    unfolding materialize
    materialize-Stored n p es h st =
        elim (Bool-cases (leb materialize_threshold_bytes (length (serialize_ul_body es)))) [
          | inl large ↦
              rw (large, materialize)
                (Ends-settle (Stored n p es) _ (insert_page zero_prob E C id bytes (numbered p)) (
                  Ends-mono _ _ (insert_page zero_prob E C id bytes (numbered p))
                    (λ _ q (w, counts). Written-Stored n id p q es h (ids.id_lem p.store) w counts)
                    (Ends-all (λ _ q. Written zero_prob E C laws (numbered p) id bytes q)
                      (λ _ q. Preserves zero_prob E C laws (numbered p) q)
                      (Counts zero_prob E C ids (ids.counter p.store + 1))
                      (insert_page zero_prob E C id bytes (numbered p))
                      (insert_page-Written zero_prob E C laws id bytes (numbered p)
                        (numbered-IsCoherent p h.coherent)
                        (omega (arith, h.room, ids.id_lem p.store)) small)
                      (insert_page-Counts zero_prob E C ids id (ids.counter p.store + 1) bytes
                        (numbered p) (numbered-Counts n p h))
                      (insert_page-Ends zero_prob E C ids lawful id bytes (numbered p)
                        h.distinct))))
          | inr short ↦
              rw (short, materialize)
                (
                  record {
                    coherent = h.coherent;
                    distinct = h.distinct;
                    room = omega (arith, h.room);
                  },
                  refl,
                  λ c fs k. k,
                )
        ]
      where
        id : ℕ
        id = (C.next_page_id p.store).0

        bytes : List ℕ
        bytes = serialize_ul_body es

        small : length (serialize_ul_body es) < 2 ^ 32
        small = omega (arith, length-serialize_ul_body es, st.short)

    pub join-Stored :
        (n : ℕ) (p : Pool) (itemset : List ℕ) (ps px py : List UlEntry)
        → Room (suc n) p
        → IsStorable (join_entries ps px py).result
        → Ends
            (λ e t.
              Room n t
              × Describes e.0 (itemset, (join_entries ps px py).result)
              × Has t e.1 (join_entries ps px py).result
              × ((c : UlBody) (fs : List UlEntry) → Has p c fs → Has t c fs))
            (join_utility_lists zero_prob E C itemset ps px py p)
    unfolding join_utility_lists
    join-Stored n p itemset ps px py h st =
        Ends-settle _ _ (materialize zero_prob E C (join_entries ps px py).result p) (
          Ends-mono _ _ (materialize zero_prob E C (join_entries ps px py).result p)
            (λ body t (g, k, keep). (
              g,
              joined_header-Describes itemset (join_entries ps px py) body
                  (join_entries-IsSummed ps px py),
              k,
              keep,
            ))
            (materialize-Stored n p (join_entries ps px py).result h st))

    -- The bodies of the buffer pool, over a store that keeps its contract and a policy that keeps its
    -- own, are what the search relies on.
    abbrev pub pool_bodies-laws :
        (elapsed_ns : Pool → ℕ) → BodiesLaws (pool_bodies zero_prob E C elapsed_ns)
    pool_bodies-laws elapsed_ns = record {
      Good = HasRoom zero_prob E C laws ids;
      Shows = Keeps zero_prob E C laws ids;
      Good-mono = λ n m p le h. record {
        coherent = h.coherent;
        distinct = h.distinct;
        room = omega (arith, h.room);
      };
      get_body_lem = λ n p c es h st k.
          get_body-Fetched zero_prob E C laws ids lawful (elapsed_ns p) n p c es h st k;
      join_lem = λ n p itemset ps px py h st. join-Stored n p itemset ps px py h st;
    }

  -- Lowering the budget keeps what the pool holds.
  pub apply_os_safety_net-HasRoom :
      (available n : ℕ) (p : Pool)
      → Room n p
      → Room n (apply_os_safety_net zero_prob E C available p)
  unfolding apply_os_safety_net set_budget
  apply_os_safety_net-HasRoom available n p h = record {
    coherent = record {
      clean = λ id frame l d. h.coherent.clean id frame l d;
      fits = λ id frame l. h.coherent.fits id frame l;
    };
    distinct = h.distinct;
    room = h.room;
  }
