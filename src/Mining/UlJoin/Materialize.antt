-- ===== src/Mining/UlJoin/Materialize.antt =====
-- join_utility_lists of mining/components/ul_join.rs, and get_body of mining/algorithms/fhm.rs: a
-- joined list of 4096 bytes or more goes to the buffer pool, a smaller one stays in memory. The
-- progress counters are left out.
use pocket_data_mining.Base.{
  ℕ, ◌*◌, ◌%◌, ◌^◌, ◌<◌, ◌≡◌, refl, sym, ◌∙◌, ap, true, Option, none, some, List, length, arith,
  All, leb, ◌==◌, if◌then◌else◌, inl, inr, Bool-cases,
}
use mathlib.Core.Path.{subst}
use pocket_data_mining.Base.Assoc.{lookup, lookup-insert}
use pocket_data_mining.Base.Io.{ok, err, panicked}
use pocket_data_mining.Base.Exec.{
  Exec, Outcome, Outcome-settle, WhenOk, WhenOk-settle, WhenOk-all, WhenOk-mono, settle,
}
use pocket_data_mining.Base.Words.{u32_mod}
use pocket_data_mining.Types.{UlEntry, UtilityList, materialized, recomputable}
use pocket_data_mining.Storage.ChunkStore.{ChunkStore, StoreLaws}
use pocket_data_mining.BufferPool.Policy.{EvictionPolicy}
use pocket_data_mining.BufferPool.Pool.{BufferPool, Frame, PinGuard, make_room, install}
use pocket_data_mining.BufferPool.Pool.Pin.{pin, insert_page, drop_guard, enough_fuel, new_frame}
use pocket_data_mining.BufferPool.Pool.View.{content, IsCoherent}
use pocket_data_mining.BufferPool.Pool.Coherence.{Preserves}
use pocket_data_mining.BufferPool.Pool.Transparency.{Shows, pin-Shows}
use pocket_data_mining.Mining.UlJoin.{Joined, serialize_ul_body, deserialize_ul_body, join_entries}
use pocket_data_mining.Mining.UlJoin.Bytes.{
  EntryFits, length-serialize_ul_body, deserialize-serialize,
}

abbrev pub materialize_threshold_bytes : ℕ
materialize_threshold_bytes = 4096

pub data UlBody : Type 0 where
  in_memory : List UlEntry → UlBody
  on_disk : ℕ → UlBody

-- The page id of the header: 0 for a list that is not on disk.
abbrev body_page : UlBody → ℕ
body_page (in_memory _) = 0
body_page (on_disk id) = id

unfoldable pub joined_header : List ℕ → Joined → UlBody → UtilityList
joined_header itemset j body = record {
  itemset = itemset;
  sum_iutils = j.sum_iutils;
  sum_rutils = j.sum_rutils;
  len = length j.result % u32_mod;
  page_id = body_page body;
  resident = true;
  recompute = if body_page body == 0 then recomputable else materialized;
}

pub ok-injective : (a b : List ℕ) → ok a ≡ ok b → a ≡ b
ok-injective a b e = cc

module _ {P : Type 0} (zero_prob : P) (E : EvictionPolicy P) (C : ChunkStore) where
  abbrev Pool : Type 0
  Pool = BufferPool zero_prob E C

  -- The part after the loops: where the body goes.
  unfoldable pub materialize : List UlEntry → Exec Pool UlBody
  materialize entries p =
      if leb materialize_threshold_bytes (length (serialize_ul_body entries))
      then (let (page_id, store) = C.next_page_id p.store in
          settle (λ _ q. (ok (on_disk page_id), q))
            (insert_page zero_prob E C page_id (serialize_ul_body entries)
              (record p { store = store })))
      else (ok (in_memory entries), p)

  unfoldable pub join_utility_lists :
      List ℕ → List UlEntry → List UlEntry → List UlEntry → Exec Pool (UtilityList × UlBody)
  unfolding materialize join_entries joined_header
  join_utility_lists itemset prefix_body px_body py_body p =
      let joined = join_entries prefix_body px_body py_body in
      settle (λ body q. (ok (joined_header itemset joined body, body), q))
        (materialize joined.result p)

  abbrev pub decoded : Option (List UlEntry) → PinGuard → Exec Pool (List UlEntry)
  decoded none g q = (err panicked, q)
  decoded (some entries) g q = (ok entries, drop_guard zero_prob E C g q)

  -- The guard is dropped when the entries have been read.
  unfoldable pub get_body : ℕ → UlBody → Exec Pool (List UlEntry)
  get_body elapsed_ns (in_memory entries) p = (ok entries, p)
  get_body elapsed_ns (on_disk page_id) p =
      settle (λ g q. decoded (deserialize_ul_body g.data_bytes) g q)
        (pin zero_prob E C elapsed_ns page_id p)

  -- A body whose entries are at hand: kept in memory, or the bytes of a resident page.
  abbrev AtHand : List UlEntry → UlBody → Pool → Type 0
  AtHand entries (in_memory kept) q = kept ≡ entries
  AtHand entries (on_disk id) q =
      (frame : Frame P) × (lookup id q.frames ≡ some frame)
      × (frame.data_bytes ≡ serialize_ul_body entries)

  insert_page-AtHand :
      (id : ℕ) (entries : List UlEntry) (p : Pool)
      → WhenOk
          (λ _ q. AtHand entries (on_disk id) q)
          (insert_page zero_prob E C id (serialize_ul_body entries) p)
  unfolding insert_page
  insert_page-AtHand id entries p =
      WhenOk-settle (λ _ q. AtHand entries (on_disk id) q) _
        (make_room zero_prob E C (enough_fuel zero_prob E C p) (length (serialize_ul_body entries))
          p)
        (WhenOk-all
          (λ x q.
            WhenOk (λ _ r. AtHand entries (on_disk id) r)
              (
                ok tt,
                install zero_prob E C id
                    (new_frame zero_prob E C id (serialize_ul_body entries) q.tick) q,
              ))
          _
          (λ _ q. (
            new_frame zero_prob E C id (serialize_ul_body entries) q.tick,
            ground (
              arith,
              lookup-insert id id (new_frame zero_prob E C id (serialize_ul_body entries) q.tick)
                  q.frames,
            ),
            refl,
          )))

  materialize-AtHand :
      (entries : List UlEntry) (p : Pool) → WhenOk (AtHand entries) (materialize entries p)
  unfolding materialize
  materialize-AtHand entries p =
      elim (Bool-cases (leb materialize_threshold_bytes (length (serialize_ul_body entries)))) [
        | inl large ↦
            rw (large, materialize)
              (WhenOk-settle (AtHand entries) (λ _ q. (ok (on_disk (C.next_page_id p.store).0), q))
                (insert_page zero_prob E C (C.next_page_id p.store).0 (serialize_ul_body entries)
                  (record p { store = (C.next_page_id p.store).1 }))
                (insert_page-AtHand (C.next_page_id p.store).0 entries _))
        | inr small ↦ rw (small, materialize) refl
      ]

  get_body-AtHand :
      (elapsed_ns : ℕ) (entries : List UlEntry) (body : UlBody) (q : Pool)
      → All EntryFits entries
      → AtHand entries body q
      → (get_body elapsed_ns body q).0 ≡ ok entries
  unfolding get_body pin
  get_body-AtHand elapsed_ns entries (in_memory kept) q fits e = ap ok e
  get_body-AtHand elapsed_ns entries (on_disk id) q fits (frame, l, e) =
      rw (l, e, deserialize-serialize entries fits)

  -- If join_utility_lists succeeds, its header has the itemset and the two sums, and fetching its
  -- body right after yields the joined entries, from memory or through the pool. The fields of
  -- the joined entries are within their widths.
  pub get_body-join :
      (elapsed_ns : ℕ) (itemset : List ℕ) (ps px py : List UlEntry) (p : Pool)
      → All EntryFits (join_entries ps px py).result
      → WhenOk
          (λ (ul, body) q.
            ((get_body elapsed_ns body q).0 ≡ ok (join_entries ps px py).result)
            × (ul.itemset ≡ itemset)
            × (ul.sum_iutils ≡ (join_entries ps px py).sum_iutils)
            × (ul.sum_rutils ≡ (join_entries ps px py).sum_rutils))
          (join_utility_lists itemset ps px py p)
  unfolding join_utility_lists
  get_body-join elapsed_ns itemset ps px py p fits =
      WhenOk-settle _ _ (materialize (join_entries ps px py).result p) (
        WhenOk-mono (AtHand (join_entries ps px py).result) _
          (materialize (join_entries ps px py).result p)
          (λ body q h. (
            get_body-AtHand elapsed_ns (join_entries ps px py).result body q fits h,
            refl,
            refl,
            refl,
          ))
          (materialize-AtHand (join_entries ps px py).result p))

  module _ (laws : StoreLaws C) where
    -- In a coherent pool over a store that keeps its contract, a body on disk whose page shows
    -- its bytes, resident or evicted, is fetched with its entries, or the fetch fails and changes
    -- no page. The id, the length and the fields of the entries are within their widths.
    pub get_body-evicted :
        (elapsed_ns id : ℕ) (entries : List UlEntry) (q : Pool)
        → All EntryFits entries
        → IsCoherent zero_prob E C q
        → content zero_prob E C q id ≡ ok (serialize_ul_body entries)
        → id < 2 ^ 64
        → 20 * length entries < 2 ^ 32
        → Outcome
            (λ es _. es ≡ entries)
            (λ _ r. Preserves zero_prob E C laws q r)
            (get_body elapsed_ns (on_disk id) q)
    unfolding get_body
    get_body-evicted elapsed_ns id entries q fits h shows hid hlen =
        Outcome-settle (Shows zero_prob E C laws q id) (λ _ r. Preserves zero_prob E C laws q r) _ _
          (λ g r. decoded (deserialize_ul_body g.data_bytes) g r)
          (pin zero_prob E C elapsed_ns id q)
          (pin-Shows zero_prob E C laws elapsed_ns id q h (λ buf c.
            (hid, subst (λ bytes. length bytes < 2 ^ 32) (ok-injective _ _ (sym shows ∙ c)) small)))
          (λ g r (k, named, e).
            subst
              (λ bytes.
                Outcome (λ es _. es ≡ entries) (λ _ x. Preserves zero_prob E C laws q x)
                  (decoded (deserialize_ul_body bytes) g r))
              (ok-injective _ _ (sym shows ∙ e)) (rw (deserialize-serialize entries fits) refl))
          (λ _ r k. k)
      where
        small : length (serialize_ul_body entries) < 2 ^ 32
        small = omega (arith, length-serialize_ul_body entries)
