-- ===== src/Mining/Algorithms/PoolBodies.antt =====
-- get_body of mining/algorithms over the buffer pool: the state that it needs, and what a fetch leaves
-- of the bodies that are there.
pub mod Lawful
use mathlib.Core.Path.{subst}
use pocket_data_mining.Base.{
  ℕ, suc, ◌+◌, ◌*◌, ◌%◌, ◌<◌, ◌≤◌, ◌^◌, ◌≡◌, refl, sym, ◌∙◌, ap, List, [], ◌∷◌, ◌++◌, length, arith,
  inl, inr, Bool-cases, leb, ◌==◌, if◌then◌else◌, Compare-cases, false, ltb,
}
use pocket_data_mining.Base.Assoc.{Distinct}
use pocket_data_mining.Base.Io.{ok}
use pocket_data_mining.Base.Words.{add_i64, u32_mod}
use pocket_data_mining.Base.Exec.{Ends, Ends-mono, Ends-settle, Ends-all}
use pocket_data_mining.Types.{UlEntry}
use pocket_data_mining.Storage.ChunkStore.{ChunkStore, StoreLaws, PageIdLaws}
use pocket_data_mining.BufferPool.Policy.{EvictionPolicy, PolicyLaws}
use pocket_data_mining.BufferPool.Pool.{PinGuard, BufferPool, set_budget}
use pocket_data_mining.BufferPool.Pool.Pin.{pin, insert_page, drop_guard}
use pocket_data_mining.BufferPool.Pool.View.{content, IsCoherent}
use pocket_data_mining.BufferPool.Pool.Coherence.{Preserves, Preserves-trans}
use pocket_data_mining.BufferPool.Pool.Transparency.{Shows, Written, pin-Shows, insert_page-Written}
use pocket_data_mining.BufferPool.Pool.Steady.{
  Counts, pin-Counts, insert_page-Counts, insert_page-Ends, pin-Ends, drop_guard-Counts,
  drop_guard-Preserves,
}
use pocket_data_mining.Mining.UlJoin.{
  Joined, joined_empty, push_entry, pair_entry, triple_entry, skip_below, prefix_iutils, join_pairs,
  join_prefixed, join_entries, serialize_ul_body, deserialize_ul_body,
}
use pocket_data_mining.Mining.UlJoin.Bytes.{length-serialize_ul_body, deserialize-serialize}
use pocket_data_mining.Mining.UlJoin.Merge.{sum_i64}
use pocket_data_mining.Mining.UlJoin.Materialize.{
  UlBody, in_memory, on_disk, materialize_threshold_bytes, materialize, joined_header,
  join_utility_lists, get_body, decoded, ok-injective,
}
use pocket_data_mining.Mining.Search.Nodes.{
  Node, Describes, IsStorable, sum_iutils_of, sum_rutils_of,
}
use pocket_data_mining.Mining.Core.Context.{apply_os_safety_net}
use pocket_data_mining.Mining.Search.Lawful.{BodiesLaws}
use pocket_data_mining.Mining.Algorithms.Parts.{pool_bodies}

module _ {P : Type 0} (zero_prob : P) (E : EvictionPolicy P) (C : ChunkStore) (laws : StoreLaws C)
    (ids : PageIdLaws C) where
  abbrev pub Pool : Type 0
  Pool = BufferPool zero_prob E C

  -- A pool that is coherent, with one frame for each page and page ids left for `n` more joins.
  pub record HasRoom (n : ℕ) (p : Pool) : Type 0 where
    pub coherent : IsCoherent zero_prob E C p
    pub distinct : Distinct p.frames
    pub room : ids.counter p.store + n < 2 ^ 64

  -- The body has these entries: at hand, or as the bytes of a page whose id was given out.
  abbrev pub Keeps : Pool → UlBody → List UlEntry → Type 0
  Keeps p (in_memory kept) es = kept ≡ es
  Keeps p (on_disk id) es =
      (content zero_prob E C p id ≡ ok (serialize_ul_body es)) × (id < ids.counter p.store)

  Keeps-steady :
      (p q : Pool) (c : UlBody) (fs : List UlEntry)
      → Preserves zero_prob E C laws p q
      → ids.counter q.store ≡ ids.counter p.store
      → Keeps p c fs
      → Keeps q c fs
  Keeps-steady p q (in_memory kept) fs k e h = h
  Keeps-steady p q (on_disk id) fs k e h = (k.same id ∙ h.0, omega (arith, e, h.1))

  -- What is left after an operation that changes no page.
  abbrev Left : ℕ → Pool → Pool → Type 0
  Left n p q = HasRoom n q × ((c : UlBody) (fs : List UlEntry) → Keeps p c fs → Keeps q c fs)

  steady-Left :
      (n : ℕ) (p q : Pool)
      → HasRoom n p
      → Preserves zero_prob E C laws p q
      → Counts zero_prob E C ids (ids.counter p.store) q
      → Left n p q
  steady-Left n p q h k (d, e) = (
    record { coherent = k.coherent; distinct = d; room = omega (arith, e, h.room) },
    λ c fs. Keeps-steady p q c fs k e,
  )

  abbrev pub Fetched : ℕ → Pool → List UlEntry → List UlEntry → Pool → Type 0
  Fetched n p es found t =
      HasRoom n t × (found ≡ es) × ((c : UlBody) (fs : List UlEntry) → Keeps p c fs → Keeps t c fs)

  dropped-Fetched :
      (n id : ℕ) (p q : Pool) (es : List UlEntry) (g : PinGuard)
      → HasRoom n p
      → IsStorable es
      → content zero_prob E C p id ≡ ok (serialize_ul_body es)
      → Shows zero_prob E C laws p id g q
      → Counts zero_prob E C ids (ids.counter p.store) q
      → Ends (Fetched n p es) (decoded zero_prob E C (deserialize_ul_body g.data_bytes) g q)
  dropped-Fetched n id p q es g h st shows (k, named, e) counts =
      subst (λ bytes. Ends (Fetched n p es) (decoded zero_prob E C (deserialize_ul_body bytes) g q))
        (ok-injective _ _ (sym shows ∙ e))
        (rw (deserialize-serialize es st.fits) (left.0, refl, left.1))
    where
      left : Left n p (drop_guard zero_prob E C g q)
      left =
          steady-Left n p (drop_guard zero_prob E C g q) h
            (Preserves-trans zero_prob E C laws p q _ k
              (drop_guard-Preserves zero_prob E C laws g q k.coherent))
            (drop_guard-Counts zero_prob E C ids g (ids.counter p.store) q counts)

  module _ (lawful : PolicyLaws E) where
    pub get_body-Fetched :
        (elapsed_ns n : ℕ) (p : Pool) (c : UlBody) (es : List UlEntry)
        → HasRoom n p
        → IsStorable es
        → Keeps p c es
        → Ends (Fetched n p es) (get_body zero_prob E C elapsed_ns c p)
    unfolding get_body
    get_body-Fetched elapsed_ns n p (in_memory kept) es h st k = (h, k, λ c fs q. q)
    get_body-Fetched elapsed_ns n p (on_disk id) es h st (shows, given) =
        Ends-settle _ _ (pin zero_prob E C elapsed_ns id p) (
          Ends-mono _ _ (pin zero_prob E C elapsed_ns id p)
            (λ g q (shown, counts). dropped-Fetched n id p q es g h st shows shown counts)
            (Ends-all (Shows zero_prob E C laws p id) (λ _ q. Preserves zero_prob E C laws p q)
              (Counts zero_prob E C ids (ids.counter p.store)) (pin zero_prob E C elapsed_ns id p)
              (pin-Shows zero_prob E C laws elapsed_ns id p h.coherent (λ buf e. (
                omega (arith, h.room),
                subst (λ bytes. length bytes < 2 ^ 32) (ok-injective _ _ (sym shows ∙ e)) small,
              )))
              (pin-Counts zero_prob E C ids elapsed_ns id (ids.counter p.store) p
                (h.distinct, refl))
              (pin-Ends zero_prob E C ids lawful elapsed_ns id p h.distinct)))
      where
        small : length (serialize_ul_body es) < 2 ^ 32
        small = omega (arith, length-serialize_ul_body es, st.short)
