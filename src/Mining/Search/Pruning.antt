-- ===== src/Mining/Search/Pruning.antt =====
-- Pruning by the two sums of a header loses nothing: below a list that can_prune cuts off, no list
-- is of high utility.
use pocket_data_mining.Base.{
  ℕ, zero, suc, ◌%◌, ◌≤◌, ◌<◌, ◌^◌, ◌≡◌, refl, sym, ap, Bool, true, false, List, [], ◌∷◌, ◌++◌,
  length, arith, All, Bool-cases, ◌⊎◌, inl, inr, ◌==◌, ==→eq,
}
use pocket_data_mining.Base.Words.{u32_mod}
use pocket_data_mining.Types.{UlEntry, can_prune, is_high_utility}
use pocket_data_mining.Mining.UlJoin.Join.{Ascending}
use pocket_data_mining.Mining.Search.{Cuts, last_item}
use pocket_data_mining.Mining.Search.Nodes.{
  Node, header, IsStorable, join_node, join_node-IsStorable, length-join_node-le,
}
use pocket_data_mining.Mining.Search.Reference.{
  Found, children, own, mine, mine_one, mine_cons, mine_one_pruned,
}
use pocket_data_mining.Mining.Search.Chain.{
  IsChained, Chain, join-IsChained, total, total-join_node, sums-total,
}

-- The lists of one level.
pub record IsFamily (ps : List UlEntry) (ns : List Node) : Type 0 where
  pub prefix_ascending : Ascending ps
  pub storable : All (λ n. IsStorable n.1) ns
  pub chain : Chain ps ns
  pub small : All (λ n. total n.1 < 2 ^ 63) ns

abbrev pub below_if : Bool → List Found → List Found
below_if true below = below
below_if false below = []

module _ (L : Cuts) (min_utility : ℕ) where
  -- The search that visits every node.
  unfoldable pub every : ℕ → List UlEntry → List Node → List Found
  every fuel ps [] = []
  every zero ps (x ∷ ns) = []
  every (suc fuel) ps (x ∷ ns) =
      (own L min_utility x
        ++ below_if (L.extensible x.0) (every fuel x.1 (children L min_utility ps x ns)))
      ++ every fuel ps ns

  -- A fact about each join is one about each child.
  All-children :
      (K : Node → Type 0) (ps : List UlEntry) (x : Node) (ns : List Node)
      → All (λ n. K (join_node ps x n)) ns
      → All K (children L min_utility ps x ns)
  unfolding children
  All-children K ps x [] h = tt
  All-children K ps x (n ∷ ns) h =
      elim (Bool-cases (L.skip (last_item x.0) (last_item n.0) min_utility)) [
        | inl e ↦ rw (e, children) (All-children K ps x ns h.1)
        | inr e ↦ rw (e, children) (h.0, All-children K ps x ns h.1)
      ]

  join-chains :
      (ps : List UlEntry) (x y : Node) (ns : List Node)
      → Ascending ps
      → IsStorable x.1
      → IsStorable y.1
      → All (λ n. IsStorable n.1) ns
      → IsChained ps x.1 y.1
      → All (λ n. IsChained ps x.1 n.1) ns
      → All (λ n. IsChained ps y.1 n.1) ns
      → All (λ n. IsChained x.1 (join_node ps x y).1 (join_node ps x n).1) ns
  join-chains ps x y [] hp hx hy hn xy xs ys = tt
  join-chains ps x y (n ∷ ns) hp hx hy hn xy xs ys = (
    join-IsChained ps x y n hp hx.ascending hy.ascending hn.0.ascending xy xs.0 ys.0,
    join-chains ps x y ns hp hx hy hn.1 xy xs.1 ys.1,
  )

  children-Chain :
      (ps : List UlEntry) (x : Node) (ns : List Node)
      → Ascending ps
      → IsStorable x.1
      → All (λ n. IsStorable n.1) ns
      → All (λ n. IsChained ps x.1 n.1) ns
      → Chain ps ns
      → Chain x.1 (children L min_utility ps x ns)
  unfolding children
  children-Chain ps x [] hp hx hn xs c = tt
  children-Chain ps x (n ∷ ns) hp hx hn xs c =
      elim (Bool-cases (L.skip (last_item x.0) (last_item n.0) min_utility)) [
        | inl e ↦ rw (e, children) (children-Chain ps x ns hp hx hn.1 xs.1 c.1)
        | inr e ↦
            rw (e, children)
              (
                All-children (λ m. IsChained x.1 (join_node ps x n).1 m.1) ps x ns
                    (join-chains ps x n ns hp hx hn.0 hn.1 xs.0 xs.1 c.0),
                children-Chain ps x ns hp hx hn.1 xs.1 c.1,
              )
      ]

  join_nodes :
      (ps : List UlEntry) (x : Node) (ns : List Node)
      → Ascending ps
      → IsStorable x.1
      → All (λ n. IsStorable n.1) ns
      → All (λ n. IsStorable (join_node ps x n).1) ns
  join_nodes ps x [] hp hx hn = tt
  join_nodes ps x (n ∷ ns) hp hx hn =
      (join_node-IsStorable ps x n hp hx hn.0, join_nodes ps x ns hp hx hn.1)

  -- A child holds no more than its parent.
  Smaller : Node → Node → Type 0
  Smaller x n = (total n.1 ≤ total x.1) × (length n.1 ≤ length x.1)

  join_nodes-Smaller :
      (ps : List UlEntry) (x : Node) (ns : List Node)
      → Ascending ps
      → IsStorable x.1
      → All (λ n. IsStorable n.1) ns
      → All (λ n. IsChained ps x.1 n.1) ns
      → All (λ n. Smaller x (join_node ps x n)) ns
  unfolding Smaller
  join_nodes-Smaller ps x [] hp hx hn xs = tt
  join_nodes-Smaller ps x (n ∷ ns) hp hx hn xs = (
    (
      total-join_node ps x n hp hx.ascending hn.0.ascending xs.0,
      length-join_node-le ps x n hp hx.ascending hn.0.ascending,
    ),
    join_nodes-Smaller ps x ns hp hx hn.1 xs.1,
  )

  All-Smaller :
      (K : Node → Type 0) (x : Node) (ns : List Node)
      → ((n : Node) → Smaller x n → K n)
      → All (λ n. Smaller x n) ns
      → All K ns
  All-Smaller K x [] f h = tt
  All-Smaller K x (n ∷ ns) f h = (f n h.0, All-Smaller K x ns f h.1)

  -- The next level is a family again, and its lists hold no more than the one they extend.
  children-Smaller :
      (ps : List UlEntry) (x : Node) (ns : List Node)
      → IsFamily ps (x ∷ ns)
      → All (λ n. Smaller x n) (children L min_utility ps x ns)
  children-Smaller ps x ns h =
      All-children (λ n. Smaller x n) ps x ns
        (join_nodes-Smaller ps x ns h.prefix_ascending h.storable.0 h.storable.1 h.chain.0)

  pub children-IsFamily :
      (ps : List UlEntry) (x : Node) (ns : List Node)
      → IsFamily ps (x ∷ ns)
      → IsFamily x.1 (children L min_utility ps x ns)
  children-IsFamily ps x ns h = record {
    prefix_ascending = h.storable.0.ascending;
    storable =
        All-children (λ n. IsStorable n.1) ps x ns
          (join_nodes ps x ns h.prefix_ascending h.storable.0 h.storable.1);
    chain = children-Chain ps x ns h.prefix_ascending h.storable.0 h.storable.1 h.chain.0 h.chain.1;
    small =
        All-Smaller (λ n. total n.1 < 2 ^ 63) x (children L min_utility ps x ns)
          (λ n k. unfold Smaller in omega (arith, k.0, h.small.0)) (children-Smaller ps x ns h);
  }

  pub later-IsFamily :
      (ps : List UlEntry) (x : Node) (ns : List Node) → IsFamily ps (x ∷ ns) → IsFamily ps ns
  later-IsFamily ps x ns h = record {
    prefix_ascending = h.prefix_ascending;
    storable = h.storable.1;
    chain = h.chain.1;
    small = h.small.1;
  }

  -- No list at or below this one is of high utility.
  Low : Node → Type 0
  Low n = (length n.1 ≡ 0) ⊎ (total n.1 < min_utility)

  Low-Smaller : (x n : Node) → Low x → Smaller x n → Low n
  unfolding Low Smaller
  Low-Smaller x n (inl e) k = inl (omega arith)
  Low-Smaller x n (inr e) k = inr (omega arith)

  can_prune-Low :
      (x : Node)
      → IsStorable x.1
      → total x.1 < 2 ^ 63
      → min_utility < 2 ^ 63
      → can_prune (header x) min_utility ≡ true
      → Low x
  unfolding can_prune Low
  can_prune-Low x hx small hm e = elim (Bool-cases (length x.1 % u32_mod == 0)) [
    | inl empty ↦ inl (omega (arith, ==→eq (length x.1 % u32_mod) 0 empty, hx.short))
    | inr some ↦ inr (ground (arith, sums-total x.1 small))
  ]

  Low-own :
      (x : Node) → total x.1 < 2 ^ 63 → min_utility < 2 ^ 63 → Low x → own L min_utility x ≡ []
  unfolding Low is_high_utility
  Low-own x small hm (inl e) = ground arith
  Low-own x small hm (inr e) = ground (arith, sums-total x.1 small)

  Low-every :
      (fuel : ℕ) (ps : List UlEntry) (ns : List Node)
      → IsFamily ps ns
      → min_utility < 2 ^ 63
      → All Low ns
      → every fuel ps ns ≡ []
  unfolding every
  Low-every zero ps [] h hm low = refl
  Low-every (suc fuel) ps [] h hm low = refl
  Low-every zero ps (x ∷ ns) h hm low = refl
  Low-every (suc fuel) ps (x ∷ ns) h hm low =
      rw
        (
          Low-own x h.small.0 hm low.0,
          Low-every fuel x.1 (children L min_utility ps x ns) (children-IsFamily ps x ns h) hm (
              All-Smaller Low x (children L min_utility ps x ns) (λ n k. Low-Smaller x n low.0 k)
                (children-Smaller ps x ns h)),
          Low-every fuel ps ns (later-IsFamily ps x ns h) hm low.1,
        )
        (nothing (L.extensible x.0))
    where
      nothing : (b : Bool) → below_if b [] ++ [] ≡ []
      nothing true = refl
      nothing false = refl

  pub every_nil : (fuel : ℕ) (ps : List UlEntry) → every fuel ps [] ≡ []
  unfolding every
  every_nil zero ps = refl
  every_nil (suc fuel) ps = refl

  pub every_cons :
      (fuel : ℕ) (ps : List UlEntry) (x : Node) (ns : List Node)
      → every (suc fuel) ps (x ∷ ns)
        ≡ (own L min_utility x
            ++ below_if (L.extensible x.0) (every fuel x.1 (children L min_utility ps x ns)))
          ++ every fuel ps ns
  unfolding every
  every_cons fuel ps x ns = refl

  mine_one-kept :
      (x : Node) (below : List Found)
      → can_prune (header x) min_utility ≡ false
      → mine_one L min_utility x below ≡ own L min_utility x ++ below_if (L.extensible x.0) below
  mine_one-kept x below e =
      rw (e, mine_one) (ap (λ l. own L min_utility x ++ l) (same (L.extensible x.0)))
    where
      same :
          (b : Bool)
          → (elim b as (λ _. List Found) [ true ↦ below | false ↦ [] ]) ≡ below_if b below
      same true = refl
      same false = refl

  below_if_nil : (b : Bool) → below_if b [] ≡ []
  below_if_nil true = refl
  below_if_nil false = refl

  mine_one-every :
      (fuel : ℕ) (ps : List UlEntry) (x : Node) (ns : List Node)
      → IsFamily ps (x ∷ ns)
      → min_utility < 2 ^ 63
      → mine_one L min_utility x (every fuel x.1 (children L min_utility ps x ns))
        ≡ own L min_utility x
          ++ below_if (L.extensible x.0) (every fuel x.1 (children L min_utility ps x ns))
  mine_one-every fuel ps x ns h hm = elim (Bool-cases (can_prune (header x) min_utility)) [
    | inr kept ↦ mine_one-kept x _ kept
    | inl prune ↦
        let low : Low x = can_prune-Low x h.storable.0 h.small.0 hm prune in
        rw
          (
            mine_one_pruned L min_utility x (every fuel x.1 (children L min_utility ps x ns)) prune,
            Low-own x h.small.0 hm low,
            Low-every fuel x.1 (children L min_utility ps x ns) (children-IsFamily ps x ns h) hm (
                All-Smaller Low x (children L min_utility ps x ns) (λ n k. Low-Smaller x n low k)
                  (children-Smaller ps x ns h)),
          )
          (sym (below_if_nil (L.extensible x.0)))
  ]

  nil : (fuel : ℕ) (ps : List UlEntry) → mine L min_utility fuel ps [] ≡ every fuel ps []
  unfolding mine every
  nil zero ps = refl
  nil (suc fuel) ps = refl

  spent :
      (ps : List UlEntry) (x : Node) (ns : List Node)
      → mine L min_utility zero ps (x ∷ ns) ≡ every zero ps (x ∷ ns)
  unfolding mine every
  spent ps x ns = refl

  -- Cutting off by the two sums of a header loses nothing, for lists that nest and whose totals are
  -- nonnegative i64 values: the search finds what the search of every node finds.
  pub mine-every :
      (fuel : ℕ) (ps : List UlEntry) (ns : List Node)
      → IsFamily ps ns
      → min_utility < 2 ^ 63
      → mine L min_utility fuel ps ns ≡ every fuel ps ns
  mine-every fuel ps [] h hm = nil fuel ps
  mine-every zero ps (x ∷ ns) h hm = spent ps x ns
  mine-every (suc fuel) ps (x ∷ ns) h hm =
      rw
        (
          mine_cons L min_utility fuel ps x ns,
          every_cons fuel ps x ns,
          mine-every fuel x.1 (children L min_utility ps x ns) (children-IsFamily ps x ns h) hm,
          mine-every fuel ps ns (later-IsFamily ps x ns h) hm,
          mine_one-every fuel ps x ns h hm,
        )
        refl
