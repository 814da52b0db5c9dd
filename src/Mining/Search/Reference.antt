-- ===== src/Mining/Search/Reference.antt =====
-- The search over lists that are all in memory, at a fixed threshold: what the search computes, with
-- no state.
use pocket_data_mining.Base.{
  ℕ, zero, suc, ◌+◌, Bool, true, false, ◌&&◌, List, [], ◌∷◌, ◌++◌, length, ◌≤◌, ◌≡◌, refl, arith,
  Bool-cases, inl, inr, if◌then◌else◌,
}
use pocket_data_mining.Types.{UlEntry, can_prune, is_high_utility}
use pocket_data_mining.Mining.Search.{Cuts, last_item}
use pocket_data_mining.Mining.Search.Nodes.{Node, header, join_node, sum_iutils_of}

abbrev pub Found : Type 0
Found = List ℕ × ℕ

module _ (L : Cuts) (min_utility : ℕ) where
  unfoldable pub children : List UlEntry → Node → List Node → List Node
  children prefix_body x [] = []
  children prefix_body x (y ∷ ys) = elim (L.skip (last_item x.0) (last_item y.0) min_utility) [
    | true ↦ children prefix_body x ys
    | false ↦ join_node prefix_body x y ∷ children prefix_body x ys
  ]

  abbrev pub own : Node → List Found
  own x =
      if is_high_utility (header x) min_utility && L.reportable x.0
      then (x.0, sum_iutils_of x.1) ∷ []
      else []

  -- What is found at a node, given what is found below it.
  abbrev pub mine_one : Node → List Found → List Found
  mine_one x below = elim (can_prune (header x) min_utility) [
    | true ↦ []
    | false ↦ own x ++ (elim (L.extensible x.0) [ true ↦ below | false ↦ [] ])
  ]

  -- What the search writes, in its order.
  unfoldable pub mine : ℕ → List UlEntry → List Node → List Found
  mine fuel prefix_body [] = []
  mine zero prefix_body (x ∷ rest) = []
  mine (suc fuel) prefix_body (x ∷ rest) =
      (elim (can_prune (header x) min_utility) [
        | true ↦ []
        | false ↦ own x ++ (elim (L.extensible x.0) [
          | true ↦ mine fuel x.1 (children prefix_body x rest)
          | false ↦ []
        ])
      ])
      ++ mine fuel prefix_body rest

  -- How many joins the search makes at most.
  unfoldable pub joins : ℕ → List UlEntry → List Node → ℕ
  joins fuel prefix_body [] = 0
  joins zero prefix_body (x ∷ rest) = 0
  joins (suc fuel) prefix_body (x ∷ rest) =
      length rest + joins fuel x.1 (children prefix_body x rest) + joins fuel prefix_body rest

  abbrev pub skipped : Node → Node → Bool
  skipped x n = L.skip (last_item x.0) (last_item n.0) min_utility

  pub mine_nil : (fuel : ℕ) (ps : List UlEntry) → mine fuel ps [] ≡ []
  unfolding mine
  mine_nil zero ps = refl
  mine_nil (suc fuel) ps = refl

  pub mine_cons :
      (fuel : ℕ) (ps : List UlEntry) (n : Node) (ns : List Node)
      → mine (suc fuel) ps (n ∷ ns)
        ≡ mine_one n (mine fuel n.1 (children ps n ns)) ++ mine fuel ps ns
  unfolding mine
  mine_cons fuel ps n ns = refl

  pub joins_cons :
      (fuel : ℕ) (ps : List UlEntry) (n : Node) (ns : List Node)
      → joins (suc fuel) ps (n ∷ ns)
        ≡ length ns + joins fuel n.1 (children ps n ns) + joins fuel ps ns
  unfolding joins
  joins_cons fuel ps n ns = refl

  pub mine_one_pruned :
      (x : Node) (below : List Found)
      → can_prune (header x) min_utility ≡ true
      → mine_one x below ≡ []
  mine_one_pruned x below e = rw (e, mine_one) refl

  pub mine_one_kept :
      (x : Node) (below : List Found)
      → can_prune (header x) min_utility ≡ false
      → mine_one x below ≡ own x ++ (elim (L.extensible x.0) [ true ↦ below | false ↦ [] ])
  mine_one_kept x below e = rw (e, mine_one) refl

  pub length-children-le :
      (ps : List UlEntry) (x : Node) (ns : List Node) → length (children ps x ns) ≤ length ns
  unfolding children
  length-children-le ps x [] = omega arith
  length-children-le ps x (n ∷ ns) =
      elim (Bool-cases (L.skip (last_item x.0) (last_item n.0) min_utility)) [
        | inl e ↦ rw (e, children) (omega (arith, length-children-le ps x ns))
        | inr e ↦ rw (e, children) (omega (arith, length-children-le ps x ns))
      ]

  pub children_skip :
      (ps : List UlEntry) (x n : Node) (ns : List Node)
      → skipped x n ≡ true
      → children ps x (n ∷ ns) ≡ children ps x ns
  unfolding children
  children_skip ps x n ns e = rw (e, children) refl

  pub children_join :
      (ps : List UlEntry) (x n : Node) (ns : List Node)
      → skipped x n ≡ false
      → children ps x (n ∷ ns) ≡ join_node ps x n ∷ children ps x ns
  unfolding children
  children_join ps x n ns e = rw (e, children) refl

  -- More fuel than nodes makes no difference.
  pub mine-fuel :
      (f g : ℕ) (ps : List UlEntry) (ns : List Node)
      → length ns ≤ f
      → length ns ≤ g
      → mine f ps ns ≡ mine g ps ns
  mine-fuel f g ps [] hf hg = rw (mine_nil f ps, mine_nil g ps) refl
  mine-fuel zero g ps (n ∷ ns) hf hg = absurd (omega arith)
  mine-fuel (suc f) zero ps (n ∷ ns) hf hg = absurd (omega arith)
  mine-fuel (suc f) (suc g) ps (n ∷ ns) hf hg =
      rw
        (
          mine_cons f ps n ns,
          mine_cons g ps n ns,
          mine-fuel f g ps ns (omega arith) (omega arith),
          mine-fuel f g n.1 (children ps n ns) (omega (arith, length-children-le ps n ns))
              (omega (arith, length-children-le ps n ns)),
        )
        refl

  pub joins_nil : (fuel : ℕ) (ps : List UlEntry) → joins fuel ps [] ≡ 0
  unfolding joins
  joins_nil zero ps = refl
  joins_nil (suc fuel) ps = refl

  pub joins-fuel :
      (f g : ℕ) (ps : List UlEntry) (ns : List Node)
      → length ns ≤ f
      → length ns ≤ g
      → joins f ps ns ≡ joins g ps ns
  joins-fuel f g ps [] hf hg = rw (joins_nil f ps, joins_nil g ps) refl
  joins-fuel zero g ps (n ∷ ns) hf hg = absurd (omega arith)
  joins-fuel (suc f) zero ps (n ∷ ns) hf hg = absurd (omega arith)
  joins-fuel (suc f) (suc g) ps (n ∷ ns) hf hg =
      rw
        (
          joins_cons f ps n ns,
          joins_cons g ps n ns,
          joins-fuel f g ps ns (omega arith) (omega arith),
          joins-fuel f g n.1 (children ps n ns) (omega (arith, length-children-le ps n ns))
              (omega (arith, length-children-le ps n ns)),
        )
        refl
