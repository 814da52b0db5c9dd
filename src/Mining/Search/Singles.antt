-- ===== src/Mining/Search/Singles.antt =====
-- The loop over j of a task, whose lists are in memory.
use pocket_data_mining.Base.{
  ℕ, suc, ◌+◌, ◌≡◌, refl, true, false, List, [], ◌∷◌, ◌++◌, map, length, arith, All, Bool-cases,
  inl, inr,
}
use pocket_data_mining.Base.Io.{ok}
use pocket_data_mining.Base.Exec.{Exec, settle}
use pocket_data_mining.Types.{UlEntry, UtilityList}
use pocket_data_mining.Mining.Search.{
  Bodies, Sink, Cuts, last_item, unwrap, Extension, join_singles,
}
use pocket_data_mining.Mining.Search.Nodes.{
  Node, header, IsStorable, join_node, join_node-IsStorable,
}
use pocket_data_mining.Mining.Search.Reference.{children, skipped, children_skip, children_join}
use pocket_data_mining.Mining.Search.Lawful.{
  Ends, Ends-mono, Ends-settle, Ends-unwrap, BodiesLaws, SinkLaws,
}
use pocket_data_mining.Mining.Search.Refine.{Storable, Joined}

-- A single item as the run builds it: the header and the entries of a node.
abbrev pub single_of : Node → UtilityList × List UlEntry
single_of n = (header n, n.1)

module _ (B : Bodies) (R : Sink) (L : Cuts) (bodies : BodiesLaws B) (min_utility : ℕ)
    (sink : SinkLaws R min_utility) where
  abbrev After : B.State → Node → List Node → List (Extension B R L) → B.State → Type 0
  After s x ns es t = Joined B R L bodies min_utility sink 0 s (children L min_utility [] x ns) es t

  join_single :
      Node → Node → List (UtilityList × List UlEntry) → Exec B.State (List (Extension B R L))
  join_single x n singles s =
      settle
        (λ e u.
          settle (λ es v. (ok (e ∷ es), v)) (join_singles B R L min_utility x.0 x.1 singles u))
        (unwrap (B.join (x.0 ++ last_item n.0 ∷ []) [] x.1 n.1 s))

  join_singles_skip :
      (x n : Node) (singles : List (UtilityList × List UlEntry)) (s : B.State)
      → skipped L min_utility x n ≡ true
      → join_singles B R L min_utility x.0 x.1 (single_of n ∷ singles) s
        ≡ join_singles B R L min_utility x.0 x.1 singles s
  unfolding join_singles
  join_singles_skip x n singles s e = rw (e, join_singles) refl

  join_singles_join :
      (x n : Node) (singles : List (UtilityList × List UlEntry)) (s : B.State)
      → skipped L min_utility x n ≡ false
      → join_singles B R L min_utility x.0 x.1 (single_of n ∷ singles) s ≡ join_single x n singles s
  unfolding join_singles join_single
  join_singles_join x n singles s e = rw (e, join_singles) refl

  join_single_lem :
      (j k : ℕ) (x n : Node) (singles : List (UtilityList × List UlEntry)) (made : List Node)
      (s : B.State)
      → IsStorable (join_node [] x n).1
      → bodies.Good (suc k) s
      → ((u : B.State)
          → bodies.Good k u
          → Ends
              (Joined B R L bodies min_utility sink j u made)
              (join_singles B R L min_utility x.0 x.1 singles u))
      → Ends
          (Joined B R L bodies min_utility sink j s (join_node [] x n ∷ made))
          (join_single x n singles s)
  unfolding join_single
  join_single_lem j k x n singles made s hj good next =
      Ends-settle _ _ (unwrap (B.join items [] x.1 n.1 s)) (
        Ends-unwrap _ (B.join items [] x.1 n.1 s) (
          Ends-mono _ _ (B.join items [] x.1 n.1 s)
            (λ e u (g, d, shows, keep).
              Ends-settle _ _ (join_singles B R L min_utility x.0 x.1 singles u) (
                Ends-mono (Joined B R L bodies min_utility sink j u made) _
                  (join_singles B R L min_utility x.0 x.1 singles u)
                  (λ _ v (g2, keep2, shown).
                    (g2, λ c fs q. keep2 c fs (keep c fs q), (d, keep2 e.1 _ shows, shown)))
                  (next u g)))
            (bodies.join_lem k s items [] x.1 n.1 good hj)))
    where
      items : List ℕ
      items = x.0 ++ last_item n.0 ∷ []

  pub join_singles_lem :
      (k : ℕ) (x : Node) (ns : List Node) (s : B.State)
      → IsStorable x.1
      → All (Storable B R L bodies min_utility sink) ns
      → bodies.Good (length ns + k) s
      → Ends
          (Joined B R L bodies min_utility sink k s (children L min_utility [] x ns))
          (join_singles B R L min_utility x.0 x.1 (map single_of ns) s)
  join_singles_lem k x [] s hx hn good =
      unfold join_singles children in (bodies.Good-mono _ _ s (omega arith) good, λ c fs q. q, tt)
  join_singles_lem k x (n ∷ ns) s hx hn good = elim (Bool-cases (skipped L min_utility x n)) [
    | inl skip ↦
        rw
          (
            children_skip L min_utility [] x n ns skip,
            join_singles_skip x n (map single_of ns) s skip,
          )
          (join_singles_lem k x ns s hx hn.1 (bodies.Good-mono _ _ s (omega arith) good))
    | inr join ↦
        rw
          (
            children_join L min_utility [] x n ns join,
            join_singles_join x n (map single_of ns) s join,
          )
          (join_single_lem k (length ns + k) x n (map single_of ns) (children L min_utility [] x ns)
            s (join_node-IsStorable [] x n tt hx hn.0) (bodies.Good-mono _ _ s (omega arith) good)
            (λ u g. join_singles_lem k x ns u hx hn.1 g))
  ]
