-- ===== src/Mining/Search/Refine.antt =====
-- The search, over any lawful bodies and any lawful sink, writes what the search in memory computes.
use pocket_data_mining.Base.{
  ℕ, suc, ◌+◌, ◌≡◌, refl, ◌∙◌, ap, true, false, List, [], ◌∷◌, ◌++◌, length, arith, All, Bool-cases,
  inl, inr,
}
use pocket_data_mining.Base.Io.{ok}
use pocket_data_mining.Base.Exec.{Exec, settle}
use pocket_data_mining.Types.{UlEntry}
use pocket_data_mining.Mining.UlJoin.Join.{Ascending}
use pocket_data_mining.Mining.Search.{Bodies, Sink, Cuts, last_item, Extension, join_all}
use pocket_data_mining.Mining.Search.Nodes.{
  Node, Describes, IsStorable, join_node, join_node-IsStorable,
}
use pocket_data_mining.Mining.Search.Reference.{children, skipped, children_skip, children_join}
use pocket_data_mining.Mining.Search.Lawful.{Ends, Ends-mono, Ends-settle, BodiesLaws, SinkLaws}

module _ (B : Bodies) (R : Sink) (L : Cuts) (bodies : BodiesLaws B) (min_utility : ℕ)
    (sink : SinkLaws R min_utility) where
  abbrev pub Exts : Type 0
  Exts = List (Extension B R L)

  abbrev pub Keeps : B.State → B.State → Type 0
  Keeps s t = (c : B.Body) (fs : List UlEntry) → bodies.Shows s c fs → bodies.Shows t c fs

  -- The extensions are the nodes, one by one.
  abbrev pub AreShown : B.State → Exts → List Node → Type 0
  AreShown s [] [] = Unit
  AreShown s [] (n ∷ ns) = ⊥
  AreShown s (e ∷ es) [] = ⊥
  AreShown s (e ∷ es) (n ∷ ns) = Describes e.0 n × bodies.Shows s e.1 n.1 × AreShown s es ns

  pub AreShown-Keeps :
      (s t : B.State) (es : Exts) (ns : List Node) → Keeps s t → AreShown s es ns → AreShown t es ns
  AreShown-Keeps s t [] [] k h = tt
  AreShown-Keeps s t [] (n ∷ ns) k h = h
  AreShown-Keeps s t (e ∷ es) [] k h = h
  AreShown-Keeps s t (e ∷ es) (n ∷ ns) k (d, shows, rest) =
      (d, k e.1 n.1 shows, AreShown-Keeps s t es ns k rest)

  abbrev pub Storable : Node → Type 0
  Storable n = IsStorable n.1

  abbrev pub Joined : ℕ → B.State → List Node → Exts → B.State → Type 0
  Joined k s made es t = bodies.Good k t × Keeps s t × AreShown t es made

  -- One more join, after the bodies were fetched.
  abbrev join_next : Node → List UlEntry → Extension B R L → Exts → Exec B.State Exts
  join_next x ps ext es s =
      settle
        (λ py t.
          settle
            (λ e u.
              settle (λ made v. (ok (e ∷ made), v)) (join_all B R L min_utility x.0 ps x.1 es u))
            (B.join (x.0 ++ last_item ext.0.itemset ∷ []) ps x.1 py t))
        (B.get_body ext.1 s)

  join_all_skip :
      (ps : List UlEntry) (x : Node) (ext : Extension B R L) (es : Exts) (s : B.State)
      → L.skip (last_item x.0) (last_item ext.0.itemset) min_utility ≡ true
      → join_all B R L min_utility x.0 ps x.1 (ext ∷ es) s
        ≡ join_all B R L min_utility x.0 ps x.1 es s
  unfolding join_all
  join_all_skip ps x ext es s e = rw (e, join_all) refl

  join_all_join :
      (ps : List UlEntry) (x : Node) (ext : Extension B R L) (es : Exts) (s : B.State)
      → L.skip (last_item x.0) (last_item ext.0.itemset) min_utility ≡ false
      → join_all B R L min_utility x.0 ps x.1 (ext ∷ es) s ≡ join_next x ps ext es s
  unfolding join_all
  join_all_join ps x ext es s e = rw (e, join_all) refl

  join_next_lem :
      (j k : ℕ) (ps : List UlEntry) (x n : Node) (ext : Extension B R L) (es : Exts)
      (made : List Node) (s : B.State)
      → IsStorable n.1
      → IsStorable (join_node ps x n).1
      → bodies.Good (suc k) s
      → Describes ext.0 n
      → bodies.Shows s ext.1 n.1
      → ((u : B.State)
          → bodies.Good k u
          → Keeps s u
          → Ends (Joined j u made) (join_all B R L min_utility x.0 ps x.1 es u))
      → Ends (Joined j s (join_node ps x n ∷ made)) (join_next x ps ext es s)
  join_next_lem j k ps x n ext es made s hn hj good d shows next =
      Ends-settle _ _ (B.get_body ext.1 s) (
        Ends-mono _ _ (B.get_body ext.1 s)
          (λ py t (g, same, keep). rw same (
            Ends-settle _ _ (B.join items ps x.1 n.1 t) (
              Ends-mono _ _ (B.join items ps x.1 n.1 t)
                (λ e u (g2, d2, shows2, keep2).
                  Ends-settle _ _ (join_all B R L min_utility x.0 ps x.1 es u) (
                    Ends-mono (Joined j u made) _ (join_all B R L min_utility x.0 ps x.1 es u)
                      (λ _ v (g3, keep3, shown3). (
                        g3,
                        λ c fs q. keep3 c fs (keep2 c fs (keep c fs q)),
                        (described e d2, keep3 e.1 _ shows2, shown3),
                      ))
                      (next u g2 (λ c fs q. keep2 c fs (keep c fs q)))))
                (bodies.join_lem k t items ps x.1 n.1 g hj))))
          (bodies.get_body_lem (suc k) s ext.1 n.1 good hn shows))
    where
      items : List ℕ
      items = x.0 ++ last_item ext.0.itemset ∷ []

      described :
          (e : Extension B R L)
          → Describes e.0 (items, (join_node ps x n).1)
          → Describes e.0 (join_node ps x n)
      described e h = record {
        itemset_eq = h.itemset_eq ∙ ap (λ i. x.0 ++ last_item i ∷ []) d.itemset_eq;
        iutils_eq = h.iutils_eq;
        rutils_eq = h.rutils_eq;
        len_eq = h.len_eq;
      }

  -- The loop over j makes the children.
  pub join_all_lem :
      (k : ℕ) (ps : List UlEntry) (x : Node) (es : Exts) (ns : List Node) (s : B.State)
      → Ascending ps
      → IsStorable x.1
      → All Storable ns
      → bodies.Good (length ns + k) s
      → AreShown s es ns
      → Ends
          (Joined k s (children L min_utility ps x ns))
          (join_all B R L min_utility x.0 ps x.1 es s)
  join_all_lem k ps x [] [] s hp hx hn good h =
      unfold join_all children in (bodies.Good-mono _ _ s (omega arith) good, λ c fs q. q, tt)
  join_all_lem k ps x [] (n ∷ ns) s hp hx hn good h = absurd h
  join_all_lem k ps x (e ∷ es) [] s hp hx hn good h = absurd h
  join_all_lem k ps x (ext ∷ es) (n ∷ ns) s hp hx hn good (d, shows, rest) =
      elim (Bool-cases (skipped L min_utility x n)) [
        | inl skip ↦
            rw
              (
                children_skip L min_utility ps x n ns skip,
                join_all_skip ps x ext es s (skips ∙ skip),
              )
              (join_all_lem k ps x es ns s hp hx hn.1 (bodies.Good-mono _ _ s (omega arith) good)
                rest)
        | inr join ↦
            rw
              (
                children_join L min_utility ps x n ns join,
                join_all_join ps x ext es s (skips ∙ join),
              )
              (join_next_lem k (length ns + k) ps x n ext es (children L min_utility ps x ns) s hn.0
                (join_node-IsStorable ps x n hp hx hn.0) (bodies.Good-mono _ _ s (omega arith) good)
                d shows
                (λ u g keep.
                  join_all_lem k ps x es ns u hp hx hn.1 g (AreShown-Keeps s u es ns keep rest)))
      ]
    where
      skips :
          L.skip (last_item x.0) (last_item ext.0.itemset) min_utility ≡ skipped L min_utility x n
      skips = ap (λ i. L.skip (last_item x.0) (last_item i) min_utility) d.itemset_eq
