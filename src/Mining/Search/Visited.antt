-- ===== src/Mining/Search/Visited.antt =====
-- What the body of the loop over i writes, given what the search below writes.
use mathlib.Core.List.{append_assoc, append-nil}
use pocket_data_mining.Base.{
  ℕ, zero, suc, ◌+◌, ◌≡◌, refl, sym, ◌∙◌, ap, true, false, ◌&&◌, List, [], ◌∷◌, ◌++◌, length, arith,
  All, Bool-cases, inl, inr,
}
use pocket_data_mining.Base.Io.{IoResult, ok, err}
use pocket_data_mining.Base.Exec.{Exec, settle}
use pocket_data_mining.Types.{UlEntry, UtilityList, can_prune, is_high_utility}
use pocket_data_mining.Mining.UlJoin.Join.{Ascending}
use pocket_data_mining.Mining.Search.{
  Bodies, Sink, Cuts, last_item, Session, Extension, on_bodies, beside_sink, beside_bodies,
  join_all, report_high, explore, expand, visit, search,
}
use pocket_data_mining.Mining.Search.Nodes.{
  Node, header, Describes, IsStorable, join_node-IsStorable, sum_iutils_of,
}
use pocket_data_mining.Mining.Search.Reference.{
  Found, children, own, mine_one, mine_one_pruned, mine_one_kept,
}
use pocket_data_mining.Mining.Search.Lawful.{Ends, Ends-mono, Ends-settle, BodiesLaws, SinkLaws}
use pocket_data_mining.Mining.Search.Refine.{
  Keeps, AreShown, AreShown-Keeps, Storable, join_all_lem,
}

module _ (B : Bodies) (R : Sink) (L : Cuts) (bodies : BodiesLaws B) (min_utility : ℕ)
    (sink : SinkLaws R min_utility) where
  abbrev pub Done : ℕ → Session B R L → List Found → Session B R L → Type 0
  Done k s new t =
      bodies.Good k t.0
      × Keeps B R L bodies min_utility sink s.0 t.0
      × (sink.found t.1 ≡ sink.found s.1 ++ new)

  pub Done-trans :
      (j k : ℕ) (s t u : Session B R L) (first later : List Found)
      → Done j s first t
      → Done k t later u
      → Done k s (first ++ later) u
  Done-trans j k s t u first later (_, keep, e) (good, keep2, e2) = (
    good,
    λ c fs q. keep2 c fs (keep c fs q),
    e2 ∙ ap (λ l. l ++ later) e ∙ append_assoc (sink.found s.1) first later,
  )

  high_eq :
      (ul : UtilityList) (n : Node) (s : R.State)
      → Describes ul n
      → (is_high_utility ul (R.threshold s) && L.reportable ul.itemset)
        ≡ (is_high_utility (header n) min_utility && L.reportable n.0)
  unfolding is_high_utility
  high_eq ul n s d = cc (d.len_eq, d.iutils_eq, d.itemset_eq, sink.threshold_lem s)

  pub prune_eq :
      (ul : UtilityList) (n : Node) (s : R.State)
      → Describes ul n
      → can_prune ul (R.threshold s) ≡ can_prune (header n) min_utility
  unfolding can_prune
  prune_eq ul n s d = cc (d.len_eq, d.iutils_eq, d.rutils_eq, sink.threshold_lem s)

  reported-Done :
      (k : ℕ) (s : Session B R L) (n : Node) (u : ℕ) (itemset : List ℕ)
      → bodies.Good k s.0
      → itemset ≡ n.0
      → u ≡ sum_iutils_of n.1
      → Ends
          (λ _ t. Done k s ((n.0, sum_iutils_of n.1) ∷ []) t)
          (beside_bodies B R L s.0 (R.report itemset u s.1))
  reported-Done k s n u itemset good i e =
      wrap (R.report itemset u s.1) (rw (i, e) (sink.report_lem n.0 (sum_iutils_of n.1) s.1))
    where
      wrap :
          (r : IoResult (Unit {0}) × R.State)
          → Ends (λ _ t. sink.found t ≡ sink.found s.1 ++ (n.0, sum_iutils_of n.1) ∷ []) r
          → Ends (λ _ t. Done k s ((n.0, sum_iutils_of n.1) ∷ []) t) (beside_bodies B R L s.0 r)
      wrap (ok a, t) h = (good, λ c fs q. q, h)
      wrap (err x, t) h = h

  pub report_high_lem :
      (k : ℕ) (ul : UtilityList) (n : Node) (s : Session B R L)
      → bodies.Good k s.0
      → Describes ul n
      → Ends (λ _ t. Done k s (own L min_utility n) t) (report_high B R L ul s)
  unfolding report_high
  report_high_lem k ul n s good d =
      elim (Bool-cases (is_high_utility (header n) min_utility && L.reportable n.0)) [
        | inl high ↦
            rw (high_eq ul n s.1 d ∙ high, high)
              (reported-Done k s n ul.sum_iutils ul.itemset good d.itemset_eq d.iutils_eq)
        | inr low ↦
            rw (high_eq ul n s.1 d ∙ low, low)
              (good, λ c fs q. q, sym (append-nil (sink.found s.1)))
      ]

  pub Ends-beside :
      {A : Type 0} (Q : A → B.State → Type 0) (s : Session B R L) (r : IoResult A × B.State)
      → Ends Q r
      → Ends (λ a t. Q a t.0 × (t.1 ≡ s.1)) (beside_sink B R L s.1 r)
  Ends-beside Q s (ok a, t) h = (h, refl)
  Ends-beside Q s (err e, t) h = h

  -- The search does nothing on no extensions, so it does not matter that the code asks first.
  pub explore-search :
      (fuel : ℕ) (px : List UlEntry) (es : List (Extension B R L)) (s : Session B R L)
      → explore B R L (search B R L fuel) px es s ≡ search B R L fuel px es s
  unfolding search
  explore-search zero px [] s = refl
  explore-search (suc fuel) px [] s = refl
  explore-search fuel px (e ∷ es) s = refl

  expand_open :
      (deeper : List UlEntry → List (Extension B R L) → Exec (Session B R L) (Unit {0}))
      (ps px : List UlEntry) (i : List ℕ) (es : List (Extension B R L)) (s : Session B R L)
      → L.extensible i ≡ true
      → expand B R L deeper ps px i es s
        ≡ settle
            (λ next t. explore B R L deeper px next t)
            (on_bodies B R L (join_all B R L (R.threshold s.1) i ps px es) s)
  unfolding expand
  expand_open deeper ps px i es s e = rw (e, expand) refl

  expand_closed :
      (deeper : List UlEntry → List (Extension B R L) → Exec (Session B R L) (Unit {0}))
      (ps px : List UlEntry) (i : List ℕ) (es : List (Extension B R L)) (s : Session B R L)
      → L.extensible i ≡ false
      → expand B R L deeper ps px i es s ≡ (ok tt, s)
  unfolding expand
  expand_closed deeper ps px i es s e = rw (e, expand) refl

  -- What the search below a node is known to write.
  abbrev Below : ℕ → ℕ → ℕ → List UlEntry → Node → List Node → List Found → Type 0
  Below fuel d k ps x ns below =
      (es : List (Extension B R L)) (t : Session B R L)
      → bodies.Good (d + k) t.0
      → AreShown B R L bodies min_utility sink t.0 es (children L min_utility ps x ns)
      → Ends (λ _ u. Done k t below u) (search B R L fuel x.1 es t)

  pub expand_lem :
      (fuel d k : ℕ) (ps : List UlEntry) (x : Node) (i : List ℕ) (es : List (Extension B R L))
      (ns : List Node) (below : List Found) (s : Session B R L)
      → i ≡ x.0
      → Ascending ps
      → IsStorable x.1
      → All (Storable B R L bodies min_utility sink) ns
      → bodies.Good (length ns + (d + k)) s.0
      → AreShown B R L bodies min_utility sink s.0 es ns
      → Below fuel d k ps x ns below
      → Ends
          (λ _ u. Done k s (elim (L.extensible x.0) [ true ↦ below | false ↦ [] ]) u)
          (expand B R L (search B R L fuel) ps x.1 i es s)
  expand_lem fuel d k ps x i es ns below s e hp hx hn good shown deep =
      elim (Bool-cases (L.extensible x.0)) [
        | inl opens ↦
            rw
              (
                e,
                opens,
                expand_open (search B R L fuel) ps x.1 x.0 es s opens,
                sink.threshold_lem s.1,
              )
              (Ends-settle _ _ (on_bodies B R L (join_all B R L min_utility x.0 ps x.1 es) s) (
                Ends-mono _ _ (on_bodies B R L (join_all B R L min_utility x.0 ps x.1 es) s)
                  (λ next t ((g, keep, made), out). rw (explore-search fuel x.1 next t) (
                    Ends-mono _ _ (search B R L fuel x.1 next t)
                      (λ _ u (g2, keep2, e2). (
                        g2,
                        λ c fs q. keep2 c fs (keep c fs q),
                        e2 ∙ ap (λ o. sink.found o ++ below) out,
                      ))
                      (deep next t g made)))
                  (Ends-beside _ s (join_all B R L min_utility x.0 ps x.1 es s.0) (
                    join_all_lem B R L bodies min_utility sink (d + k) ps x es ns s.0 hp hx hn good
                      shown))))
        | inr closed ↦
            rw (e, closed, expand_closed (search B R L fuel) ps x.1 x.0 es s closed)
              (
                bodies.Good-mono _ _ s.0 (omega arith) good,
                λ c fs q. q,
                sym (append-nil (sink.found s.1)),
              )
      ]

  visit_kept :
      (deeper : List UlEntry → List (Extension B R L) → Exec (Session B R L) (Unit {0}))
      (ps : List UlEntry) (ul : UtilityList) (body : B.Body) (es : List (Extension B R L))
      (s : Session B R L)
      → can_prune ul (R.threshold s.1) ≡ false
      → visit B R L deeper ps ul body es s
        ≡ settle
            (λ px t.
              settle (λ _ u. expand B R L deeper ps px ul.itemset es u) (report_high B R L ul t))
            (on_bodies B R L (B.get_body body) s)
  unfolding visit
  visit_kept deeper ps ul body es s e = rw (e, visit) refl

  visit_pruned :
      (deeper : List UlEntry → List (Extension B R L) → Exec (Session B R L) (Unit {0}))
      (ps : List UlEntry) (ul : UtilityList) (body : B.Body) (es : List (Extension B R L))
      (s : Session B R L)
      → can_prune ul (R.threshold s.1) ≡ true
      → visit B R L deeper ps ul body es s ≡ (ok tt, s)
  unfolding visit
  visit_pruned deeper ps ul body es s e = rw (e, visit) refl

  pub visit_lem :
      (fuel d k : ℕ) (ps : List UlEntry) (x : Node) (ul : UtilityList) (body : B.Body)
      (es : List (Extension B R L)) (ns : List Node) (below : List Found) (s : Session B R L)
      → Describes ul x
      → bodies.Shows s.0 body x.1
      → Ascending ps
      → IsStorable x.1
      → All (Storable B R L bodies min_utility sink) ns
      → bodies.Good (length ns + (d + k)) s.0
      → AreShown B R L bodies min_utility sink s.0 es ns
      → Below fuel d k ps x ns below
      → Ends
          (λ _ u. Done k s (mine_one L min_utility x below) u)
          (visit B R L (search B R L fuel) ps ul body es s)
  visit_lem fuel d k ps x ul body es ns below s desc shows hp hx hn good shown deep =
      elim (Bool-cases (can_prune (header x) min_utility)) [
        | inl prune ↦
            rw
              (
                mine_one_pruned L min_utility x below prune,
                visit_pruned (search B R L fuel) ps ul body es s (prune_eq ul x s.1 desc ∙ prune),
              )
              (
                bodies.Good-mono _ _ s.0 (omega arith) good,
                λ c fs q. q,
                sym (append-nil (sink.found s.1)),
              )
        | inr keeps ↦
            rw
              (
                mine_one_kept L min_utility x below keeps,
                visit_kept (search B R L fuel) ps ul body es s (prune_eq ul x s.1 desc ∙ keeps),
              )
              (Ends-settle _ _ (on_bodies B R L (B.get_body body) s) (
                Ends-mono _ _ (on_bodies B R L (B.get_body body) s)
                  (λ px t ((g, same, keep), out). rw same (
                    Ends-settle _ _ (report_high B R L ul t) (
                      Ends-mono _ _ (report_high B R L ul t)
                        (λ _ u (g3, keep3, e3).
                          Ends-mono _ _ (expand B R L (search B R L fuel) ps x.1 ul.itemset es u)
                            (λ _ v (g2, keep2, e2). (
                              g2,
                              λ c fs q. keep2 c fs (keep3 c fs (keep c fs q)),
                              e2
                                  ∙ ap (λ l. l ++ extended)
                                      (e3 ∙ ap (λ o. sink.found o ++ own L min_utility x) out)
                                  ∙ append_assoc (sink.found s.1) (own L min_utility x) extended,
                            ))
                            (expand_lem fuel d k ps x ul.itemset es ns below u desc.itemset_eq hp hx
                              hn g3
                              (AreShown-Keeps B R L bodies min_utility sink s.0 u.0 es ns
                                (λ c fs q. keep3 c fs (keep c fs q)) shown)
                              deep))
                        (report_high_lem (length ns + (d + k)) ul x t g desc))))
                  (Ends-beside _ s (B.get_body body s.0)
                    (bodies.get_body_lem (length ns + (d + k)) s.0 body x.1 good hx shows))))
      ]
    where
      extended : List Found
      extended = elim (L.extensible x.0) [ true ↦ below | false ↦ [] ]

  pub children-Storable :
      (ps : List UlEntry) (x : Node) (ns : List Node)
      → Ascending ps
      → IsStorable x.1
      → All (Storable B R L bodies min_utility sink) ns
      → All (Storable B R L bodies min_utility sink) (children L min_utility ps x ns)
  unfolding children
  children-Storable ps x [] hp hx hn = tt
  children-Storable ps x (n ∷ ns) hp hx hn =
      elim (Bool-cases (L.skip (last_item x.0) (last_item n.0) min_utility)) [
        | inl e ↦ rw (e, children) (children-Storable ps x ns hp hx hn.1)
        | inr e ↦
            rw (e, children)
              (join_node-IsStorable ps x n hp hx hn.0, children-Storable ps x ns hp hx hn.1)
      ]
