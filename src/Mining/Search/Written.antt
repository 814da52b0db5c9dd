-- ===== src/Mining/Search/Written.antt =====
-- What the search writes: by induction on its fuel.
use mathlib.Core.List.{append-nil}
use pocket_data_mining.Base.{
  ℕ, zero, suc, ◌+◌, ◌≤◌, ◌≡◌, refl, sym, List, [], ◌∷◌, length, arith, All,
}
use pocket_data_mining.Base.Io.{ok}
use pocket_data_mining.Base.Exec.{settle}
use pocket_data_mining.Types.{UlEntry}
use pocket_data_mining.Mining.UlJoin.Join.{Ascending}
use pocket_data_mining.Mining.Search.{Bodies, Sink, Cuts, Session, Extension, visit, search}
use pocket_data_mining.Mining.Search.Nodes.{Node}
use pocket_data_mining.Mining.Search.Reference.{
  children, mine, joins, mine_nil, mine_cons, joins_cons, length-children-le,
}
use pocket_data_mining.Mining.Search.Lawful.{Ends, Ends-mono, Ends-settle, BodiesLaws, SinkLaws}
use pocket_data_mining.Mining.Search.Refine.{AreShown, AreShown-Keeps, Storable}
use pocket_data_mining.Mining.Search.Visited.{Done, Done-trans, visit_lem, children-Storable}

module _ (B : Bodies) (R : Sink) (L : Cuts) (bodies : BodiesLaws B) (min_utility : ℕ)
    (sink : SinkLaws R min_utility) where
  pub search_nil :
      (fuel : ℕ) (ps : List UlEntry) (s : Session B R L) → search B R L fuel ps [] s ≡ (ok tt, s)
  unfolding search
  search_nil zero ps s = refl
  search_nil (suc fuel) ps s = refl

  search_cons :
      (fuel : ℕ) (ps : List UlEntry) (e : Extension B R L) (es : List (Extension B R L))
      (s : Session B R L)
      → search B R L (suc fuel) ps (e ∷ es) s
        ≡ settle
            (λ _ t. search B R L fuel ps es t)
            (visit B R L (search B R L fuel) ps e.0 e.1 es s)
  unfolding search
  search_cons fuel ps e es s = refl

  -- Over lawful bodies with room for its joins, and with fuel for its extensions, the search either
  -- writes what the search in memory finds, in that order, or fails with an error of the bodies or
  -- of the sink.
  pub search-mine :
      (fuel k : ℕ) (ps : List UlEntry) (es : List (Extension B R L)) (ns : List Node)
      (s : Session B R L)
      → length ns ≤ fuel
      → Ascending ps
      → All (Storable B R L bodies min_utility sink) ns
      → bodies.Good (joins L min_utility fuel ps ns + k) s.0
      → AreShown B R L bodies min_utility sink s.0 es ns
      → Ends
          (λ _ t. Done B R L bodies min_utility sink k s (mine L min_utility fuel ps ns) t)
          (search B R L fuel ps es s)
  search-mine fuel k ps [] [] s len hp hn good shown =
      rw (search_nil fuel ps s, mine_nil L min_utility fuel ps)
        (
          bodies.Good-mono _ _ s.0 (omega arith) good,
          λ c fs q. q,
          sym (append-nil (sink.found s.1)),
        )
  search-mine fuel k ps [] (n ∷ ns) s len hp hn good shown = absurd shown
  search-mine fuel k ps (e ∷ es) [] s len hp hn good shown = absurd shown
  search-mine zero k ps (e ∷ es) (n ∷ ns) s len hp hn good shown = absurd (omega arith)
  search-mine (suc fuel) k ps (e ∷ es) (n ∷ ns) s len hp hn good (desc, shows, rest) =
      rw (search_cons fuel ps e es s, mine_cons L min_utility fuel ps n ns)
        (Ends-settle _ _ (visit B R L (search B R L fuel) ps e.0 e.1 es s) (
          Ends-mono _ _ (visit B R L (search B R L fuel) ps e.0 e.1 es s)
            (λ _ t (g, keep, e1).
              Ends-mono _ _ (search B R L fuel ps es t)
                (λ _ u later.
                  Done-trans B R L bodies min_utility sink _ k s t u _
                    (mine L min_utility fuel ps ns) (g, keep, e1) later)
                (search-mine fuel k ps es ns t (omega arith) hp hn.1 g
                  (AreShown-Keeps B R L bodies min_utility sink s.0 t.0 es ns keep rest)))
            (visit_lem B R L bodies min_utility sink fuel (joins L min_utility fuel n.1 made)
              (joins L min_utility fuel ps ns + k) ps n e.0 e.1 es ns
              (mine L min_utility fuel n.1 made) s desc shows hp hn.0 hn.1
              (bodies.Good-mono _ (joins L min_utility (suc fuel) ps (n ∷ ns) + k) s.0
                (omega (arith, joins_cons L min_utility fuel ps n ns)) good)
              rest
              (λ es' t g shown.
                search-mine fuel (joins L min_utility fuel ps ns + k) n.1 es' made t
                  (omega (arith, length-children-le L min_utility ps n ns)) hn.0.ascending
                  (children-Storable B R L bodies min_utility sink ps n ns hp hn.0 hn.1) g shown))))
    where
      made : List Node
      made = children L min_utility ps n ns
