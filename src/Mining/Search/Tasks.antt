-- ===== src/Mining/Search/Tasks.antt =====
-- execute_tasks over the lists of the single items: the whole run of the search.
use mathlib.Core.List.{append-nil}
use pocket_data_mining.Base.{
  ℕ, suc, ◌+◌, ◌≤◌, ◌≡◌, refl, sym, ◌∙◌, ap, true, false, List, [], ◌∷◌, ◌++◌, map, length, arith,
  All, Bool-cases, inl, inr,
}
use pocket_data_mining.Base.Io.{ok}
use pocket_data_mining.Base.Exec.{settle}
use pocket_data_mining.Types.{UlEntry, UtilityList, can_prune}
use pocket_data_mining.Mining.Search.{
  Bodies, Sink, Cuts, unwrap, Session, Extension, on_bodies, report_high, explore, search,
  prefetched, join_singles, expand_single, task, execute_tasks,
}
use pocket_data_mining.Mining.Search.Nodes.{Node, header, Describes, header-Describes, IsStorable}
use pocket_data_mining.Mining.Search.Reference.{
  children, own, mine, mine_one, joins, mine_cons, joins_cons, mine_one_pruned, mine_one_kept,
  length-children-le, mine-fuel, joins-fuel,
}
use pocket_data_mining.Mining.Search.Lawful.{
  Ends, Ends-mono, Ends-settle, Ends-unwrap, BodiesLaws, SinkLaws,
}
use pocket_data_mining.Mining.Search.Refine.{AreShown, Storable}
use pocket_data_mining.Mining.Search.Visited.{
  Done, Done-trans, report_high_lem, Ends-beside, explore-search, children-Storable,
}
use pocket_data_mining.Mining.Search.Written.{search-mine}
use pocket_data_mining.Mining.Search.Singles.{single_of, join_singles_lem}

module _ (B : Bodies) (R : Sink) (L : Cuts) (bodies : BodiesLaws B) (min_utility : ℕ)
    (sink : SinkLaws R min_utility) where
  expand_single_open :
      (itemset : List ℕ) (body : List UlEntry) (rest : List (UtilityList × List UlEntry))
      (s : Session B R L)
      → L.extensible itemset ≡ true
      → expand_single B R L itemset body rest s
        ≡ settle
            (λ next t. unwrap (
              explore B R L
                (search B R L (length next))
                body
                next
                (prefetched B R L itemset next t)))
            (on_bodies B R L (join_singles B R L (R.threshold s.1) itemset body rest) s)
  unfolding expand_single
  expand_single_open itemset body rest s e = rw (e, expand_single) refl

  expand_single_closed :
      (itemset : List ℕ) (body : List UlEntry) (rest : List (UtilityList × List UlEntry))
      (s : Session B R L)
      → L.extensible itemset ≡ false
      → expand_single B R L itemset body rest s ≡ (ok tt, s)
  unfolding expand_single
  expand_single_closed itemset body rest s e = rw (e, expand_single) refl

  task_pruned :
      (x : Node) (rest : List (UtilityList × List UlEntry)) (s : Session B R L)
      → can_prune (header x) (R.threshold s.1) ≡ true
      → task B R L (header x) x.1 rest s ≡ (ok tt, s)
  unfolding task
  task_pruned x rest s e = rw (e, task) refl

  task_kept :
      (x : Node) (rest : List (UtilityList × List UlEntry)) (s : Session B R L)
      → can_prune (header x) (R.threshold s.1) ≡ false
      → task B R L (header x) x.1 rest s
        ≡ settle
            (λ _ t. expand_single B R L x.0 x.1 rest t)
            (unwrap (report_high B R L (header x) s))
  unfolding task
  task_kept x rest s e = rw (e, task) refl

  AreShown-length :
      (t : B.State) (es : List (Extension B R L)) (ns : List Node)
      → AreShown B R L bodies min_utility sink t es ns
      → length es ≡ length ns
  AreShown-length t [] [] h = refl
  AreShown-length t [] (n ∷ ns) h = absurd h
  AreShown-length t (e ∷ es) [] h = absurd h
  AreShown-length t (e ∷ es) (n ∷ ns) (d, q, h) = ap suc (AreShown-length t es ns h)

  abbrev made_of : Node → List Node → List Node
  made_of x ns = children L min_utility [] x ns

  -- The search below a task writes what the search in memory finds there.
  deeper_lem :
      (fuel k : ℕ) (x : Node) (ns : List Node) (next : List (Extension B R L)) (t : Session B R L)
      → length ns ≤ fuel
      → IsStorable x.1
      → All (Storable B R L bodies min_utility sink) ns
      → bodies.Good (joins L min_utility fuel x.1 (made_of x ns) + k) t.0
      → AreShown B R L bodies min_utility sink t.0 next (made_of x ns)
      → Ends
          (λ _ u.
            Done B R L bodies min_utility sink k t (mine L min_utility fuel x.1 (made_of x ns)) u)
          (unwrap
            (explore B R L (search B R L (length next)) x.1 next (prefetched B R L x.0 next t)))
  deeper_lem fuel k x ns next t len hx hn good shown =
      rw
        (
          explore-search B R L bodies min_utility sink (length next) x.1 next
              (prefetched B R L x.0 next t),
          mine-fuel L min_utility fuel (length next) x.1 (made_of x ns) enough same,
        )
        (Ends-unwrap _ (search B R L (length next) x.1 next (prefetched B R L x.0 next t)) (
          Ends-mono _ _ (search B R L (length next) x.1 next (prefetched B R L x.0 next t))
            (λ _ u (g, keep, e). (
              g,
              keep,
              e
                  ∙ ap (λ o. o ++ mine L min_utility (length next) x.1 (made_of x ns))
                      (sink.prefetch_lem _ t.1),
            ))
            (search-mine B R L bodies min_utility sink (length next) k x.1 next (made_of x ns)
              (prefetched B R L x.0 next t) same hx.ascending
              (children-Storable B R L bodies min_utility sink [] x ns tt hx hn)
              (bodies.Good-mono _ _ t.0
                (omega (
                  arith,
                  joins-fuel L min_utility fuel (length next) x.1 (made_of x ns) enough same,
                ))
                good)
              shown)))
    where
      enough : length (made_of x ns) ≤ fuel
      enough = omega (arith, length-children-le L min_utility [] x ns)

      same : length (made_of x ns) ≤ length next
      same = omega (arith, AreShown-length t.0 next (made_of x ns) shown)

  expand_single_lem :
      (fuel k : ℕ) (x : Node) (ns : List Node) (s : Session B R L)
      → length ns ≤ fuel
      → IsStorable x.1
      → All (Storable B R L bodies min_utility sink) ns
      → bodies.Good (length ns + (joins L min_utility fuel x.1 (made_of x ns) + k)) s.0
      → Ends
          (λ _ u.
            Done B R L bodies min_utility sink k s
              (elim (L.extensible x.0) [
                | true ↦ mine L min_utility fuel x.1 (made_of x ns)
                | false ↦ []
              ])
              u)
          (expand_single B R L x.0 x.1 (map single_of ns) s)
  expand_single_lem fuel k x ns s len hx hn good = elim (Bool-cases (L.extensible x.0)) [
    | inl opens ↦
        rw (opens, expand_single_open x.0 x.1 (map single_of ns) s opens, sink.threshold_lem s.1)
          (Ends-settle _ _
            (on_bodies B R L (join_singles B R L min_utility x.0 x.1 (map single_of ns)) s)
            (Ends-mono _ _
              (on_bodies B R L (join_singles B R L min_utility x.0 x.1 (map single_of ns)) s)
              (λ next t ((g, keep, made), out).
                Ends-mono _ _
                  (unwrap (
                    explore B R L (search B R L (length next)) x.1 next
                      (prefetched B R L x.0 next t)))
                  (λ _ u (g2, keep2, e2). (
                    g2,
                    λ c fs q. keep2 c fs (keep c fs q),
                    e2 ∙ ap (λ o. sink.found o ++ mine L min_utility fuel x.1 (made_of x ns)) out,
                  ))
                  (deeper_lem fuel k x ns next t len hx hn g made))
              (Ends-beside B R L bodies min_utility sink _ s
                (join_singles B R L min_utility x.0 x.1 (map single_of ns) s.0)
                (join_singles_lem B R L bodies min_utility sink
                  (joins L min_utility fuel x.1 (made_of x ns) + k) x ns s.0 hx hn good))))
    | inr closed ↦
        rw (closed, expand_single_closed x.0 x.1 (map single_of ns) s closed)
          (
            bodies.Good-mono _ _ s.0 (omega arith) good,
            λ c fs q. q,
            sym (append-nil (sink.found s.1)),
          )
  ]

  task_lem :
      (fuel k : ℕ) (x : Node) (ns : List Node) (s : Session B R L)
      → length ns ≤ fuel
      → Describes (header x) x
      → IsStorable x.1
      → All (Storable B R L bodies min_utility sink) ns
      → bodies.Good (length ns + (joins L min_utility fuel x.1 (made_of x ns) + k)) s.0
      → Ends
          (λ _ u.
            Done B R L bodies min_utility sink k s
              (mine_one L min_utility x (mine L min_utility fuel x.1 (made_of x ns)))
              u)
          (task B R L (header x) x.1 (map single_of ns) s)
  task_lem fuel k x ns s len desc hx hn good =
      elim (Bool-cases (can_prune (header x) min_utility)) [
        | inl prune ↦
            rw
              (
                mine_one_pruned L min_utility x (mine L min_utility fuel x.1 (made_of x ns)) prune,
                task_pruned x (map single_of ns) s
                    (ap (λ t. can_prune (header x) t) (sink.threshold_lem s.1) ∙ prune),
              )
              (
                bodies.Good-mono _ _ s.0 (omega arith) good,
                λ c fs q. q,
                sym (append-nil (sink.found s.1)),
              )
        | inr keeps ↦
            rw
              (
                mine_one_kept L min_utility x (mine L min_utility fuel x.1 (made_of x ns)) keeps,
                task_kept x (map single_of ns) s
                    (ap (λ t. can_prune (header x) t) (sink.threshold_lem s.1) ∙ keeps),
              )
              (Ends-settle _ _ (unwrap (report_high B R L (header x) s)) (
                Ends-unwrap _ (report_high B R L (header x) s) (
                  Ends-mono _ _ (report_high B R L (header x) s)
                    (λ _ t done.
                      Ends-mono _ _ (expand_single B R L x.0 x.1 (map single_of ns) t)
                        (λ _ u later.
                          Done-trans B R L bodies min_utility sink _ k s t u (own L min_utility x) _
                            done later)
                        (expand_single_lem fuel k x ns t len hx hn done.0))
                    (report_high_lem B R L bodies min_utility sink _ (header x) x s good desc))))
      ]

  execute_tasks_cons :
      (x : Node) (ns : List Node) (s : Session B R L)
      → execute_tasks B R L (map single_of (x ∷ ns)) s
        ≡ settle
            (λ _ t. execute_tasks B R L (map single_of ns) t)
            (task B R L (header x) x.1 (map single_of ns) s)
  unfolding execute_tasks
  execute_tasks_cons x ns s = refl

  -- Over lawful bodies with room for its joins, the tasks of the single items either write what the
  -- search in memory finds, in that order, or fail with an error of the bodies or of the sink; the
  -- fuel that each task gives its search is enough.
  pub execute_tasks-mine :
      (k : ℕ) (ns : List Node) (s : Session B R L)
      → All (Storable B R L bodies min_utility sink) ns
      → bodies.Good (joins L min_utility (length ns) [] ns + k) s.0
      → Ends
          (λ _ t. Done B R L bodies min_utility sink k s (mine L min_utility (length ns) [] ns) t)
          (execute_tasks B R L (map single_of ns) s)
  execute_tasks-mine k [] s hn good =
      unfold execute_tasks mine in
      (bodies.Good-mono _ _ s.0 (omega arith) good, λ c fs q. q, sym (append-nil (sink.found s.1)))
  execute_tasks-mine k (x ∷ ns) s hn good =
      rw (execute_tasks_cons x ns s, mine_cons L min_utility (length ns) [] x ns)
        (Ends-settle _ _ (task B R L (header x) x.1 (map single_of ns) s) (
          Ends-mono _ _ (task B R L (header x) x.1 (map single_of ns) s)
            (λ _ t done.
              Ends-mono _ _ (execute_tasks B R L (map single_of ns) t)
                (λ _ u later.
                  Done-trans B R L bodies min_utility sink _ k s t u _
                    (mine L min_utility (length ns) [] ns) done later)
                (execute_tasks-mine k ns t hn.1 done.0))
            (task_lem (length ns) (joins L min_utility (length ns) [] ns + k) x ns s (omega arith)
              (header-Describes x) hn.0 hn.1
              (bodies.Good-mono _ _ s.0
                (omega (arith, joins_cons L min_utility (length ns) [] x ns)) good))))
