-- ===== src/Mining/TwoPhase/Meet.antt =====
-- The intersection by transaction that the loop with two pointers of mining/algorithms/two_phase.rs
-- computes.
use mathlib.Core.List.{append_assoc, append-nil}
use pocket_data_mining.Base.{
  ℕ, zero, suc, ◌≤◌, ◌<◌, ◌≡◌, get_or, refl, ◌∙◌, ap, false, Option, none, some, List, [], ◌∷◌,
  ◌++◌, arith, All, ◌==◌, if◌then◌else◌, inl, inr, Compare-cases, length,
}
use mathlib.Core.Path.{subst}
use pocket_data_mining.Base.Words.{add_i64}
use pocket_data_mining.Mining.TwoPhase.{
  TxEntry, DfsNode, Extended, extended_node, push_node, tx_twu, intersect, extended_empty,
}

-- Transactions rise along the lists.
abbrev pub AscendingNodes : List DfsNode → Type 0
AscendingNodes [] = Unit
AscendingNodes (p ∷ ps) = All (λ q. p.tx_idx < q.tx_idx) ps × AscendingNodes ps

abbrev pub AscendingEntries : List TxEntry → Type 0
AscendingEntries [] = Unit
AscendingEntries (x ∷ xs) = All (λ y. x.tx_idx < y.tx_idx) xs × AscendingEntries xs

unfoldable pub find_entry : ℕ → List TxEntry → Option TxEntry
find_entry i [] = none
find_entry i (x ∷ xs) = if x.tx_idx == i then some x else find_entry i xs

abbrev pub meet_one : DfsNode → Option TxEntry → List DfsNode → List DfsNode
meet_one p none rest = rest
meet_one p (some x) rest =
    record { tx_idx = p.tx_idx; util_prefix = add_i64 p.util_prefix x.util } ∷ rest

-- For each node whose transaction has the item, one node with the item's utility added.
unfoldable pub meet : List DfsNode → List TxEntry → List DfsNode
meet [] xs = []
meet (p ∷ ps) xs = meet_one p (find_entry p.tx_idx xs) (meet ps xs)

-- A sum over nodes, added up as the code does.
abbrev pub sum_nodes : (DfsNode → ℕ) → ℕ → List DfsNode → ℕ
sum_nodes field acc [] = acc
sum_nodes field acc (n ∷ ns) = sum_nodes field (add_i64 acc (field n)) ns

tx_twu-get_or : (i : ℕ) (ts : List ℕ) → i < length ts → tx_twu ts i ≡ some (get_or ts i 0)
unfolding tx_twu
tx_twu-get_or i [] h = absurd (omega arith)
tx_twu-get_or zero (t ∷ ts) h = refl
tx_twu-get_or (suc i) (t ∷ ts) h = tx_twu-get_or i ts (omega arith)

find_entry_above : (i : ℕ) (xs : List TxEntry) → All (λ y. i < y.tx_idx) xs → find_entry i xs ≡ none
unfolding find_entry
find_entry_above i [] h = refl
find_entry_above i (x ∷ xs) (h, hs) = ground (arith, find_entry_above i xs hs)

entries_above :
    (a b : ℕ) (xs : List TxEntry) → a ≤ b → All (λ y. b < y.tx_idx) xs → All (λ y. a < y.tx_idx) xs
entries_above a b [] le h = tt
entries_above a b (x ∷ xs) le (h, hs) = (omega arith, entries_above a b xs le hs)

nodes_above :
    (a b : ℕ) (ps : List DfsNode) → a ≤ b → All (λ q. b < q.tx_idx) ps → All (λ q. a < q.tx_idx) ps
nodes_above a b [] le h = tt
nodes_above a b (p ∷ ps) le (h, hs) = (omega arith, nodes_above a b ps le hs)

-- An entry before all nodes is of no account.
meet_skip :
    (x : TxEntry) (ps : List DfsNode) (xs : List TxEntry)
    → All (λ q. x.tx_idx < q.tx_idx) ps
    → meet ps (x ∷ xs) ≡ meet ps xs
unfolding meet find_entry
meet_skip x [] xs h = refl
meet_skip x (p ∷ ps) xs (h, hs) = rw (miss, meet_skip x ps xs hs) refl
  where
    miss : (x.tx_idx == p.tx_idx) ≡ false
    miss = ground arith

meet_low :
    (p : DfsNode) (ps : List DfsNode) (x : TxEntry) (xs : List TxEntry)
    → p.tx_idx < x.tx_idx
    → All (λ y. x.tx_idx < y.tx_idx) xs
    → meet (p ∷ ps) (x ∷ xs) ≡ meet ps (x ∷ xs)
unfolding meet
meet_low p ps x xs lt h =
    rw (find_entry_above p.tx_idx (x ∷ xs) (lt, entries_above p.tx_idx x.tx_idx xs (omega arith) h))
      refl

meet_match :
    (p : DfsNode) (ps : List DfsNode) (x : TxEntry) (xs : List TxEntry)
    → p.tx_idx ≡ x.tx_idx
    → All (λ q. p.tx_idx < q.tx_idx) ps
    → meet (p ∷ ps) (x ∷ xs) ≡ extended_node p x ∷ meet ps xs
unfolding meet
meet_match p ps x xs e h =
    rw (hit, meet_skip x ps xs (subst (λ n. All (λ q. n < q.tx_idx) ps) e h)) refl
  where
    hit : find_entry p.tx_idx (x ∷ xs) ≡ some x
    hit = unfold find_entry in ground arith

meet_nil : (ps : List DfsNode) → meet ps [] ≡ []
unfolding meet find_entry
meet_nil [] = refl
meet_nil (p ∷ ps) = meet_nil ps

module _ (tx_twus : List ℕ) where
  carried : DfsNode → ℕ
  carried n = get_or tx_twus n.tx_idx 0

  push_nodes : Extended → List DfsNode → Extended
  push_nodes acc [] = acc
  push_nodes acc (n ∷ ns) = push_nodes (push_node acc n (carried n)) ns

  intersect-push_nodes :
      (ps : List DfsNode) (xs : List TxEntry) (acc : Extended)
      → AscendingNodes ps
      → AscendingEntries xs
      → All (λ p. p.tx_idx < length tx_twus) ps
      → intersect tx_twus ps xs acc ≡ some (push_nodes acc (meet ps xs))
  unfolding intersect push_nodes carried
  intersect-push_nodes [] xs acc hp hx hi = unfold meet in refl
  intersect-push_nodes (p ∷ ps) [] acc hp hx hi = rw (meet_nil (p ∷ ps)) refl
  intersect-push_nodes (p ∷ ps) (x ∷ xs) acc (a, hp) (b, hx) (i, hi) =
      elim (Compare-cases p.tx_idx x.tx_idx) [
        | inl (c, lt) ↦
            rw (c, intersect, meet_low p ps x xs lt b)
              (intersect-push_nodes ps (x ∷ xs) acc hp (b, hx) hi)
        | inr (inl (c, e)) ↦
            rw (c, intersect, meet_match p ps x xs e a, tx_twu-get_or p.tx_idx tx_twus i)
              (intersect-push_nodes ps xs
                (push_node acc (extended_node p x) (get_or tx_twus p.tx_idx 0)) hp hx hi)
        | inr (inr (c, gt)) ↦
            rw
              (
                c,
                intersect,
                meet_skip x (p ∷ ps) xs (gt, nodes_above x.tx_idx p.tx_idx ps (omega arith) a),
              )
              (intersect-push_nodes (p ∷ ps) xs acc (a, hp) hx (i, hi))
      ]

  push_nodes_lem :
      (acc : Extended) (ns : List DfsNode)
      → push_nodes acc ns ≡ record {
        next_tids = acc.next_tids ++ ns;
        twu = sum_nodes carried acc.twu ns;
        exact = sum_nodes (λ n. n.util_prefix) acc.exact ns;
      }
  unfolding push_nodes push_node carried
  push_nodes_lem acc [] = ground (arith, append-nil acc.next_tids)
  push_nodes_lem acc (n ∷ ns) =
      rw (push_nodes_lem (push_node acc n (carried n)) ns)
        (ground (arith, append_assoc acc.next_tids (n ∷ []) ns))

  -- On lists in the order of the transactions, whose indices are all below the number of transactions,
  -- the loop with two pointers ends with the intersection by transaction, the sum of what its
  -- transactions carry and the sum of its utilities, in i64 arithmetic, and no index is out of
  -- bounds.
  pub intersect_lem :
      (ps : List DfsNode) (xs : List TxEntry)
      → AscendingNodes ps
      → AscendingEntries xs
      → All (λ p. p.tx_idx < length tx_twus) ps
      → intersect tx_twus ps xs extended_empty
        ≡ some (record {
          next_tids = meet ps xs;
          twu = sum_nodes (λ n. get_or tx_twus n.tx_idx 0) 0 (meet ps xs);
          exact = sum_nodes (λ n. n.util_prefix) 0 (meet ps xs);
        })
  unfolding carried
  intersect_lem ps xs hp hx hi =
      intersect-push_nodes ps xs extended_empty hp hx hi
      ∙ ap (λ r. some r) (push_nodes_lem extended_empty (meet ps xs))
