-- ===== src/Mining/Tests/TwoPhase.antt =====
-- The lists of Two-Phase on small inputs.
use pocket_data_mining.Base.{ℕ, ◌≡◌, ◌<◌, some, List, [], ◌∷◌, get_or, arith}
use pocket_data_mining.Mining.TwoPhase.{
  TxEntry, DfsNode, extended_empty, intersect, serialize_nodes, deserialize_nodes,
}
use pocket_data_mining.Mining.TwoPhase.Bytes.{NodeFits, deserialize_nodes-serialize_nodes}
use pocket_data_mining.Mining.TwoPhase.Meet.{meet, sum_nodes, intersect_lem}

abbrev three_nodes : List DfsNode
three_nodes =
    record { tx_idx = 0; util_prefix = 5 }
    ∷ record { tx_idx = 1; util_prefix = 4 }
    ∷ record { tx_idx = 3; util_prefix = 7 }
    ∷ []

abbrev two_entries : List TxEntry
two_entries = record { tx_idx = 1; util = 6 } ∷ record { tx_idx = 2; util = 9 } ∷ []

abbrev four_twus : List ℕ
four_twus = 8 ∷ 10 ∷ 20 ∷ 30 ∷ []

intersect_lem_example :
    intersect four_twus three_nodes two_entries extended_empty
    ≡ some (record {
      next_tids = meet three_nodes two_entries;
      twu = sum_nodes (λ n. get_or four_twus n.tx_idx 0) 0 (meet three_nodes two_entries);
      exact = sum_nodes (λ n. n.util_prefix) 0 (meet three_nodes two_entries);
    })
intersect_lem_example =
    intersect_lem four_twus three_nodes two_entries
      ((omega arith, (omega arith, tt)), ((omega arith, tt), (tt, tt)))
      ((omega arith, tt), (tt, tt)) (omega arith, (omega arith, (omega arith, tt)))

node_fits : (i u : ℕ) → i < 4 → u < 10 → NodeFits (record { tx_idx = i; util_prefix = u })
node_fits i u a b = record { tx_idx_fits = omega arith; util_prefix_fits = omega arith }

deserialize_nodes-serialize_nodes_example :
    deserialize_nodes (serialize_nodes three_nodes) ≡ three_nodes
deserialize_nodes-serialize_nodes_example = deserialize_nodes-serialize_nodes three_nodes (
  node_fits 0 5 (omega arith) (omega arith),
  (node_fits 1 4 (omega arith) (omega arith), (node_fits 3 7 (omega arith) (omega arith), tt)),
)
