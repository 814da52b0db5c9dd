-- ===== src/Mining/TwoPhase/Bytes.antt =====
-- The nodes that mining/algorithms/two_phase.rs puts in a page come back from its bytes.
use pocket_data_mining.Base.{
  ℕ, ◌*◌, ◌/◌, ◌^◌, ◌<◌, ◌≡◌, refl, List, [], ◌∷◌, length, length-append, arith, All,
}
use pocket_data_mining.Base.Bytes.{
  to_le_bytes, from_le_bytes, from_le_bytes-to_le_bytes, take-append_of_length,
  drop-append_of_length,
}
use pocket_data_mining.Mining.TwoPhase.{
  DfsNode, node_bytes, serialize_nodes, read_node, read_nodes, deserialize_nodes,
}

pub record NodeFits (n : DfsNode) : Type 0 where
  pub tx_idx_fits : n.tx_idx < 2 ^ 32
  pub util_prefix_fits : n.util_prefix < 2 ^ 64

length-node_bytes : (n : DfsNode) → length (node_bytes n) ≡ 12
unfolding to_le_bytes
length-node_bytes n = refl

read_node-node_bytes : (n : DfsNode) → NodeFits n → read_node (node_bytes n) ≡ n
unfolding to_le_bytes from_le_bytes
read_node-node_bytes n fits = cc (
  from_le_bytes-to_le_bytes 4 n.tx_idx fits.tx_idx_fits,
  from_le_bytes-to_le_bytes 8 n.util_prefix fits.util_prefix_fits,
)

length-serialize_nodes : (ns : List DfsNode) → length (serialize_nodes ns) ≡ 12 * length ns
unfolding serialize_nodes
length-serialize_nodes [] = omega arith
length-serialize_nodes (n ∷ ns) = omega (
  arith,
  length-append (node_bytes n) (serialize_nodes ns),
  length-node_bytes n,
  length-serialize_nodes ns,
)

read_nodes-serialize_nodes :
    (ns : List DfsNode) → All NodeFits ns → read_nodes (length ns) (serialize_nodes ns) ≡ ns
unfolding read_nodes serialize_nodes
read_nodes-serialize_nodes [] fits = refl
read_nodes-serialize_nodes (n ∷ ns) fits = simp (
  take-append_of_length 12 (node_bytes n) (serialize_nodes ns) (length-node_bytes n),
  drop-append_of_length 12 (node_bytes n) (serialize_nodes ns) (length-node_bytes n),
  read_node-node_bytes n fits.0,
  read_nodes-serialize_nodes ns fits.1,
)

rounds : (n : ℕ) → 12 * n / 12 ≡ n
rounds n = omega arith

-- Nodes whose fields are within their widths come back from their bytes.
pub deserialize_nodes-serialize_nodes :
    (ns : List DfsNode) → All NodeFits ns → deserialize_nodes (serialize_nodes ns) ≡ ns
unfolding deserialize_nodes
deserialize_nodes-serialize_nodes ns fits =
    rw (length-serialize_nodes ns, rounds (length ns)) (read_nodes-serialize_nodes ns fits)
