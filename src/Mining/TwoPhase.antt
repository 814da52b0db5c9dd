-- ===== src/Mining/TwoPhase.antt =====
-- mining/algorithms/two_phase.rs: the bytes of its lists, and the intersection that extends a prefix by
-- one item.
pub mod Bytes
pub mod Meet
use pocket_data_mining.Base.{
  ℕ, zero, suc, ◌+◌, ◌/◌, Option, none, some, List, [], ◌∷◌, ◌++◌, length, take, drop,
}
use Prim.Native.Nat.{compare, Ordering}
use pocket_data_mining.Base.Bytes.{to_le_bytes, from_le_bytes}
use pocket_data_mining.Base.Words.{add_i64}
use pocket_data_mining.Storage.PageLayout.{slice}

pub record TxEntry : Type 0 where
  pub tx_idx : ℕ
  pub util : ℕ

pub record DfsNode : Type 0 where
  pub tx_idx : ℕ
  pub util_prefix : ℕ

abbrev pub node_bytes : DfsNode → List ℕ
node_bytes n = to_le_bytes 4 n.tx_idx ++ to_le_bytes 8 n.util_prefix

unfoldable pub serialize_nodes : List DfsNode → List ℕ
serialize_nodes [] = []
serialize_nodes (n ∷ nodes) = node_bytes n ++ serialize_nodes nodes

abbrev pub read_node : List ℕ → DfsNode
read_node chunk = record {
  tx_idx = from_le_bytes (slice chunk 0 4);
  util_prefix = from_le_bytes (slice chunk 4 12);
}

-- `chunks_exact(12)` over so many chunks.
unfoldable pub read_nodes : ℕ → List ℕ → List DfsNode
read_nodes zero bytes = []
read_nodes (suc n) bytes = read_node (take 12 bytes) ∷ read_nodes n (drop 12 bytes)

unfoldable pub deserialize_nodes : List ℕ → List DfsNode
unfolding read_nodes
deserialize_nodes bytes = read_nodes (length bytes / 12) bytes

-- `next_tids`, `twu` and `exact`.
pub record Extended : Type 0 where
  pub next_tids : List DfsNode
  pub twu : ℕ
  pub exact : ℕ

abbrev pub extended_empty : Extended
extended_empty = record { next_tids = []; twu = 0; exact = 0 }

-- `tx_twus[i]`, or the panic of an index out of bounds.
unfoldable pub tx_twu : List ℕ → ℕ → Option ℕ
tx_twu [] i = none
tx_twu (t ∷ ts) zero = some t
tx_twu (t ∷ ts) (suc i) = tx_twu ts i

abbrev pub extended_node : DfsNode → TxEntry → DfsNode
extended_node p x = record { tx_idx = p.tx_idx; util_prefix = add_i64 p.util_prefix x.util }

unfoldable pub push_node : Extended → DfsNode → ℕ → Extended
push_node acc n t = record {
  next_tids = acc.next_tids ++ n ∷ [];
  twu = add_i64 acc.twu t;
  exact = add_i64 acc.exact n.util_prefix;
}

abbrev pub push_with :
    (Extended → Option Extended) → Extended → DfsNode → Option ℕ → Option Extended
push_with rest acc n none = none
push_with rest acc n (some t) = rest (push_node acc n t)

-- The loop with two pointers; the indices i and j are the parts of the slices that are left.
unfoldable pub intersect : List ℕ → List DfsNode → List TxEntry → Extended → Option Extended
unfolding push_node
intersect tx_twus [] xs acc = some acc
intersect tx_twus (p ∷ ps) [] acc = some acc
intersect tx_twus (p ∷ ps) (x ∷ xs) acc = elim (compare p.tx_idx x.tx_idx) [
  | Ordering.eq ↦
      push_with (λ next. intersect tx_twus ps xs next) acc (extended_node p x)
        (tx_twu tx_twus p.tx_idx)
  | Ordering.lt ↦ intersect tx_twus ps (x ∷ xs) acc
  | Ordering.gt ↦ intersect tx_twus (p ∷ ps) xs acc
]
