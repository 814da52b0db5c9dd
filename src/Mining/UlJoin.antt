-- ===== src/Mining/UlJoin.antt =====
-- mining/components/ul_join.rs: the bytes of a utility list, the two merges, and where the body of
-- the joined list is kept.
pub mod Bytes
pub mod Join
pub mod Merge
pub mod Sums
pub mod Materialize
use pocket_data_mining.Base.{
  ℕ, zero, suc, ◌+◌, ◌-◌, ◌/◌, ◌%◌, ◌<◌, ◌≡◌, Bool, true, false, Option, none, some, List, [], ◌∷◌,
  ◌++◌, length, take, drop, ltb, leb, ◌==◌, if◌then◌else◌,
}
use Prim.Native.Nat.{compare, Ordering}
use pocket_data_mining.Base.Bytes.{to_le_bytes, from_le_bytes}
use pocket_data_mining.Base.Words.{add_i64, sub_i64}
use pocket_data_mining.Storage.PageLayout.{slice}
use pocket_data_mining.Types.{UlEntry}

abbrev pub entry_bytes : UlEntry → List ℕ
entry_bytes e = to_le_bytes 4 e.tid ++ (to_le_bytes 8 e.iutils ++ to_le_bytes 8 e.rutils)

unfoldable pub serialize_ul_body : List UlEntry → List ℕ
serialize_ul_body [] = []
serialize_ul_body (e ∷ es) = entry_bytes e ++ serialize_ul_body es

abbrev pub read_entry : List ℕ → UlEntry
read_entry chunk = record {
  tid = from_le_bytes (slice chunk 0 4);
  iutils = from_le_bytes (slice chunk 4 12);
  rutils = from_le_bytes (slice chunk 12 20);
}

-- `chunks_exact(20)` over so many chunks.
unfoldable pub read_entries : ℕ → List ℕ → List UlEntry
read_entries zero bytes = []
read_entries (suc n) bytes = read_entry (take 20 bytes) ∷ read_entries n (drop 20 bytes)

-- `none` is the panic of the assertion.
unfoldable pub deserialize_ul_body : List ℕ → Option (List UlEntry)
unfolding read_entries
deserialize_ul_body bytes =
    if length bytes % 20 == 0 then some (read_entries (length bytes / 20) bytes) else none

-- `result`, `sum_iutils` and `sum_rutils`.
pub record Joined : Type 0 where
  pub result : List UlEntry
  pub sum_iutils : ℕ
  pub sum_rutils : ℕ

abbrev pub joined_empty : Joined
joined_empty = record { result = []; sum_iutils = 0; sum_rutils = 0 }

unfoldable pub push_entry : Joined → UlEntry → Joined
push_entry acc e = record {
  result = acc.result ++ e ∷ [];
  sum_iutils = add_i64 acc.sum_iutils e.iutils;
  sum_rutils = add_i64 acc.sum_rutils e.rutils;
}

abbrev pub pair_entry : UlEntry → UlEntry → UlEntry
pair_entry x y = record { tid = x.tid; iutils = add_i64 x.iutils y.iutils; rutils = y.rutils }

-- The loop for an empty prefix; the indices i and j are the parts of the slices that are left.
unfoldable pub join_pairs : List UlEntry → List UlEntry → Joined → Joined
unfolding push_entry
join_pairs [] ys acc = acc
join_pairs (x ∷ xs) [] acc = acc
join_pairs (x ∷ xs) (y ∷ ys) acc = elim (compare x.tid y.tid) [
  | Ordering.eq ↦ join_pairs xs ys (push_entry acc (pair_entry x y))
  | Ordering.lt ↦ join_pairs xs (y ∷ ys) acc
  | Ordering.gt ↦ join_pairs (x ∷ xs) ys acc
]

-- `while p < prefix.len() && prefix[p].tid < tid { p += 1 }`
unfoldable pub skip_below : ℕ → List UlEntry → List UlEntry
skip_below tid [] = []
skip_below tid (p ∷ ps) = let rest = skip_below tid ps in if ltb p.tid tid then rest else p ∷ ps

abbrev pub prefix_iutils : ℕ → List UlEntry → ℕ
prefix_iutils tid [] = 0
prefix_iutils tid (p ∷ ps) = if p.tid == tid then p.iutils else 0

abbrev pub triple_entry : UlEntry → UlEntry → ℕ → UlEntry
triple_entry x y prefix_utility = record {
  tid = x.tid;
  iutils = sub_i64 (add_i64 x.iutils y.iutils) prefix_utility;
  rutils = y.rutils;
}

-- The loop with three pointers.
unfoldable pub join_prefixed : List UlEntry → List UlEntry → List UlEntry → Joined → Joined
unfolding push_entry skip_below
join_prefixed ps [] ys acc = acc
join_prefixed ps (x ∷ xs) [] acc = acc
join_prefixed ps (x ∷ xs) (y ∷ ys) acc = elim (compare x.tid y.tid) [
  | Ordering.eq ↦
      join_prefixed (skip_below x.tid ps) xs ys
        (push_entry acc (triple_entry x y (prefix_iutils x.tid (skip_below x.tid ps))))
  | Ordering.lt ↦ join_prefixed ps xs (y ∷ ys) acc
  | Ordering.gt ↦ join_prefixed ps (x ∷ xs) ys acc
]

-- The choice between the two loops.
unfoldable pub join_entries : List UlEntry → List UlEntry → List UlEntry → Joined
unfolding join_pairs join_prefixed
join_entries [] px py = join_pairs px py joined_empty
join_entries (p ∷ ps) px py = join_prefixed (p ∷ ps) px py joined_empty
