-- ===== src/Mining/Eucs.antt =====
-- mining/components/eucs.rs: the sum of the transaction utilities of each pair of items that occur
-- together, kept while the memory guard grants 32 bytes for each new pair.
pub mod Pairs
pub mod Complete
use pocket_data_mining.Base.{
  ℕ, Bool, true, false, ◌&&◌, Option, none, some, List, [], ◌∷◌, map, length, ltb, ◌==◌,
  if◌then◌else◌,
}
use pocket_data_mining.Base.Words.{add_i64, lt_i64}
use pocket_data_mining.Types.{ItemEntry, RawTransaction}
use pocket_data_mining.Mining.MemoryGuard.{MemoryGuard, try_alloc}

-- An entry of the hash map, whose key is the pair (low, high).
pub record PairEntry : Type 0 where
  pub low : ℕ
  pub high : ℕ
  pub tu : ℕ

abbrev pub Eucs : Type 0
Eucs = List PairEntry

abbrev pub eucs_new : Eucs
eucs_new = []

abbrev pub key : ℕ → ℕ → ℕ × ℕ
key x y = if ltb x y then (x, y) else (y, x)

abbrev pub same_key : ℕ × ℕ → ℕ × ℕ → Bool
same_key (a, b) (c, d) = (a == c) && (b == d)

-- `inner.get(&key)`.
unfoldable pub get : ℕ × ℕ → Eucs → Option ℕ
get k [] = none
get k (e ∷ m) = if same_key k (e.low, e.high) then some e.tu else get k m

-- `*inner.entry(key).or_insert(0) += tu`.
unfoldable pub add_to : ℕ × ℕ → ℕ → Eucs → Eucs
add_to k tu [] = record { low = k.0; high = k.1; tu = add_i64 0 tu } ∷ []
add_to k tu (e ∷ m) =
    let rest = add_to k tu m in
    if same_key k (e.low, e.high) then record e { tu = add_i64 e.tu tu } ∷ m else e ∷ rest

abbrev pub Tracked : Type 0
Tracked = Eucs × MemoryGuard

abbrev pub granted : ℕ × ℕ → ℕ → Eucs → MemoryGuard × Bool → Tracked × Bool
granted k tu m (guard, true) = ((add_to k tu m, guard), true)
granted k tu m (guard, false) = ((m, guard), false)

abbrev pub add_key : ℕ × ℕ → ℕ → Option ℕ → Tracked → Tracked × Bool
add_key k tu (some _) (m, guard) = ((add_to k tu m, guard), true)
add_key k tu none (m, guard) = granted k tu m (try_alloc 32 guard)

-- The body of the inner loop. False: the guard refused, and the loops stop.
unfoldable pub add_pair : ℕ → ℕ → ℕ → Tracked → Tracked × Bool
add_pair x y tu s = add_key (key x y) tu (get (key x y) s.0) s

abbrev pub and_then : (Tracked → Tracked × Bool) → Tracked × Bool → Tracked × Bool
and_then rest (s, true) = rest s
and_then rest (s, false) = (s, false)

-- The inner loop: one item with each of those after it.
unfoldable pub add_row : ℕ → List ℕ → ℕ → Tracked → Tracked × Bool
add_row x [] tu s = (s, true)
add_row x (y ∷ ys) tu s = and_then (add_row x ys tu) (add_pair x y tu s)

unfoldable pub add_transaction : List ℕ → ℕ → Tracked → Tracked × Bool
add_transaction [] tu s = (s, true)
add_transaction (x ∷ xs) tu s = and_then (add_transaction xs tu) (add_row x xs tu s)

abbrev pub items_of : RawTransaction → List ℕ
items_of tx = map (λ e. e.item) tx.items

-- The loops of `build` over the items are those of add_transaction; it stops for good at the first
-- refusal, which the flag says here.
unfoldable pub build : List RawTransaction → Tracked → Tracked × Bool
build [] s = (s, true)
build (tx ∷ txs) s = and_then (build txs) (add_transaction (items_of tx) tx.transaction_utility s)

-- What a lookup says: a pair that is not there never occurred together.
abbrev pub pruned : ℕ → Option ℕ → Bool
pruned min_utility none = true
pruned min_utility (some tu) = lt_i64 tu min_utility

unfoldable pub can_prune : ℕ → ℕ → ℕ → Eucs → Bool
can_prune x y min_utility m = pruned min_utility (get (key x y) m)

unfoldable pub pair_count : Eucs → ℕ
pair_count m = length m
