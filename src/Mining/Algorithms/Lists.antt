-- ===== src/Mining/Algorithms/Lists.antt =====
-- The second pass of the algorithms: the utility lists of the single items, from transactions that
-- the filter cut down, ordered by transaction-weighted utility.
use pocket_data_mining.Base.{
  ℕ, ◌%◌, true, Option, none, some, List, [], ◌∷◌, ◌++◌, map, length, ltb, keep_if, not,
}
use pocket_data_mining.Base.Assoc.{Assoc, lookup, insert, remove}
use pocket_data_mining.Base.Sort.{sort_by}
use pocket_data_mining.Base.Words.{u32_mod, add_i64, sub_i64, lt_i64}
use pocket_data_mining.Types.{ItemEntry, RawTransaction, UlEntry, UtilityList, twu, recomputable}
use pocket_data_mining.Preprocessing.TwuFilter.{
  FilteredTransaction, TwuFilterResult, apply, twu_of, key_before,
}
use pocket_data_mining.Mining.Eucs.{Tracked, add_transaction}
use pocket_data_mining.Mining.Search.{Single, last_item}
use pocket_data_mining.Mining.Search.Nodes.{sum_iutils_of, sum_rutils_of}

abbrev pub PerItem : Type 0
PerItem = Assoc (List UlEntry)

abbrev pub or_empty : Option (List UlEntry) → List UlEntry
or_empty none = []
or_empty (some es) = es

-- `per_item.entry(item).or_default().push(entry)`
unfoldable pub push_item : ℕ → UlEntry → PerItem → PerItem
push_item item entry m = insert item (or_empty (lookup item m) ++ entry ∷ []) m

-- `filtered_tx.items.iter().map(|e| e.utility).sum()`
unfoldable pub total_utility : ℕ → List ItemEntry → ℕ
total_utility acc [] = acc
total_utility acc (e ∷ es) = total_utility (add_i64 acc e.utility) es

-- The loop over the items, with the utility that remains.
unfoldable pub add_entries : ℕ → ℕ → List ItemEntry → PerItem → PerItem
unfolding push_item
add_entries tid running_remaining [] m = m
add_entries tid running_remaining (e ∷ es) m =
    let rutils = sub_i64 running_remaining e.utility in
    add_entries tid rutils es
      (push_item e.item (record { tid = tid; iutils = e.utility; rutils = rutils }) m)

unfoldable pub add_filtered : Option FilteredTransaction → PerItem → PerItem
unfolding add_entries total_utility
add_filtered none m = m
add_filtered (some tx) m = add_entries tx.tid (total_utility 0 tx.items) tx.items m

-- The pass of the algorithms without a structure of co-occurrences.
unfoldable pub per_item_of : TwuFilterResult → List RawTransaction → PerItem → PerItem
unfolding add_filtered
per_item_of r [] m = m
per_item_of r (tx ∷ txs) m = per_item_of r txs (add_filtered (apply r tx) m)

-- A refusal of the guard only shows in the text of the stage.
abbrev pub note_pairs : Option FilteredTransaction → Tracked → Tracked
note_pairs none pairs = pairs
note_pairs (some tx) pairs =
    (add_transaction (map (λ e. e.item) tx.items) tx.transaction_utility pairs).0

-- The pass of the algorithms with one.
unfoldable pub per_item_with_pairs :
    TwuFilterResult → List RawTransaction → PerItem × Tracked → PerItem × Tracked
unfolding add_filtered
per_item_with_pairs r [] s = s
per_item_with_pairs r (tx ∷ txs) (m, pairs) =
    per_item_with_pairs r txs (add_filtered (apply r tx) m, note_pairs (apply r tx) pairs)

unfoldable pub item_header : ℕ → List UlEntry → UtilityList
item_header item entries = record {
  itemset = item ∷ [];
  sum_iutils = sum_iutils_of entries;
  sum_rutils = sum_rutils_of entries;
  len = length entries % u32_mod;
  page_id = 0;
  resident = true;
  recompute = recomputable;
}

abbrev pub keys : PerItem → List ℕ
keys [] = []
keys ((k, _) ∷ m) = k ∷ keys m

-- `per_item.remove(&item).unwrap()`: each item is a key.
abbrev pub header_found : ℕ → Option (List UlEntry) → List Single → List Single
header_found item none rest = rest
header_found item (some entries) rest = (item_header item entries, entries) ∷ rest

unfoldable pub headers_of : List ℕ → PerItem → List Single
unfolding item_header
headers_of [] m = []
headers_of (item ∷ items) m = header_found item (lookup item m) (headers_of items (remove item m))

unfoldable pub item_uls : PerItem → List Single
unfolding headers_of
item_uls m = headers_of (sort_by ltb (keys m)) m

abbrev pub item_of : Single → ℕ
item_of s = last_item s.0.itemset

-- `sort_by_key` on the transaction-weighted utility alone: a stable sort of a list by item.
unfoldable pub sort_by_twu : TwuFilterResult → List Single → List Single
sort_by_twu r = sort_by (λ a b. lt_i64 (twu_of r (item_of a)) (twu_of r (item_of b)))

-- The same with ties broken by the item.
unfoldable pub sort_by_twu_item : TwuFilterResult → List Single → List Single
sort_by_twu_item r =
    sort_by (λ a b. key_before (twu_of r (item_of a), item_of a) (twu_of r (item_of b), item_of b))

-- The lists that the top-k algorithms go on with.
unfoldable pub drop_low : ℕ → List Single → List Single
drop_low initial_threshold = keep_if (λ s. not (lt_i64 (twu s.0) initial_threshold))
