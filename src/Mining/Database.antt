-- ===== src/Mining/Database.antt =====
-- What the transactions themselves say of an itemset, with no utility lists: the description that the
-- algorithms of mining/algorithms are measured by. Utilities are i64 values, as everywhere.
pub mod Entries
pub mod Unique
pub mod Itemsets
pub mod Items
pub mod Headers
pub mod Order
pub mod Family
pub mod Bounds
pub mod Granted
pub mod Cooccurrence
pub mod Filtered
pub mod Agreement
pub mod Kept
pub mod Listed
pub mod Start
pub mod Mined
pub mod Pooled
pub mod SameItems
pub mod Subsets
pub mod Once
pub mod Exactly
use pocket_data_mining.Base.{
  ℕ, ◌+◌, ◌*◌, ◌≤◌, ◌<◌, ◌^◌, ◌≢◌, Bool, true, false, Option, none, some, List, [], ◌∷◌, ◌++◌,
  length, All, ◌==◌, if◌then◌else◌, ◌≡◌, ◌⊎◌, not, ◌&&◌, ◌||◌,
}
use pocket_data_mining.Base.Sort.{Pairs}
use pocket_data_mining.Base.Words.{add_i64, lt_i64}
use pocket_data_mining.Types.{ItemEntry, RawTransaction, UlEntry}
use pocket_data_mining.Preprocessing.TwuFilter.{
  FilteredTransaction, TwuFilterResult, apply, filtered_of,
}
use pocket_data_mining.Mining.Search.{last_item}
use pocket_data_mining.Mining.Search.Nodes.{Node}

-- The utility of an item in a transaction that has it.
unfoldable pub item_utility : ℕ → List ItemEntry → Option ℕ
item_utility x [] = none
item_utility x (e ∷ es) = if e.item == x then some e.utility else item_utility x es

unfoldable pub rest_utility : List ItemEntry → ℕ
rest_utility [] = 0
rest_utility (e ∷ es) = e.utility + rest_utility es

-- The utility of what stands after an item.
unfoldable pub remaining : ℕ → List ItemEntry → ℕ
remaining x [] = 0
remaining x (e ∷ es) = if e.item == x then rest_utility es else remaining x es

abbrev pub add_some : Option ℕ → Option ℕ → Option ℕ
add_some (some a) (some b) = some (add_i64 a b)
add_some _ _ = none

-- The utility of an itemset in a transaction that has all of it.
unfoldable pub utility_of : List ℕ → List ItemEntry → Option ℕ
unfolding item_utility
utility_of [] es = some 0
utility_of (x ∷ xs) es = add_some (item_utility x es) (utility_of xs es)

abbrev pub entry_for : FilteredTransaction → ℕ → Option ℕ → Option UlEntry
entry_for f x none = none
entry_for f x (some u) = some (record { tid = f.tid; iutils = u; rutils = remaining x f.items })

abbrev pub entry_in : List ℕ → FilteredTransaction → Option UlEntry
entry_in xs f = entry_for f (last_item xs) (utility_of xs f.items)

abbrev pub cons_some : Option UlEntry → List UlEntry → List UlEntry
cons_some none es = es
cons_some (some e) es = e ∷ es

-- The utility list of an itemset.
unfoldable pub entries : List ℕ → List FilteredTransaction → List UlEntry
entries xs [] = []
entries xs (f ∷ fs) = cons_some (entry_in xs f) (entries xs fs)

abbrev pub add_found : ℕ → Option ℕ → ℕ
add_found acc none = acc
add_found acc (some u) = add_i64 acc u

-- The utility of an itemset in the database.
unfoldable pub utility_from : ℕ → List ℕ → List FilteredTransaction → ℕ
utility_from acc xs [] = acc
utility_from acc xs (f ∷ fs) = utility_from (add_found acc (utility_of xs f.items)) xs fs

abbrev pub utility : List ℕ → List FilteredTransaction → ℕ
utility = utility_from 0

abbrev pub is_found : Option ℕ → Bool
is_found none = false
is_found (some _) = true

-- Some transaction has all of it.
unfoldable pub occurs : List ℕ → List FilteredTransaction → Bool
occurs xs [] = false
occurs xs (f ∷ fs) = is_found (utility_of xs f.items) || occurs xs fs

abbrev pub is_high : ℕ → List FilteredTransaction → List ℕ → Bool
is_high min_utility fs xs = occurs xs fs && not (lt_i64 (utility xs fs) min_utility)

-- All itemsets of one item or more over a list of items, after a prefix.
unfoldable pub itemsets : List ℕ → List ℕ → List (List ℕ)
itemsets prefix [] = []
itemsets prefix (x ∷ xs) =
    (prefix ++ x ∷ []) ∷ (itemsets (prefix ++ x ∷ []) xs ++ itemsets prefix xs)

-- Those of high utility, each with its utility.
unfoldable pub high_utility : ℕ → List FilteredTransaction → List (List ℕ) → List (List ℕ × ℕ)
high_utility min_utility fs [] = []
high_utility min_utility fs (xs ∷ xss) =
    let rest = high_utility min_utility fs xss in
    if is_high min_utility fs xs then (xs, utility xs fs) ∷ rest else rest

-- Transaction ids rise.
abbrev pub AscendingTids : List FilteredTransaction → Type 0
AscendingTids [] = Unit
AscendingTids (f ∷ fs) = All (λ g. f.tid < g.tid) fs × AscendingTids fs

-- No item stands twice.
abbrev pub DistinctItems : List ItemEntry → Type 0
DistinctItems [] = Unit
DistinctItems (e ∷ es) = All (λ d. e.item ≢ d.item) es × DistinctItems es

-- The utility of everything.
unfoldable pub grand_total : List FilteredTransaction → ℕ
grand_total [] = 0
grand_total (f ∷ fs) = rest_utility f.items + grand_total fs

-- The sum of the utilities that the transactions carry.
unfoldable pub total_tu : List FilteredTransaction → ℕ
total_tu [] = 0
total_tu (f ∷ fs) = f.transaction_utility + total_tu fs

abbrev pub cons_kept :
    Option FilteredTransaction → List FilteredTransaction → List FilteredTransaction
cons_kept none fs = fs
cons_kept (some f) fs = f ∷ fs

-- The transactions as the filter leaves them.
unfoldable pub kept_transactions : TwuFilterResult → List RawTransaction → List FilteredTransaction
kept_transactions r [] = []
kept_transactions r (tx ∷ txs) = cons_kept (apply r tx) (kept_transactions r txs)

-- The transactions as they are read.
abbrev pub as_read : List RawTransaction → List FilteredTransaction
as_read [] = []
as_read (tx ∷ txs) = filtered_of tx tx.items ∷ as_read txs

-- No item stands twice in an itemset.
abbrev pub Unique : List ℕ → Type 0
Unique = Pairs (λ x y. x ≢ y)

abbrev pub Has : ℕ → List ℕ → Type 0
Has x [] = ⊥
Has x (y ∷ ys) = (y ≡ x) ⊎ Has x ys

-- An itemset with its utility list.
abbrev pub list_of : List FilteredTransaction → List ℕ → Node
list_of fs xs = (xs, entries xs fs)

-- One for each way to extend a prefix by one item.
abbrev pub lists_after : List FilteredTransaction → List ℕ → List ℕ → List Node
lists_after fs prefix [] = []
lists_after fs prefix (x ∷ items) = list_of fs (prefix ++ x ∷ []) ∷ lists_after fs prefix items

-- What the program takes for granted of the transactions that it mines.
pub record IsDatabase (fs : List FilteredTransaction) : Type 0 where
  pub ascending : AscendingTids fs
  pub tids : All (λ f. f.tid < 2 ^ 32) fs
  pub distinct : All (λ f. DistinctItems f.items) fs
  -- A transaction's utility is no less than that of its items.
  pub covered : All (λ f. rest_utility f.items ≤ f.transaction_utility) fs
  pub small : total_tu fs < 2 ^ 63
  pub short : 20 * length fs < 2 ^ 32
