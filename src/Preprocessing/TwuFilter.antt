-- ===== src/Preprocessing/TwuFilter.antt =====
-- preprocessing/twu_filter.rs: the transaction-weighted utility of each item, the items that reach
-- the minimum, and transactions cut down to these items and ordered by it.
pub mod Compute
pub mod Order
use pocket_data_mining.Base.{
  ℕ, Bool, true, false, not, ◌&&◌, ◌||◌, Option, none, some, List, [], ◌∷◌, ltb, ◌==◌, keep_if,
  if◌then◌else◌,
}
use pocket_data_mining.Base.Assoc.{Assoc, lookup, insert}
use pocket_data_mining.Base.Sort.{sort_by}
use pocket_data_mining.Base.Words.{add_i64, lt_i64}
use pocket_data_mining.Types.{ItemEntry, RawTransaction}

pub record FilteredTransaction : Type 0 where
  pub tid : ℕ
  pub transaction_utility : ℕ
  pub items : List ItemEntry

pub record TwuFilterResult : Type 0 where
  pub twu : Assoc ℕ
  pub ordered_items : List (ℕ × ℕ)
  pub min_utility : ℕ

pub record TwuFilter : Type 0 where
  pub min_utility : ℕ

abbrev pub filter_new : ℕ → TwuFilter
filter_new min_utility = record { min_utility = min_utility }

-- `copied().unwrap_or(0)`, and the old value under `or_insert(0)`.
abbrev pub or_zero : Option ℕ → ℕ
or_zero none = 0
or_zero (some t) = t

abbrev pub is_some : Option ℕ → Bool
is_some none = false
is_some (some _) = true

-- The order of the keys (twu, item).
abbrev pub key_before : ℕ × ℕ → ℕ × ℕ → Bool
key_before (t, x) (u, y) = lt_i64 t u || (not (lt_i64 u t) && ltb x y)

unfoldable pub passes : TwuFilterResult → ℕ → Bool
passes r item = is_some (lookup item r.twu)

abbrev pub twu_of : TwuFilterResult → ℕ → ℕ
twu_of r item = or_zero (lookup item r.twu)

abbrev pub kept_before : TwuFilterResult → ItemEntry → ItemEntry → Bool
kept_before r a b = key_before (twu_of r a.item, a.item) (twu_of r b.item, b.item)

abbrev pub filtered_of : RawTransaction → List ItemEntry → FilteredTransaction
filtered_of tx items = record {
  tid = tx.tid;
  transaction_utility = tx.transaction_utility;
  items = items;
}

abbrev pub unless_empty :
    TwuFilterResult → RawTransaction → List ItemEntry → Option FilteredTransaction
unless_empty r tx [] = none
unless_empty r tx (e ∷ es) = some (filtered_of tx (sort_by (kept_before r) (e ∷ es)))

unfoldable pub apply : TwuFilterResult → RawTransaction → Option FilteredTransaction
unfolding passes
apply r tx = unless_empty r tx (keep_if (λ e. passes r e.item) tx.items)

-- `*twu.entry(item).or_insert(0) += tu`
unfoldable pub add_twu : ℕ → ℕ → Assoc ℕ → Assoc ℕ
add_twu item tu m = insert item (add_i64 (or_zero (lookup item m)) tu) m

-- The loop over the items of a transaction.
unfoldable pub add_items : ℕ → List ItemEntry → Assoc ℕ → Assoc ℕ
unfolding add_twu
add_items tu [] m = m
add_items tu (e ∷ es) m = add_items tu es (add_twu e.item tu m)

-- The loop over the transactions.
unfoldable pub add_all : List RawTransaction → Assoc ℕ → Assoc ℕ
unfolding add_items
add_all [] m = m
add_all (tx ∷ txs) m = add_all txs (add_items tx.transaction_utility tx.items m)

abbrev pub reaches : ℕ → ℕ × ℕ → Bool
reaches min_utility e = not (lt_i64 e.1 min_utility)

-- `retain(|_, v| *v >= self.min_utility)`
unfoldable pub retain : ℕ → Assoc ℕ → Assoc ℕ
retain min_utility m = keep_if (reaches min_utility) m

abbrev pub ordered : Assoc ℕ → List (ℕ × ℕ)
ordered m = sort_by (λ a b. key_before (a.1, a.0) (b.1, b.0)) m

unfoldable pub compute : TwuFilter → List RawTransaction → TwuFilterResult
unfolding add_all retain
compute f txs =
    let twu = retain f.min_utility (add_all txs []) in
    record { twu = twu; ordered_items = ordered twu; min_utility = f.min_utility }
