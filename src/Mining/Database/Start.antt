-- ===== src/Mining/Database/Start.antt =====
-- The lists that a run starts its search with, on a dataset that reads the same twice, and what the
-- search of them finds.
use pocket_data_mining.Base.{
  ℕ, ◌<◌, ◌^◌, ◌≡◌, ◌≢◌, refl, sym, ◌∙◌, ap, Bool, true, false, List, [], ◌∷◌, map, length, All,
  arith, ◌&&◌, inl, inr,
}
use mathlib.Core.Path.{subst}
use pocket_data_mining.Base.Sort.{Pairs, Pairs-map, HasKey, sort_by-All, sort_by-HasKey}
use pocket_data_mining.Types.{RawTransaction}
use pocket_data_mining.Preprocessing.TwuFilter.{
  FilteredTransaction, TwuFilterResult, compute, filter_new, passes,
}
use pocket_data_mining.Mining.MemoryGuard.{MemoryGuard}
use pocket_data_mining.Mining.Eucs.{eucs_new}
use pocket_data_mining.Mining.Search.{Single}
use pocket_data_mining.Mining.Search.Pruning.{IsFamily, every}
use pocket_data_mining.Mining.Algorithms.Lists.{
  per_item_of, item_of, item_uls, sort_by_twu, sort_by_twu_item,
}
use pocket_data_mining.Mining.Algorithms.Exact.{plain_lists}
use pocket_data_mining.Mining.Algorithms.Results.{nodes_of, fhm_lists}
use pocket_data_mining.Mining.Database.{
  is_high, occurs, itemsets, high_utility, kept_transactions, as_read, IsDatabase, Unique, Has,
  lists_after,
}
use pocket_data_mining.Mining.Database.Itemsets.{IsSkippable, skip_cuts, every-high_utility}
use pocket_data_mining.Mining.Database.Items.{per_item_of-Holds, per_item_with_pairs_lem}
use pocket_data_mining.Mining.Database.Headers.{IsListOf, item_uls-Rising, item_uls-IsListOf}
use pocket_data_mining.Mining.Database.Order.{
  IsBefore, IsBefore-self, sort_by_twu-IsBefore, sort_by_twu_item-IsBefore,
  kept_transactions-IsOrdered,
}
use pocket_data_mining.Mining.Database.Family.{
  IsDatabase-IsSound, lists-IsFamily, nodes_of_lists, All_items, Pairs-items,
}
use pocket_data_mining.Mining.Database.Agreement.{kept-IsDatabase, high_utility-as_read}
use pocket_data_mining.Mining.Database.Kept.{high-passes}
use pocket_data_mining.Mining.Database.Exactly.{IsExactly, high_utility-IsExactly}
use pocket_data_mining.Mining.Database.Listed.{item_uls-passes, listed}

-- What the first pass finds.
abbrev pub first_pass : ℕ → List RawTransaction → TwuFilterResult
first_pass min_utility txs = compute (filter_new min_utility) txs

abbrev pub kept_by : ℕ → List RawTransaction → List FilteredTransaction
kept_by min_utility txs = kept_transactions (first_pass min_utility txs) txs

-- Lists of items that pass, in the order of the items, with all that occur.
pub record IsStart (min_utility : ℕ) (txs : List RawTransaction) (l : List Single) : Type 0 where
  pub lists : All (IsListOf (kept_by min_utility txs)) l
  pub before : Pairs (λ a b. IsBefore (first_pass min_utility txs) (item_of a) (item_of b)) l
  pub pass : All (λ s. passes (first_pass min_utility txs) (item_of s) ≡ true) l
  pub within :
      (z : ℕ) (xs : List ℕ)
      → passes (first_pass min_utility txs) z ≡ true
      → Has z xs
      → occurs xs (as_read txs) ≡ true
      → HasKey item_of z l

length-lists_after :
    (fs : List FilteredTransaction) (items : List ℕ)
    → length (lists_after fs [] items) ≡ length items
length-lists_after fs [] = refl
length-lists_after fs (x ∷ items) = omega (arith, length-lists_after fs items)

module _ (min_utility : ℕ) (txs : List RawTransaction) (d : IsDatabase (as_read txs)) where
  plain : List Single
  plain = item_uls (per_item_of (first_pass min_utility txs) txs [])

  plain-IsListOf : All (IsListOf (kept_by min_utility txs)) plain
  unfolding plain
  plain-IsListOf =
      item_uls-IsListOf (kept_by min_utility txs) (per_item_of (first_pass min_utility txs) txs [])
        (per_item_of-Holds (first_pass min_utility txs) txs (
          IsDatabase-IsSound (kept_by min_utility txs)
            (kept-IsDatabase (first_pass min_utility txs) txs d)))

  pub plain_lists-IsStart : IsStart min_utility txs (plain_lists min_utility txs txs)
  unfolding plain sort_by_twu
  plain_lists-IsStart = record {
    lists = sort_by-All _ _ plain plain-IsListOf;
    before = sort_by_twu-IsBefore (first_pass min_utility txs) plain (item_uls-Rising _);
    pass = sort_by-All _ _ plain (item_uls-passes (first_pass min_utility txs) txs d);
    within = λ z xs p h q.
        sort_by-HasKey _ item_of z plain (listed (first_pass min_utility txs) txs d z xs p h q);
  }

  fhm_lists-plain :
      (guard : MemoryGuard)
      → fhm_lists min_utility txs txs guard ≡ sort_by_twu_item (first_pass min_utility txs) plain
  unfolding plain
  fhm_lists-plain guard =
      ap (λ m. sort_by_twu_item (first_pass min_utility txs) (item_uls m))
        (per_item_with_pairs_lem (first_pass min_utility txs) txs [] (eucs_new, guard))

  pub fhm_lists-IsStart :
      (guard : MemoryGuard) → IsStart min_utility txs (fhm_lists min_utility txs txs guard)
  unfolding plain sort_by_twu_item
  fhm_lists-IsStart guard = subst (IsStart min_utility txs) (sym (fhm_lists-plain guard)) (record {
    lists = sort_by-All _ _ plain plain-IsListOf;
    before = sort_by_twu_item-IsBefore (first_pass min_utility txs) plain (item_uls-Rising _);
    pass = sort_by-All _ _ plain (item_uls-passes (first_pass min_utility txs) txs d);
    within = λ z xs p h q.
        sort_by-HasKey _ item_of z plain (listed (first_pass min_utility txs) txs d z xs p h q);
  })

  module _ (l : List Single) (start : IsStart min_utility txs l) where
    pub start-IsFamily : IsFamily [] (nodes_of l)
    start-IsFamily =
        subst (IsFamily []) (sym (nodes_of_lists (kept_by min_utility txs) l start.lists)) (
          lists-IsFamily (first_pass min_utility txs) (kept_by min_utility txs)
            (kept-IsDatabase (first_pass min_utility txs) txs d)
            (kept_transactions-IsOrdered (first_pass min_utility txs) txs) (map item_of l)
            (Pairs-items (IsBefore (first_pass min_utility txs)) l start.before))

    pub start-Unique : Unique (map item_of l)
    start-Unique =
        Pairs-items (λ x y. x ≢ y) l
          (Pairs-map _ _ l
            (λ a b h q.
              IsBefore-self (first_pass min_utility txs) (item_of a)
                (subst (IsBefore (first_pass min_utility txs) (item_of a)) (sym q) h))
            start.before)

    pub start-found :
        (skip : ℕ → ℕ → ℕ → Bool)
        → ((x y : ℕ)
            → x ≢ y
            → skip x y min_utility ≡ true
            → IsSkippable min_utility (kept_by min_utility txs) x y)
        → every (skip_cuts skip) min_utility (length (nodes_of l)) [] (nodes_of l)
          ≡ high_utility min_utility (as_read txs) (itemsets [] (map item_of l))
    start-found skip sound =
        ap (λ ns. every (skip_cuts skip) min_utility (length ns) [] ns)
          (nodes_of_lists (kept_by min_utility txs) l start.lists)
        ∙ ap
            (λ n.
              every (skip_cuts skip) min_utility n []
                (lists_after (kept_by min_utility txs) [] (map item_of l)))
            (length-lists_after (kept_by min_utility txs) (map item_of l))
        ∙ every-high_utility (kept_by min_utility txs) min_utility (omega (arith, database.short))
            skip (map item_of l) database.ascending sound start-Unique
        ∙ high_utility-as_read (first_pass min_utility txs) min_utility txs (map item_of l) d
            (All_items (λ x. passes (first_pass min_utility txs) x ≡ true) l start.pass)
      where
        database : IsDatabase (kept_by min_utility txs)
        database = kept-IsDatabase (first_pass min_utility txs) txs d

    Has-items : (z : ℕ) (k : List Single) → HasKey item_of z k → Has z (map item_of k)
    Has-items z [] h = h
    Has-items z (a ∷ k) (inl e) = inl e
    Has-items z (a ∷ k) (inr h) = inr (Has-items z k h)

    occurs_high :
        (xs : List ℕ) → is_high min_utility (as_read txs) xs ≡ true → occurs xs (as_read txs) ≡ true
    occurs_high xs h = go (occurs xs (as_read txs)) _ h
      where
        go : (b c : Bool) → (b && c) ≡ true → b ≡ true
        go true c q = refl
        go false c q = q

    -- What the search finds is exactly the itemsets of high utility of what was read.
    pub start-IsExactly :
        min_utility < 2 ^ 63
        → IsExactly min_utility
            (as_read txs)
            (high_utility min_utility (as_read txs) (itemsets [] (map item_of l)))
    start-IsExactly hm =
        high_utility-IsExactly min_utility (as_read txs) (map item_of l) start-Unique
          (λ xs u high z h. Has-items z l (
            start.within z xs (high-passes min_utility z txs xs d hm u h high) h
              (occurs_high xs high)))
