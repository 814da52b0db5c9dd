-- ===== src/Mining/Database/Agreement.antt =====
-- The transactions that the filter leaves are a database when those that it reads are, and itemsets of
-- items that pass have the same utility in both.
use pocket_data_mining.Base.{
  ℕ, ◌≤◌, ◌<◌, ◌^◌, ◌≡◌, refl, sym, ◌∙◌, ap, true, none, List, [], ◌∷◌, ◌++◌, length, All, inl, inr,
  ◌||◌, arith,
}
use pocket_data_mining.Types.{ItemEntry, RawTransaction}
use pocket_data_mining.Preprocessing.TwuFilter.{
  FilteredTransaction, TwuFilterResult, passes, filtered_of,
}
use pocket_data_mining.Mining.Database.{
  item_utility, rest_utility, add_some, utility_of, add_found, utility_from, is_found, occurs,
  itemsets, high_utility, DistinctItems, AscendingTids, total_tu, kept_transactions, as_read,
  IsDatabase,
}
use pocket_data_mining.Mining.Database.Filtered.{
  kept_items, sorted_items, apply-cases, item_utility-kept_items, item_utility-sorted_items,
  sorted_items-DistinctItems, rest_utility-sorted_items-le,
}

-- What filtering keeps of a list of transactions.
pub kept-All :
    (r : TwuFilterResult) (K : FilteredTransaction → Type 0) (txs : List RawTransaction)
    → ((tx : RawTransaction)
        → K (filtered_of tx tx.items)
        → K (filtered_of tx (sorted_items r tx.items)))
    → All K (as_read txs)
    → All K (kept_transactions r txs)
unfolding kept_transactions
kept-All r K [] f h = tt
kept-All r K (tx ∷ txs) f (h, hs) = elim (apply-cases r tx) [
  | inl (e, _) ↦ rw e (kept-All r K txs f hs)
  | inr e ↦ rw e (f tx h, kept-All r K txs f hs)
]

kept-AscendingTids :
    (r : TwuFilterResult) (txs : List RawTransaction)
    → AscendingTids (as_read txs)
    → AscendingTids (kept_transactions r txs)
unfolding kept_transactions
kept-AscendingTids r [] h = tt
kept-AscendingTids r (tx ∷ txs) (h, hs) = elim (apply-cases r tx) [
  | inl (e, _) ↦ rw e (kept-AscendingTids r txs hs)
  | inr e ↦ rw e (kept-All r (λ g. tx.tid < g.tid) txs (λ t k. k) h, kept-AscendingTids r txs hs)
]

total_tu-kept-le :
    (r : TwuFilterResult) (txs : List RawTransaction)
    → total_tu (kept_transactions r txs) ≤ total_tu (as_read txs)
unfolding kept_transactions total_tu
total_tu-kept-le r [] = omega arith
total_tu-kept-le r (tx ∷ txs) = elim (apply-cases r tx) [
  | inl (e, _) ↦ rw e (omega (arith, total_tu-kept-le r txs))
  | inr e ↦ rw e (omega (arith, total_tu-kept-le r txs))
]

length-kept-le :
    (r : TwuFilterResult) (txs : List RawTransaction)
    → length (kept_transactions r txs) ≤ length (as_read txs)
unfolding kept_transactions
length-kept-le r [] = omega arith
length-kept-le r (tx ∷ txs) = elim (apply-cases r tx) [
  | inl (e, _) ↦ rw e (omega (arith, length-kept-le r txs))
  | inr e ↦ rw e (omega (arith, length-kept-le r txs))
]

pub kept-IsDatabase :
    (r : TwuFilterResult) (txs : List RawTransaction)
    → IsDatabase (as_read txs)
    → IsDatabase (kept_transactions r txs)
kept-IsDatabase r txs d = record {
  ascending = kept-AscendingTids r txs d.ascending;
  tids = kept-All r (λ f. f.tid < 2 ^ 32) txs (λ tx h. h) d.tids;
  distinct =
      kept-All r (λ f. DistinctItems f.items) txs (λ tx h. sorted_items-DistinctItems r tx.items h)
        d.distinct;
  covered =
      kept-All r (λ f. rest_utility f.items ≤ f.transaction_utility) txs
        (λ tx h. omega (arith, rest_utility-sorted_items-le r tx.items, h)) d.covered;
  small = omega (arith, total_tu-kept-le r txs, d.small);
  short = omega (arith, length-kept-le r txs, d.short);
}

abbrev pub AllPass : TwuFilterResult → List ℕ → Type 0
AllPass r = All (λ x. passes r x ≡ true)

module _ (r : TwuFilterResult) where
  utility_of-sorted_items :
      (xs : List ℕ) (es : List ItemEntry)
      → DistinctItems es
      → AllPass r xs
      → utility_of xs (sorted_items r es) ≡ utility_of xs es
  unfolding utility_of
  utility_of-sorted_items [] es d h = refl
  utility_of-sorted_items (x ∷ xs) es d (h, hs) =
      rw (item_utility-sorted_items r x es d h, utility_of-sorted_items xs es d hs) refl

  -- A transaction of which nothing is kept has none of the items that pass.
  utility_of_dropped :
      (x : ℕ) (xs : List ℕ) (es : List ItemEntry)
      → DistinctItems es
      → passes r x ≡ true
      → kept_items r es ≡ []
      → utility_of (x ∷ xs) es ≡ none
  unfolding utility_of item_utility
  utility_of_dropped x xs es d h e =
      ap (λ o. add_some o (utility_of xs es))
        (sym (item_utility-kept_items r x es h) ∙ ap (item_utility x) e)

  utility_from-kept :
      (acc x : ℕ) (xs : List ℕ) (txs : List RawTransaction)
      → All (λ f. DistinctItems f.items) (as_read txs)
      → AllPass r (x ∷ xs)
      → utility_from acc (x ∷ xs) (kept_transactions r txs)
        ≡ utility_from acc (x ∷ xs) (as_read txs)
  unfolding utility_from kept_transactions
  utility_from-kept acc x xs [] d h = refl
  utility_from-kept acc x xs (tx ∷ txs) (d, ds) h = elim (apply-cases r tx) [
    | inl (e, empty) ↦ rw e (
        utility_from-kept acc x xs txs ds h
        ∙ ap (λ o. utility_from (add_found acc o) (x ∷ xs) (as_read txs))
            (sym (utility_of_dropped x xs tx.items d h.0 empty)))
    | inr e ↦ rw e (
        ap (λ o. utility_from (add_found acc o) (x ∷ xs) (kept_transactions r txs))
          (utility_of-sorted_items (x ∷ xs) tx.items d h)
        ∙ utility_from-kept (add_found acc (utility_of (x ∷ xs) tx.items)) x xs txs ds h)
  ]

  pub occurs-kept :
      (x : ℕ) (xs : List ℕ) (txs : List RawTransaction)
      → All (λ f. DistinctItems f.items) (as_read txs)
      → AllPass r (x ∷ xs)
      → occurs (x ∷ xs) (kept_transactions r txs) ≡ occurs (x ∷ xs) (as_read txs)
  unfolding occurs kept_transactions
  occurs-kept x xs [] d h = refl
  occurs-kept x xs (tx ∷ txs) (d, ds) h = elim (apply-cases r tx) [
    | inl (e, empty) ↦
        rw (e, utility_of_dropped x xs tx.items d h.0 empty) (occurs-kept x xs txs ds h)
    | inr e ↦
        rw (e, utility_of-sorted_items (x ∷ xs) tx.items d h)
          (ap (λ b. is_found (utility_of (x ∷ xs) tx.items) || b) (occurs-kept x xs txs ds h))
  ]

  -- Not empty, and of items that pass.
  abbrev Passing : List ℕ → Type 0
  Passing [] = ⊥
  Passing (x ∷ xs) = AllPass r (x ∷ xs)

  high_utility-kept :
      (min_utility : ℕ) (txs : List RawTransaction) (xss : List (List ℕ))
      → All (λ f. DistinctItems f.items) (as_read txs)
      → All Passing xss
      → high_utility min_utility (kept_transactions r txs) xss
        ≡ high_utility min_utility (as_read txs) xss
  unfolding high_utility
  high_utility-kept min_utility txs [] d h = refl
  high_utility-kept min_utility txs ([] ∷ xss) d (h, hs) = elim h [ ]
  high_utility-kept min_utility txs ((x ∷ xs) ∷ xss) d (h, hs) =
      rw
        (
          occurs-kept x xs txs d h,
          utility_from-kept 0 x xs txs d h,
          high_utility-kept min_utility txs xss d hs,
        )
        refl

  All-append :
      (xss yss : List (List ℕ)) → All Passing xss → All Passing yss → All Passing (xss ++ yss)
  All-append [] yss h k = k
  All-append (xs ∷ xss) yss (h, hs) k = (h, All-append xss yss hs k)

  snoc-AllPass : (xs : List ℕ) (x : ℕ) → AllPass r xs → passes r x ≡ true → AllPass r (xs ++ x ∷ [])
  snoc-AllPass [] x h k = (k, tt)
  snoc-AllPass (y ∷ xs) x (h, hs) k = (h, snoc-AllPass xs x hs k)

  snoc-Passing : (xs : List ℕ) (x : ℕ) → AllPass r (xs ++ x ∷ []) → Passing (xs ++ x ∷ [])
  snoc-Passing [] x h = h
  snoc-Passing (y ∷ xs) x h = h

  itemsets-Passing :
      (prefix items : List ℕ)
      → AllPass r prefix
      → AllPass r items
      → All Passing (itemsets prefix items)
  unfolding itemsets
  itemsets-Passing prefix [] h k = tt
  itemsets-Passing prefix (x ∷ items) h (k, ks) = (
    snoc-Passing prefix x (snoc-AllPass prefix x h k),
    All-append (itemsets (prefix ++ x ∷ []) items) (itemsets prefix items)
        (itemsets-Passing (prefix ++ x ∷ []) items (snoc-AllPass prefix x h k) ks)
        (itemsets-Passing prefix items h ks),
  )

  -- Itemsets of items that pass are of high utility in what is left when they are in what was read.
  pub high_utility-as_read :
      (min_utility : ℕ) (txs : List RawTransaction) (items : List ℕ)
      → IsDatabase (as_read txs)
      → AllPass r items
      → high_utility min_utility (kept_transactions r txs) (itemsets [] items)
        ≡ high_utility min_utility (as_read txs) (itemsets [] items)
  high_utility-as_read min_utility txs items d h =
      high_utility-kept min_utility txs (itemsets [] items) d.distinct
        (itemsets-Passing [] items tt h)
