-- ===== src/Mining/Database/Family.antt =====
-- The lists of the single items of a database nest, and all they hold is in range: what the search asks
-- of the lists that it starts with.
use pocket_data_mining.Base.{
  ℕ, ◌+◌, ◌≤◌, ◌<◌, ◌^◌, ◌≡◌, refl, ◌∙◌, ap, Option, none, some, List, [], ◌∷◌, map, All,
  Bool-cases, inl, inr, ◌==◌, arith,
}
use pocket_data_mining.Base.Sort.{Pairs}
use pocket_data_mining.Preprocessing.TwuFilter.{FilteredTransaction, TwuFilterResult}
use pocket_data_mining.Mining.UlJoin.Bytes.{EntryFits}
use pocket_data_mining.Mining.UlJoin.Join.{find}
use pocket_data_mining.Mining.Search.{Single}
use pocket_data_mining.Mining.Search.Nodes.{IsStorable}
use pocket_data_mining.Mining.Search.Chain.{NestedAt, IsChained, Chain, total}
use pocket_data_mining.Mining.Search.Pruning.{IsFamily}
use pocket_data_mining.Mining.Algorithms.Lists.{item_of}
use pocket_data_mining.Mining.Algorithms.Results.{nodes_of}
use pocket_data_mining.Mining.Database.{
  item_utility, rest_utility, remaining, entry_for, entry_in, entries, cons_some, grand_total,
  IsDatabase, list_of, lists_after, total_tu, DistinctItems,
}
use pocket_data_mining.Mining.Database.Entries.{find_tx, entry_at, entries-Ascending, find-entries}
use pocket_data_mining.Mining.Database.Itemsets.{length-entries-le}
use pocket_data_mining.Mining.Database.Items.{IsSound, item_utility-le, utility_of_item}
use pocket_data_mining.Mining.Database.Headers.{IsListOf}
use pocket_data_mining.Mining.Database.Order.{IsBefore, IsOrdered, remaining-IsBefore}

find_tx_all :
    (K : Option FilteredTransaction → Type 0) (tid : ℕ) (fs : List FilteredTransaction)
    → K none
    → All (λ f. K (some f)) fs
    → K (find_tx tid fs)
unfolding find_tx
find_tx_all K tid [] n h = n
find_tx_all K tid (f ∷ fs) n (h, hs) = elim (Bool-cases (f.tid == tid)) [
  | inl here ↦ rw here h
  | inr there ↦ rw there (find_tx_all K tid fs n hs)
]

-- Two items of one transaction nest.
NestedAt-items :
    (r : TwuFilterResult) (x y : ℕ) (f : FilteredTransaction)
    → rest_utility f.items < 2 ^ 63
    → IsOrdered r f
    → IsBefore r x y
    → NestedAt 0 (entry_in (x ∷ []) f) (entry_in (y ∷ []) f)
NestedAt-items r x y f small ordered b =
    rw (utility_of_item x f.items small, utility_of_item y f.items small)
      (go (item_utility x f.items) (item_utility y f.items) (item_utility-le x f.items)
        (λ u v. remaining-IsBefore r x y f.items u v ordered b))
  where
    go :
        (o p : Option ℕ)
        → ((u : ℕ) → o ≡ some u → u + remaining x f.items ≤ rest_utility f.items)
        → ((u v : ℕ) → o ≡ some u → p ≡ some v → v + remaining y f.items ≤ remaining x f.items)
        → NestedAt 0 (entry_for f x o) (entry_for f y p)
    go none p h k = tt
    go (some u) none h k = tt
    go (some u) (some v) h k =
        (omega arith, omega arith, omega (arith, k u v refl refl), omega (arith, h u refl, small))

All-small :
    (fs : List FilteredTransaction)
    → grand_total fs < 2 ^ 63
    → All (λ f. rest_utility f.items < 2 ^ 63) fs
unfolding grand_total
All-small [] h = tt
All-small (f ∷ fs) h = (omega arith, All-small fs (omega arith))

both-IsSound :
    (fs : List FilteredTransaction)
    → All (λ f. DistinctItems f.items) fs
    → All (λ f. rest_utility f.items < 2 ^ 63) fs
    → All IsSound fs
both-IsSound [] h k = tt
both-IsSound (f ∷ fs) (h, hs) (k, ks) = ((h, k), both-IsSound fs hs ks)

grand_total-le :
    (fs : List FilteredTransaction)
    → All (λ f. rest_utility f.items ≤ f.transaction_utility) fs
    → grand_total fs ≤ total_tu fs
unfolding grand_total total_tu
grand_total-le [] h = omega arith
grand_total-le (f ∷ fs) (h, hs) = omega (arith, grand_total-le fs hs)

grand_small : (fs : List FilteredTransaction) → IsDatabase fs → grand_total fs < 2 ^ 63
grand_small fs d = omega (arith, grand_total-le fs d.covered, d.small)

pub IsDatabase-IsSound : (fs : List FilteredTransaction) → IsDatabase fs → All IsSound fs
IsDatabase-IsSound fs d = both-IsSound fs d.distinct (All-small fs (grand_small fs d))

All-NestedAt :
    (r : TwuFilterResult) (x y : ℕ) (fs : List FilteredTransaction)
    → All (λ f. rest_utility f.items < 2 ^ 63) fs
    → All (IsOrdered r) fs
    → IsBefore r x y
    → All (λ f. NestedAt 0 (entry_in (x ∷ []) f) (entry_in (y ∷ []) f)) fs
All-NestedAt r x y [] h k b = tt
All-NestedAt r x y (f ∷ fs) (h, hs) (k, ks) b =
    (NestedAt-items r x y f h k b, All-NestedAt r x y fs hs ks b)

-- What the list of one item holds is part of all utilities.
total-entries-le :
    (x : ℕ) (fs : List FilteredTransaction)
    → All (λ f. rest_utility f.items < 2 ^ 63) fs
    → total (entries (x ∷ []) fs) ≤ grand_total fs
unfolding total entries grand_total
total-entries-le x [] h = omega arith
total-entries-le x (f ∷ fs) (h, hs) =
    rw (utility_of_item x f.items h)
      (go (item_utility x f.items) (item_utility-le x f.items) (total-entries-le x fs hs))
  where
    go :
        (o : Option ℕ)
        → ((u : ℕ) → o ≡ some u → u + remaining x f.items ≤ rest_utility f.items)
        → total (entries (x ∷ []) fs) ≤ grand_total fs
        → total (cons_some (entry_for f x o) (entries (x ∷ []) fs))
          ≤ rest_utility f.items + grand_total fs
    go none k ih = omega arith
    go (some u) k ih = omega (arith, k u refl, ih)

entries-EntryFits :
    (x : ℕ) (fs : List FilteredTransaction)
    → All (λ f. rest_utility f.items < 2 ^ 63) fs
    → All (λ f. f.tid < 2 ^ 32) fs
    → All EntryFits (entries (x ∷ []) fs)
unfolding entries
entries-EntryFits x [] h t = tt
entries-EntryFits x (f ∷ fs) (h, hs) (t, ts) =
    rw (utility_of_item x f.items h)
      (go (item_utility x f.items) (item_utility-le x f.items) (entries-EntryFits x fs hs ts))
  where
    go :
        (o : Option ℕ)
        → ((u : ℕ) → o ≡ some u → u + remaining x f.items ≤ rest_utility f.items)
        → All EntryFits (entries (x ∷ []) fs)
        → All EntryFits (cons_some (entry_for f x o) (entries (x ∷ []) fs))
    go none k ih = ih
    go (some u) k ih = (
      record {
        tid_fits = t;
        iutils_fits = omega (arith, k u refl, h);
        rutils_fits = omega (arith, k u refl, h);
      },
      ih,
    )

module _ (r : TwuFilterResult) (fs : List FilteredTransaction) (d : IsDatabase fs)
    (ordered : All (IsOrdered r) fs) where
  items-IsChained :
      (x y : ℕ) → IsBefore r x y → IsChained [] (entries (x ∷ []) fs) (entries (y ∷ []) fs)
  unfolding find
  items-IsChained x y b = record {
    nested = λ tid.
        rw (find-entries tid (x ∷ []) fs d.ascending, find-entries tid (y ∷ []) fs d.ascending)
          (find_tx_all (λ o. NestedAt 0 (entry_at (x ∷ []) o) (entry_at (y ∷ []) o)) tid fs tt
            (All-NestedAt r x y fs (All-small fs (grand_small fs d)) ordered b));
  }

  item-IsStorable : (x : ℕ) → IsStorable (entries (x ∷ []) fs)
  item-IsStorable x = record {
    ascending = entries-Ascending (x ∷ []) fs d.ascending;
    fits = entries-EntryFits x fs (All-small fs (grand_small fs d)) d.tids;
    short = omega (arith, length-entries-le (x ∷ []) fs, d.short);
  }

  IsChained-after :
      (x : ℕ) (items : List ℕ)
      → All (IsBefore r x) items
      → All (λ n. IsChained [] (entries (x ∷ []) fs) n.1) (lists_after fs [] items)
  IsChained-after x [] h = tt
  IsChained-after x (y ∷ items) (h, hs) = (items-IsChained x y h, IsChained-after x items hs)

  lists-Chain : (items : List ℕ) → Pairs (IsBefore r) items → Chain [] (lists_after fs [] items)
  lists-Chain [] h = tt
  lists-Chain (x ∷ items) (h, hs) = (IsChained-after x items h, lists-Chain items hs)

  lists-IsStorable : (items : List ℕ) → All (λ n. IsStorable n.1) (lists_after fs [] items)
  lists-IsStorable [] = tt
  lists-IsStorable (x ∷ items) = (item-IsStorable x, lists-IsStorable items)

  lists_small : (items : List ℕ) → All (λ n. total n.1 < 2 ^ 63) (lists_after fs [] items)
  lists_small [] = tt
  lists_small (x ∷ items) = (
    omega (arith, total-entries-le x fs (All-small fs (grand_small fs d)), grand_small fs d),
    lists_small items,
  )

  -- The lists of items in order are lists that the search can start with.
  pub lists-IsFamily :
      (items : List ℕ) → Pairs (IsBefore r) items → IsFamily [] (lists_after fs [] items)
  lists-IsFamily items h = record {
    prefix_ascending = tt;
    storable = lists-IsStorable items;
    chain = lists-Chain items h;
    small = lists_small items;
  }

-- The lists that a run builds are those of its items.
pub nodes_of_lists :
    (fs : List FilteredTransaction) (l : List Single)
    → All (IsListOf fs) l
    → nodes_of l ≡ lists_after fs [] (map item_of l)
nodes_of_lists fs [] h = refl
nodes_of_lists fs (s ∷ l) (h, hs) =
    ap (λ n. n ∷ nodes_of l) h
    ∙ ap (λ ns. list_of fs (item_of s ∷ []) ∷ ns) (nodes_of_lists fs l hs)

pub All_items :
    (K : ℕ → Type 0) (l : List Single) → All (λ s. K (item_of s)) l → All K (map item_of l)
All_items K [] h = tt
All_items K (s ∷ l) (h, hs) = (h, All_items K l hs)

pub Pairs-items :
    (R : ℕ → ℕ → Type 0) (l : List Single)
    → Pairs (λ a b. R (item_of a) (item_of b)) l
    → Pairs R (map item_of l)
Pairs-items R [] h = tt
Pairs-items R (s ∷ l) (h, hs) = (All_items (R (item_of s)) l h, Pairs-items R l hs)
