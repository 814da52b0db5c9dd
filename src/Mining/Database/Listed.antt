-- ===== src/Mining/Database/Listed.antt =====
-- The lists of the second pass are those of the items that pass and occur.
use pocket_data_mining.Base.{
  ℕ, ◌≡◌, refl, sym, ◌∙◌, ap, Bool, true, false, Option, none, some, List, [], ◌∷◌, ltb, All,
  Bool-cases, inl, inr, ◌||◌, ◌==◌, ==→eq, arith, if◌then◌else◌,
}
use pocket_data_mining.Types.{ItemEntry, RawTransaction, UlEntry}
use pocket_data_mining.Base.Assoc.{lookup, remove, lookup-remove}
use pocket_data_mining.Base.Sort.{HasKey, sort_by-HasKey}
use pocket_data_mining.Preprocessing.TwuFilter.{FilteredTransaction, TwuFilterResult, passes}
use pocket_data_mining.Mining.Algorithms.Lists.{
  PerItem, keys, per_item_of, header_found, headers_of, item_header, item_of, item_uls,
}
use pocket_data_mining.Mining.Database.{
  item_utility, utility_of, add_some, is_found, occurs, kept_transactions, as_read, IsDatabase, Has,
}
use pocket_data_mining.Mining.Database.Bounds.{has_all, has_all-item}
use pocket_data_mining.Mining.Database.Itemsets.{occurs-length}
use pocket_data_mining.Mining.Database.Items.{IsSound, per_item_of-cases}
use pocket_data_mining.Mining.Database.Filtered.{apply-cases, sorted_items-passes}
use pocket_data_mining.Mining.Database.Agreement.{kept-IsDatabase, occurs-kept}
use pocket_data_mining.Mining.Database.Family.{IsDatabase-IsSound}

-- What holds of each key holds of the item of each header.
headers_of-All :
    (K : ℕ → Type 0) (items : List ℕ) (m : PerItem)
    → ((x : ℕ) (es : List UlEntry) → lookup x m ≡ some es → K x)
    → All (λ s. K (item_of s)) (headers_of items m)
unfolding headers_of item_header
headers_of-All K [] m h = tt
headers_of-All K (x ∷ items) m h = go (lookup x m) (h x) (
    headers_of-All K items (remove x m)
      (λ y es q. h y es (kept y es (x == y) (sym (lookup-remove x y m) ∙ q))))
  where
    kept :
        (y : ℕ) (es : List UlEntry) (b : Bool)
        → (if b then none else lookup y m) ≡ some es
        → lookup y m ≡ some es
    kept y es true q = absurd (cc q)
    kept y es false q = q

    go :
        (o : Option (List UlEntry))
        → ((es : List UlEntry) → o ≡ some es → K x)
        → All (λ s. K (item_of s)) (headers_of items (remove x m))
        → All (λ s. K (item_of s)) (header_found x o (headers_of items (remove x m)))
    go none k hs = hs
    go (some es) k hs = (k es refl, hs)

headers_of-HasKey :
    (x : ℕ) (es : List UlEntry) (items : List ℕ) (m : PerItem)
    → HasKey (λ y. y) x items
    → lookup x m ≡ some es
    → HasKey item_of x (headers_of items m)
unfolding headers_of item_header
headers_of-HasKey x es [] m h q = h
headers_of-HasKey x es (y ∷ items) m h q = elim (Bool-cases (y == x)) [
  | inl here ↦ rw (==→eq y x here, q) (inl refl)
  | inr there ↦
      go (lookup y m) (
        headers_of-HasKey x es items (remove y m) (later there h)
          (lookup-remove y x m ∙ rw there q))
]
  where
    later : (y == x) ≡ false → HasKey (λ z. z) x (y ∷ items) → HasKey (λ z. z) x items
    later c (inr k) = k
    later c (inl e) = absurd (ground (arith, c, e))

    go :
        (o : Option (List UlEntry))
        → HasKey item_of x (headers_of items (remove y m))
        → HasKey item_of x (header_found y o (headers_of items (remove y m)))
    go none k = k
    go (some fs) k = inr k

lookup-HasKey :
    (x : ℕ) (es : List UlEntry) (m : PerItem) → lookup x m ≡ some es → HasKey (λ y. y) x (keys m)
unfolding lookup
lookup-HasKey x es [] q = absurd (cc q)
lookup-HasKey x es ((k, v) ∷ m) q = elim (Bool-cases (k == x)) [
  | inl here ↦ inl (==→eq k x here)
  | inr there ↦ inr (lookup-HasKey x es m (rw there at q))
]

item_uls-HasKey :
    (x : ℕ) (es : List UlEntry) (m : PerItem) → lookup x m ≡ some es → HasKey item_of x (item_uls m)
unfolding item_uls
item_uls-HasKey x es m q =
    headers_of-HasKey x es _ m (sort_by-HasKey ltb (λ y. y) x (keys m) (lookup-HasKey x es m q)) q

-- Only items that pass occur in what the filter leaves.
item_utility-passes :
    (r : TwuFilterResult) (x : ℕ) (es : List ItemEntry)
    → All (λ e. passes r e.item ≡ true) es
    → is_found (item_utility x es) ≡ true
    → passes r x ≡ true
unfolding item_utility
item_utility-passes r x [] h q = absurd (cc q)
item_utility-passes r x (e ∷ es) (h, hs) q = elim (Bool-cases (e.item == x)) [
  | inl here ↦ ap (passes r) (sym (==→eq e.item x here)) ∙ h
  | inr there ↦ item_utility-passes r x es hs (rw there at q)
]

has_one-item :
    (x : ℕ) (es : List ItemEntry) → has_all (x ∷ []) es ≡ true → is_found (item_utility x es) ≡ true
has_one-item x es h = has_all-item x (x ∷ []) es (inl refl) h

item_has-one :
    (x : ℕ) (es : List ItemEntry) → is_found (item_utility x es) ≡ true → has_all (x ∷ []) es ≡ true
unfolding utility_of
item_has-one x es h = go (item_utility x es) h
  where
    go : (o : Option ℕ) → is_found o ≡ true → is_found (add_some o (some 0)) ≡ true
    go none q = absurd (cc q)
    go (some u) q = refl

occurs-passes :
    (r : TwuFilterResult) (x : ℕ) (fs : List FilteredTransaction)
    → All (λ f. All (λ e. passes r e.item ≡ true) f.items) fs
    → occurs (x ∷ []) fs ≡ true
    → passes r x ≡ true
unfolding occurs
occurs-passes r x [] h q = absurd (cc q)
occurs-passes r x (f ∷ fs) (h, hs) q = elim (Bool-cases (has_all (x ∷ []) f.items)) [
  | inl here ↦ item_utility-passes r x f.items h (has_one-item x f.items here)
  | inr there ↦ occurs-passes r x fs hs (rw there at q)
]

occurs_mono :
    (xs ys : List ℕ) (fs : List FilteredTransaction)
    → ((es : List ItemEntry) → has_all xs es ≡ true → has_all ys es ≡ true)
    → occurs xs fs ≡ true
    → occurs ys fs ≡ true
unfolding occurs
occurs_mono xs ys [] h q = q
occurs_mono xs ys (f ∷ fs) h q =
    go (has_all xs f.items) (has_all ys f.items) (h f.items) q (occurs_mono xs ys fs h)
  where
    go :
        (b c : Bool)
        → (b ≡ true → c ≡ true)
        → (b || occurs xs fs) ≡ true
        → (occurs xs fs ≡ true → occurs ys fs ≡ true)
        → (c || occurs ys fs) ≡ true
    go b true i e ih = refl
    go false false i e ih = ih e
    go true false i e ih = absurd (cc (i refl))

kept_transactions-passes :
    (r : TwuFilterResult) (txs : List RawTransaction)
    → All (λ f. All (λ e. passes r e.item ≡ true) f.items) (kept_transactions r txs)
unfolding kept_transactions
kept_transactions-passes r [] = tt
kept_transactions-passes r (tx ∷ txs) = elim (apply-cases r tx) [
  | inl (e, _) ↦ rw e (kept_transactions-passes r txs)
  | inr e ↦ rw e (sorted_items-passes r tx.items, kept_transactions-passes r txs)
]

module _ (r : TwuFilterResult) (txs : List RawTransaction) (d : IsDatabase (as_read txs)) where
  sound : All IsSound (kept_transactions r txs)
  sound = IsDatabase-IsSound (kept_transactions r txs) (kept-IsDatabase r txs d)

  -- All items of the lists pass.
  pub item_uls-passes : All (λ s. passes r (item_of s) ≡ true) (item_uls (per_item_of r txs []))
  unfolding item_uls
  item_uls-passes =
      headers_of-All (λ x. passes r x ≡ true) _ (per_item_of r txs [])
        (λ x es q.
          occurs-passes r x (kept_transactions r txs) (kept_transactions-passes r txs)
            (there x es q))
    where
      there :
          (x : ℕ) (es : List UlEntry)
          → lookup x (per_item_of r txs []) ≡ some es
          → occurs (x ∷ []) (kept_transactions r txs) ≡ true
      there x es q = elim (per_item_of-cases r txs x sound) [
        | inl (_, e) ↦ absurd (cc (e, q))
        | inr (e, _) ↦ sym (occurs-length (x ∷ []) (kept_transactions r txs)) ∙ e
      ]

  -- Each item that passes and occurs has a list.
  pub listed :
      (x : ℕ) (xs : List ℕ)
      → passes r x ≡ true
      → Has x xs
      → occurs xs (as_read txs) ≡ true
      → HasKey item_of x (item_uls (per_item_of r txs []))
  listed x xs p hx q = elim (per_item_of-cases r txs x sound) [
    | inl (none_there, e) ↦ absurd (
        cc (
          none_there,
          occurs-length (x ∷ []) (kept_transactions r txs),
          occurs-kept r x [] txs d.distinct (p, tt),
          occurs_mono xs (x ∷ []) (as_read txs)
              (λ es h. item_has-one x es (has_all-item x xs es hx h)) q,
        ))
    | inr (there, e) ↦ item_uls-HasKey x _ (per_item_of r txs []) e
  ]
