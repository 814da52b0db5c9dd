-- ===== src/Mining/Database/Once.antt =====
-- No set stands twice among the itemsets over a list of items.
use pocket_data_mining.Base.{ℕ, ◌≢◌, refl, sym, List, [], ◌∷◌, ◌++◌, All, inl, inr}
use pocket_data_mining.Base.Sort.{Pairs}
use pocket_data_mining.Mining.Database.{itemsets, Unique, Has}
use pocket_data_mining.Mining.Database.Unique.{
  Has-snoc, Has-last, Unique-assoc, Unique-without, Unique-cross,
}
use pocket_data_mining.Mining.Database.SameItems.{Differ}
use pocket_data_mining.Mining.Database.Subsets.{All-append}

All-map :
    (K L : List ℕ → Type 0) (yss : List (List ℕ))
    → ((ys : List ℕ) → K ys → L ys)
    → All K yss
    → All L yss
All-map K L [] f h = tt
All-map K L (ys ∷ yss) f (h, hs) = (f ys h, All-map K L yss f hs)

-- Each has the whole prefix.
prefix-Has : (z : ℕ) (prefix items : List ℕ) → Has z prefix → All (Has z) (itemsets prefix items)
unfolding itemsets
prefix-Has z prefix [] h = tt
prefix-Has z prefix (x ∷ items) h = (
  Has-snoc z x prefix h,
  All-append (Has z) (itemsets (prefix ++ x ∷ []) items) (itemsets prefix items)
      (prefix-Has z (prefix ++ x ∷ []) items (Has-snoc z x prefix h)) (prefix-Has z prefix items h),
)

snoc_absent : (z x : ℕ) (xs : List ℕ) → (Has z xs → ⊥) → x ≢ z → Has z (xs ++ x ∷ []) → ⊥
snoc_absent z x [] h ne (inl e) = ne e
snoc_absent z x [] h ne (inr k) = elim k [ ]
snoc_absent z x (y ∷ xs) h ne (inl e) = h (inl e)
snoc_absent z x (y ∷ xs) h ne (inr k) = snoc_absent z x xs (λ q. h (inr q)) ne k

-- None has what neither the prefix nor the items have.
itemsets_absent :
    (z : ℕ) (prefix items : List ℕ)
    → (Has z prefix → ⊥)
    → (Has z items → ⊥)
    → All (λ ys. Has z ys → ⊥) (itemsets prefix items)
unfolding itemsets
itemsets_absent z prefix [] h k = tt
itemsets_absent z prefix (x ∷ items) h k = (
  snoc_absent z x prefix h (λ e. k (inl e)),
  All-append (λ ys. Has z ys → ⊥) (itemsets (prefix ++ x ∷ []) items) (itemsets prefix items)
      (itemsets_absent z (prefix ++ x ∷ []) items (snoc_absent z x prefix h (λ e. k (inl e)))
        (λ q. k (inr q)))
      (itemsets_absent z prefix items h (λ q. k (inr q))),
)

-- Each has one of the items.
Extends : List ℕ → List ℕ → Type 0
Extends items ys = (z : ℕ) × Has z items × Has z ys

Extends-more : (x : ℕ) (items ys : List ℕ) → Extends items ys → Extends (x ∷ items) ys
unfolding Extends
Extends-more x items ys (z, h, k) = (z, inr h, k)

itemsets-Extends : (prefix items : List ℕ) → All (Extends items) (itemsets prefix items)
unfolding itemsets Extends
itemsets-Extends prefix [] = tt
itemsets-Extends prefix (x ∷ items) = (
  (x, inl refl, Has-last x prefix),
  All-append (Extends (x ∷ items)) (itemsets (prefix ++ x ∷ []) items) (itemsets prefix items)
      (All-map (Extends items) (Extends (x ∷ items)) _ (Extends-more x items)
        (itemsets-Extends (prefix ++ x ∷ []) items))
      (All-map (Extends items) (Extends (x ∷ items)) _ (Extends-more x items)
        (itemsets-Extends prefix items)),
)

-- An item to come is not in the prefix.
Unique-apart :
    (z : ℕ) (prefix items : List ℕ) → Unique (prefix ++ items) → Has z items → Has z prefix → ⊥
Unique-apart z prefix [] u h k = elim h [ ]
Unique-apart z prefix (x ∷ items) u (inl e) k = Unique-cross z prefix x items u k (sym e)
Unique-apart z prefix (x ∷ items) u (inr h) k =
    Unique-apart z prefix items (Unique-without prefix x items u) h k

Unique-last :
    (prefix : List ℕ) (x : ℕ) (items : List ℕ) → Unique (prefix ++ x ∷ items) → Has x items → ⊥
Unique-last prefix x items u h =
    Unique-apart x (prefix ++ x ∷ []) items (Unique-assoc prefix x items u) h (Has-last x prefix)

Pairs-append :
    (yss zss : List (List ℕ))
    → Pairs Differ yss
    → Pairs Differ zss
    → All (λ ys. All (Differ ys) zss) yss
    → Pairs Differ (yss ++ zss)
Pairs-append [] zss h k c = k
Pairs-append (ys ∷ yss) zss (h, hs) k (c, cs) =
    (All-append (Differ ys) yss zss h c, Pairs-append yss zss hs k cs)

pub itemsets-Differ :
    (prefix items : List ℕ) → Unique (prefix ++ items) → Pairs Differ (itemsets prefix items)
unfolding itemsets Extends
itemsets-Differ prefix [] u = tt
itemsets-Differ prefix (x ∷ items) u = (
  All-append (Differ (prefix ++ x ∷ [])) (itemsets (prefix ++ x ∷ []) items) (itemsets prefix items)
      (All-map (Extends items) (Differ (prefix ++ x ∷ [])) _ longer
        (itemsets-Extends (prefix ++ x ∷ []) items))
      (apart (prefix ++ x ∷ []) (Has-last x prefix)),
  Pairs-append (itemsets (prefix ++ x ∷ []) items) (itemsets prefix items)
      (itemsets-Differ (prefix ++ x ∷ []) items (Unique-assoc prefix x items u))
      (itemsets-Differ prefix items (Unique-without prefix x items u))
      (All-map (Has x) (λ ys. All (Differ ys) (itemsets prefix items)) _ apart
        (prefix-Has x (prefix ++ x ∷ []) items (Has-last x prefix))),
)
  where
    longer : (ys : List ℕ) → Extends items ys → Differ (prefix ++ x ∷ []) ys
    longer ys (z, h, k) same =
        Unique-apart z (prefix ++ x ∷ []) items (Unique-assoc prefix x items u) h (same.back z k)

    apart : (ys : List ℕ) → Has x ys → All (Differ ys) (itemsets prefix items)
    apart ys h =
        All-map (λ zs. Has x zs → ⊥) (Differ ys) _ (λ zs gone same. gone (same.to x h))
          (itemsets_absent x prefix items (λ k. Unique-cross x prefix x items u k refl)
            (Unique-last prefix x items u))
