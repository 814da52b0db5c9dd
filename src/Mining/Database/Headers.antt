-- ===== src/Mining/Database/Headers.antt =====
-- The headers of the single items, in rising order of their items.
use pocket_data_mining.Base.{
  ℕ, ◌<◌, ◌≡◌, refl, sym, ◌∙◌, ap, Bool, true, false, Option, none, some, List, [], ◌∷◌, ltb, All,
  ◌⊎◌, inl, inr, ◌==◌, if◌then◌else◌, arith, Compare-cases,
}
use mathlib.Core.Option.{some-injective}
use mathlib.Core.Path.{subst}
use pocket_data_mining.Base.Assoc.{lookup, remove, lookup-remove}
use pocket_data_mining.Types.{UlEntry}
use pocket_data_mining.Preprocessing.TwuFilter.{FilteredTransaction}
use pocket_data_mining.Mining.Search.{Single}
use pocket_data_mining.Base.Sort.{Least, Sorted, Pairs, sort_by-Sorted}
use pocket_data_mining.Mining.Algorithms.Results.{node_of}
use pocket_data_mining.Mining.Algorithms.Lists.{
  PerItem, header_found, headers_of, item_header, item_of, item_uls,
}
use pocket_data_mining.Mining.Database.Items.{Holds}
use pocket_data_mining.Mining.Database.{entries}

remove-Holds :
    (fs : List FilteredTransaction) (k : ℕ) (m : PerItem) → Holds fs m → Holds fs (remove k m)
remove-Holds fs k m h x =
    subst (λ o. (o ≡ none) ⊎ (o ≡ some (entries (x ∷ []) fs))) (sym (lookup-remove k x m))
      (go (k == x) (h x))
  where
    go :
        (b : Bool)
        → (lookup x m ≡ none) ⊎ (lookup x m ≡ some (entries (x ∷ []) fs))
        → ((if b then none else lookup x m) ≡ none)
          ⊎ ((if b then none else lookup x m) ≡ some (entries (x ∷ []) fs))
    go true c = inl refl
    go false c = c

-- The header and the entries are those of the item.
abbrev pub IsListOf : List FilteredTransaction → Single → Type 0
IsListOf fs s = node_of s ≡ (item_of s ∷ [], entries (item_of s ∷ []) fs)

headers_of-IsListOf :
    (fs : List FilteredTransaction) (items : List ℕ) (m : PerItem)
    → Holds fs m
    → All (IsListOf fs) (headers_of items m)
unfolding headers_of item_header
headers_of-IsListOf fs [] m h = tt
headers_of-IsListOf fs (x ∷ items) m h =
    go (lookup x m) (h x) (headers_of-IsListOf fs items (remove x m) (remove-Holds fs x m h))
  where
    go :
        (o : Option (List UlEntry))
        → (o ≡ none) ⊎ (o ≡ some (entries (x ∷ []) fs))
        → All (IsListOf fs) (headers_of items (remove x m))
        → All (IsListOf fs) (header_found x o (headers_of items (remove x m)))
    go none c k = k
    go (some es) (inl c) k = absurd (cc c)
    go (some es) (inr c) k = (ap (λ l. (x ∷ [], l)) (some-injective es (entries (x ∷ []) fs) c), k)

remove-none : (x y : ℕ) (m : PerItem) → lookup x m ≡ none → lookup x (remove y m) ≡ none
remove-none x y m h = lookup-remove y x m ∙ ground (arith, h)

remove_self : (x : ℕ) (m : PerItem) → lookup x (remove x m) ≡ none
remove_self x m = lookup-remove x x m ∙ ground arith

-- Items of a rising list stay in their order, and none of them twice.
abbrev pub Rising : Single → Single → Type 0
Rising a b = item_of a < item_of b

headers_of-above :
    (x : ℕ) (items : List ℕ) (m : PerItem)
    → Least ltb x items
    → lookup x m ≡ none
    → All (λ s. x < item_of s) (headers_of items m)
unfolding headers_of item_header
headers_of-above x [] m l h = tt
headers_of-above x (y ∷ items) m (l, ls) h =
    go (lookup y m) refl (headers_of-above x items (remove y m) ls (remove-none x y m h))
  where
    go :
        (o : Option (List UlEntry))
        → lookup y m ≡ o
        → All (λ s. x < item_of s) (headers_of items (remove y m))
        → All (λ s. x < item_of s) (header_found y o (headers_of items (remove y m)))
    go none c k = k
    go (some es) c k = elim (Compare-cases x y) [
      | inl (_, lt) ↦ (lt, k)
      | inr (inl (_, eq)) ↦ absurd (cc (eq, c, h))
      | inr (inr (_, gt)) ↦ absurd (ground (arith, l, gt))
    ]

headers_of-Rising :
    (items : List ℕ) (m : PerItem) → Sorted ltb items → Pairs Rising (headers_of items m)
unfolding headers_of item_header
headers_of-Rising [] m h = tt
headers_of-Rising (x ∷ items) m (l, h) =
    go (lookup x m) (headers_of-above x items (remove x m) l (remove_self x m))
      (headers_of-Rising items (remove x m) h)
  where
    go :
        (o : Option (List UlEntry))
        → All (λ s. x < item_of s) (headers_of items (remove x m))
        → Pairs Rising (headers_of items (remove x m))
        → Pairs Rising (header_found x o (headers_of items (remove x m)))
    go none a p = p
    go (some es) a p = (a, p)

pub item_uls-Rising : (m : PerItem) → Pairs Rising (item_uls m)
unfolding item_uls
item_uls-Rising m =
    headers_of-Rising _ m
      (sort_by-Sorted ltb (λ a b c h k. ground (arith, h, k)) (λ a b h. ground (arith, h)) _)

pub item_uls-IsListOf :
    (fs : List FilteredTransaction) (m : PerItem) → Holds fs m → All (IsListOf fs) (item_uls m)
unfolding item_uls
item_uls-IsListOf fs m h = headers_of-IsListOf fs _ m h
