-- ===== src/Mining/Database/Order.antt =====
-- The order of the items: the same in the lists that the search starts with and in each transaction.
use pocket_data_mining.Base.{
  ℕ, ◌+◌, ◌≤◌, ◌^◌, ◌%◌, ◌≡◌, sym, ◌∙◌, Bool, true, false, some, List, [], ◌∷◌, ltb, lt→ltb, All,
  Bool-cases, ◌⊎◌, inl, inr, ◌==◌, ==→eq, arith, keep_if,
}
use mathlib.Core.Path.{subst}
use pocket_data_mining.Base.Words.{lt_i64}
use pocket_data_mining.Base.Sort.{Sorted, Pairs, Pairs-map, sort_by-Stable, sort_by-Sorted}
use pocket_data_mining.Types.{ItemEntry, RawTransaction}
use pocket_data_mining.Preprocessing.TwuFilter.{
  FilteredTransaction, TwuFilterResult, key_before, twu_of, kept_before, apply, unless_empty,
  passes,
}
use pocket_data_mining.Preprocessing.TwuFilter.Order.{
  key_trans, key_asym, key_total, key_rising, key_lower,
}
use pocket_data_mining.Mining.Search.{Single}
use pocket_data_mining.Mining.Algorithms.Lists.{item_of, sort_by_twu, sort_by_twu_item}
use pocket_data_mining.Mining.Database.{item_utility, remaining, cons_kept, kept_transactions}
use pocket_data_mining.Mining.Database.Items.{item_utility-le}
use pocket_data_mining.Mining.Database.Headers.{Rising}

-- One item strictly before another.
abbrev pub item_before : TwuFilterResult → ℕ → ℕ → Bool
item_before r x y = key_before (twu_of r x, x) (twu_of r y, y)

abbrev pub IsBefore : TwuFilterResult → ℕ → ℕ → Type 0
IsBefore r x y = item_before r x y ≡ true

pub sort_by_twu_item-IsBefore :
    (r : TwuFilterResult) (l : List Single)
    → Pairs Rising l
    → Pairs (λ a b. IsBefore r (item_of a) (item_of b)) (sort_by_twu_item r l)
unfolding sort_by_twu_item
sort_by_twu_item-IsBefore r l h = Pairs-map _ _ _ strict (
    sort_by-Stable (λ a b. item_before r (item_of a) (item_of b))
      (λ a b c.
        key_trans (twu_of r (item_of a), item_of a) (twu_of r (item_of b), item_of b)
          (twu_of r (item_of c), item_of c))
      (λ a b. key_asym (twu_of r (item_of a), item_of a) (twu_of r (item_of b), item_of b)) Rising l
      h)
  where
    strict :
        (a b : Single)
        → (item_before r (item_of b) (item_of a) ≡ false)
          × ((item_before r (item_of a) (item_of b) ≡ true) ⊎ Rising a b)
        → IsBefore r (item_of a) (item_of b)
    strict a b (h, inl e) = e
    strict a b (h, inr e) =
        key_total (twu_of r (item_of a), item_of a) (twu_of r (item_of b), item_of b)
          (λ q. omega (arith, q, e)) h

lt_trans : (t u v : ℕ) → ltb u t ≡ false → ltb v u ≡ false → ltb v t ≡ false
lt_trans t u v h k = ground arith

lt_asym : (t u : ℕ) → ltb t u ≡ true → ltb u t ≡ false
lt_asym t u h = ground arith

pub sort_by_twu-IsBefore :
    (r : TwuFilterResult) (l : List Single)
    → Pairs Rising l
    → Pairs (λ a b. IsBefore r (item_of a) (item_of b)) (sort_by_twu r l)
unfolding sort_by_twu
sort_by_twu-IsBefore r l h = Pairs-map _ _ _ strict (
    sort_by-Stable (λ a b. lt_i64 (twu_of r (item_of a)) (twu_of r (item_of b)))
      (λ a b c.
        lt_trans ((twu_of r (item_of a) + 2 ^ 63) % 2 ^ 64)
          ((twu_of r (item_of b) + 2 ^ 63) % 2 ^ 64) ((twu_of r (item_of c) + 2 ^ 63) % 2 ^ 64))
      (λ a b.
        lt_asym ((twu_of r (item_of a) + 2 ^ 63) % 2 ^ 64)
          ((twu_of r (item_of b) + 2 ^ 63) % 2 ^ 64))
      Rising l h)
  where
    strict :
        (a b : Single)
        → (lt_i64 (twu_of r (item_of b)) (twu_of r (item_of a)) ≡ false)
          × ((lt_i64 (twu_of r (item_of a)) (twu_of r (item_of b)) ≡ true) ⊎ Rising a b)
        → IsBefore r (item_of a) (item_of b)
    strict a b (h, inl e) =
        key_lower (twu_of r (item_of a)) (item_of a) (twu_of r (item_of b)) (item_of b) e
    strict a b (h, inr e) =
        key_rising (twu_of r (item_of a)) (item_of a) (twu_of r (item_of b)) (item_of b) h
          (lt→ltb (item_of a) (item_of b) e)

-- The items of a transaction are in that order.
abbrev pub IsOrdered : TwuFilterResult → FilteredTransaction → Type 0
IsOrdered r f = Sorted (kept_before r) f.items

pub kept_transactions-IsOrdered :
    (r : TwuFilterResult) (txs : List RawTransaction) → All (IsOrdered r) (kept_transactions r txs)
unfolding kept_transactions apply
kept_transactions-IsOrdered r [] = tt
kept_transactions-IsOrdered r (tx ∷ txs) =
    go (keep_if (λ e. passes r e.item) tx.items) (kept_transactions-IsOrdered r txs)
  where
    go :
        (es : List ItemEntry)
        → All (IsOrdered r) (kept_transactions r txs)
        → All (IsOrdered r) (cons_kept (unless_empty r tx es) (kept_transactions r txs))
    go [] h = h
    go (e ∷ es) h = (
      sort_by-Sorted (kept_before r)
          (λ a b c.
            key_trans (twu_of r a.item, a.item) (twu_of r b.item, b.item) (twu_of r c.item, c.item))
          (λ a b. key_asym (twu_of r a.item, a.item) (twu_of r b.item, b.item)) (e ∷ es),
      h,
    )

pub IsBefore-self : (r : TwuFilterResult) (x : ℕ) → IsBefore r x x → ⊥
IsBefore-self r x b = clash b (key_asym (twu_of r x, x) (twu_of r x, x) b)
  where
    clash : {c : Bool} → c ≡ true → c ≡ false → ⊥
    clash p q = cc (p, q)

later_items :
    (r : TwuFilterResult) (x y : ℕ) (es : List ItemEntry) (u : ℕ)
    → All (λ d. item_before r d.item y ≡ false) es
    → item_utility x es ≡ some u
    → item_before r x y ≡ false
unfolding item_utility
later_items r x y [] u l h = absurd (cc h)
later_items r x y (e ∷ es) u (l, ls) h = elim (Bool-cases (e.item == x)) [
  | inl here ↦ subst (λ i. item_before r i y ≡ false) (==→eq e.item x here) l
  | inr there ↦ later_items r x y es u ls (rw there at h)
]

-- What an item and those after it have is part of what remains after an item before it.
pub remaining-IsBefore :
    (r : TwuFilterResult) (x y : ℕ) (es : List ItemEntry) (u v : ℕ)
    → Sorted (kept_before r) es
    → IsBefore r x y
    → item_utility x es ≡ some u
    → item_utility y es ≡ some v
    → v + remaining y es ≤ remaining x es
unfolding item_utility remaining
remaining-IsBefore r x y [] u v s b hx hy = absurd (cc hx)
remaining-IsBefore r x y (e ∷ es) u v (l, s) b hx hy = elim (Bool-cases (e.item == x)) [
  | inl here ↦ elim (Bool-cases (e.item == y)) [
    | inl both ↦ absurd (
        IsBefore-self r x
          (subst (λ i. IsBefore r x i) (sym (==→eq e.item y both) ∙ ==→eq e.item x here) b))
    | inr other ↦ rw (here, other) (item_utility-le y es v (rw other at hy))
  ]
  | inr there ↦ elim (Bool-cases (e.item == y)) [
    | inl here ↦ absurd (
        clash b (
          later_items r x y es u
            (subst (λ i. All (λ d. item_before r d.item i ≡ false) es) (==→eq e.item y here) l)
            (rw there at hx)))
    | inr other ↦
        rw (there, other) (remaining-IsBefore r x y es u v s b (rw there at hx) (rw other at hy))
  ]
]
  where
    clash : {c : Bool} → c ≡ true → c ≡ false → ⊥
    clash p q = cc (p, q)
