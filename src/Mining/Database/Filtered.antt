-- ===== src/Mining/Database/Filtered.antt =====
-- What the filter leaves of a transaction: its items that pass, in another order.
use pocket_data_mining.Base.{
  ℕ, ◌+◌, ◌≤◌, ◌≡◌, ◌≢◌, refl, sym, ◌∙◌, ap, Bool, true, false, none, some, List, [], ◌∷◌, All,
  Bool-cases, ◌⊎◌, inl, inr, ◌==◌, ne→==_false, arith, if◌then◌else◌, keep_if, keep_if_nil,
  keep_if_cons,
}
use pocket_data_mining.Base.Sort.{place, sort_by, place-All, sort_by-All}
use pocket_data_mining.Types.{ItemEntry, RawTransaction}
use pocket_data_mining.Preprocessing.TwuFilter.{
  TwuFilterResult, kept_before, apply, unless_empty, passes, filtered_of,
}
use pocket_data_mining.Mining.Database.{item_utility, rest_utility, DistinctItems}

abbrev pub kept_items : TwuFilterResult → List ItemEntry → List ItemEntry
kept_items r = keep_if (λ e. passes r e.item)

module _ (before : ItemEntry → ItemEntry → Bool) where
  -- Sorting moves no utility from one item to another.
  item_utility-place :
      (x : ℕ) (e : ItemEntry) (es : List ItemEntry)
      → All (λ d. e.item ≢ d.item) es
      → item_utility x (place before e es) ≡ item_utility x (e ∷ es)
  unfolding place item_utility
  item_utility-place x e [] h = refl
  item_utility-place x e (d ∷ es) (h, hs) = elim (Bool-cases (before d e)) [
    | inl c ↦
        rw (c, place)
          (ap (λ o. if d.item == x then some d.utility else o) (item_utility-place x e es hs)
            ∙ ground (arith, h))
    | inr c ↦ rw (c, place) refl
  ]

  place-DistinctItems :
      (e : ItemEntry) (es : List ItemEntry)
      → All (λ d. e.item ≢ d.item) es
      → DistinctItems es
      → DistinctItems (place before e es)
  unfolding place
  place-DistinctItems e [] h d = (tt, tt)
  place-DistinctItems e (f ∷ es) (h, hs) (d, ds) = elim (Bool-cases (before f e)) [
    | inl c ↦
        rw (c, place)
          (
            place-All before (λ g. f.item ≢ g.item) e es (λ q. h (sym q)) d,
            place-DistinctItems e es hs ds,
          )
    | inr c ↦ rw (c, place) ((h, hs), (d, ds))
  ]

  sort_by-DistinctItems :
      (es : List ItemEntry) → DistinctItems es → DistinctItems (sort_by before es)
  unfolding sort_by
  sort_by-DistinctItems [] d = tt
  sort_by-DistinctItems (e ∷ es) (d, ds) =
      place-DistinctItems e (sort_by before es) (sort_by-All before (λ g. e.item ≢ g.item) es d)
        (sort_by-DistinctItems es ds)

  item_utility-sort_by :
      (x : ℕ) (es : List ItemEntry)
      → DistinctItems es
      → item_utility x (sort_by before es) ≡ item_utility x es
  unfolding sort_by item_utility
  item_utility-sort_by x [] d = refl
  item_utility-sort_by x (e ∷ es) (d, ds) =
      item_utility-place x e (sort_by before es) (sort_by-All before (λ g. e.item ≢ g.item) es d)
      ∙ ap (λ o. if e.item == x then some e.utility else o) (item_utility-sort_by x es ds)

  rest_utility-place :
      (e : ItemEntry) (es : List ItemEntry)
      → rest_utility (place before e es) ≡ e.utility + rest_utility es
  unfolding place rest_utility
  rest_utility-place e [] = refl
  rest_utility-place e (d ∷ es) = elim (Bool-cases (before d e)) [
    | inl c ↦ rw (c, place) (omega (arith, rest_utility-place e es))
    | inr c ↦ rw (c, place) refl
  ]

  rest_utility-sort_by : (es : List ItemEntry) → rest_utility (sort_by before es) ≡ rest_utility es
  unfolding sort_by rest_utility
  rest_utility-sort_by [] = refl
  rest_utility-sort_by (e ∷ es) =
      rest_utility-place e (sort_by before es) ∙ ap (λ n. e.utility + n) (rest_utility-sort_by es)

module _ (r : TwuFilterResult) where
  kept_items_nil : kept_items r [] ≡ []
  kept_items_nil = keep_if_nil (λ (d : ItemEntry). passes r d.item)

  kept_items_cons :
      (e : ItemEntry) (es : List ItemEntry)
      → kept_items r (e ∷ es) ≡ (if passes r e.item then e ∷ kept_items r es else kept_items r es)
  kept_items_cons e es = keep_if_cons (λ d. passes r d.item) e es

  kept_items-All :
      (K : ItemEntry → Type 0) (es : List ItemEntry) → All K es → All K (kept_items r es)
  kept_items-All K [] h = rw kept_items_nil tt
  kept_items-All K (e ∷ es) (h, hs) =
      rw (kept_items_cons e es) (go (passes r e.item) (kept_items-All K es hs))
    where
      go :
          (b : Bool)
          → All K (kept_items r es)
          → All K (if b then e ∷ kept_items r es else kept_items r es)
      go true k = (h, k)
      go false k = k

  kept_items-DistinctItems :
      (es : List ItemEntry) → DistinctItems es → DistinctItems (kept_items r es)
  kept_items-DistinctItems [] d = rw kept_items_nil tt
  kept_items-DistinctItems (e ∷ es) (d, ds) = rw (kept_items_cons e es) (
      go (passes r e.item) (kept_items-All (λ g. e.item ≢ g.item) es d)
        (kept_items-DistinctItems es ds))
    where
      go :
          (b : Bool)
          → All (λ g. e.item ≢ g.item) (kept_items r es)
          → DistinctItems (kept_items r es)
          → DistinctItems (if b then e ∷ kept_items r es else kept_items r es)
      go true h k = (h, k)
      go false h k = k

  pub item_utility-kept_items :
      (x : ℕ) (es : List ItemEntry)
      → passes r x ≡ true
      → item_utility x (kept_items r es) ≡ item_utility x es
  unfolding item_utility
  item_utility-kept_items x [] h = rw kept_items_nil refl
  item_utility-kept_items x (e ∷ es) h =
      rw (kept_items_cons e es) (elim (Bool-cases (passes r e.item)) [
        | inl p ↦
            rw p
              (ap (λ o. if e.item == x then some e.utility else o) (item_utility-kept_items x es h))
        | inr p ↦
            rw (p, ne→==_false e.item x (λ q. clash h (ap (passes r) (sym q) ∙ p)))
              (item_utility-kept_items x es h)
      ])
    where
      clash : {c : Bool} → c ≡ true → c ≡ false → ⊥
      clash p q = cc (p, q)

  rest_utility-kept_items-le :
      (es : List ItemEntry) → rest_utility (kept_items r es) ≤ rest_utility es
  unfolding rest_utility
  rest_utility-kept_items-le [] = rw kept_items_nil (omega arith)
  rest_utility-kept_items-le (e ∷ es) =
      rw (kept_items_cons e es) (go (passes r e.item) (rest_utility-kept_items-le es))
    where
      go :
          (b : Bool)
          → rest_utility (kept_items r es) ≤ rest_utility es
          → rest_utility (if b then e ∷ kept_items r es else kept_items r es)
            ≤ e.utility + rest_utility es
      go true h = omega arith
      go false h = omega arith

  -- All that is kept passes.
  kept_items-passes : (es : List ItemEntry) → All (λ e. passes r e.item ≡ true) (kept_items r es)
  kept_items-passes [] = rw kept_items_nil tt
  kept_items-passes (e ∷ es) = rw (kept_items_cons e es) (elim (Bool-cases (passes r e.item)) [
    | inl p ↦ rw p (p, kept_items-passes es)
    | inr p ↦ rw p (kept_items-passes es)
  ])

-- What is kept of the items.
abbrev pub sorted_items : TwuFilterResult → List ItemEntry → List ItemEntry
sorted_items r es = sort_by (kept_before r) (kept_items r es)

pub apply-cases :
    (r : TwuFilterResult) (tx : RawTransaction)
    → ((apply r tx ≡ none) × (kept_items r tx.items ≡ []))
      ⊎ (apply r tx ≡ some (filtered_of tx (sorted_items r tx.items)))
unfolding apply
apply-cases r tx = go (kept_items r tx.items)
  where
    go :
        (es : List ItemEntry)
        → ((unless_empty r tx es ≡ none) × (es ≡ []))
          ⊎ (unless_empty r tx es ≡ some (filtered_of tx (sort_by (kept_before r) es)))
    go [] = inl (refl, refl)
    go (e ∷ es) = inr refl

pub item_utility-sorted_items :
    (r : TwuFilterResult) (x : ℕ) (es : List ItemEntry)
    → DistinctItems es
    → passes r x ≡ true
    → item_utility x (sorted_items r es) ≡ item_utility x es
item_utility-sorted_items r x es d p =
    item_utility-sort_by (kept_before r) x (kept_items r es) (kept_items-DistinctItems r es d)
    ∙ item_utility-kept_items r x es p

pub sorted_items-DistinctItems :
    (r : TwuFilterResult) (es : List ItemEntry)
    → DistinctItems es
    → DistinctItems (sorted_items r es)
sorted_items-DistinctItems r es d =
    sort_by-DistinctItems (kept_before r) (kept_items r es) (kept_items-DistinctItems r es d)

pub rest_utility-sorted_items-le :
    (r : TwuFilterResult) (es : List ItemEntry) → rest_utility (sorted_items r es) ≤ rest_utility es
rest_utility-sorted_items-le r es =
    omega (
      arith,
      rest_utility-sort_by (kept_before r) (kept_items r es),
      rest_utility-kept_items-le r es,
    )

pub sorted_items-passes :
    (r : TwuFilterResult) (es : List ItemEntry)
    → All (λ e. passes r e.item ≡ true) (sorted_items r es)
sorted_items-passes r es = sort_by-All (kept_before r) _ (kept_items r es) (kept_items-passes r es)
