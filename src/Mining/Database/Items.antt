-- ===== src/Mining/Database/Items.antt =====
-- The lists that the second pass builds are the utility lists of the single items.
use pocket_data_mining.Base.{
  ℕ, ◌+◌, ◌≤◌, ◌<◌, ◌^◌, ◌≡◌, ◌≢◌, refl, sym, ◌∙◌, ap, true, false, Option, none, some, List, [],
  ◌∷◌, ◌++◌, length, ltb, All, Bool-cases, ◌⊎◌, inl, inr, ◌==◌, ==→eq, ne→==_false, if◌then◌else◌,
  arith,
}
use mathlib.Core.List.{append_assoc, append-nil}
use mathlib.Core.Option.{some-injective}
use mathlib.Core.Path.{subst}
use pocket_data_mining.Base.Assoc.{lookup, lookup-insert}
use pocket_data_mining.Types.{ItemEntry, RawTransaction, UlEntry}
use pocket_data_mining.Preprocessing.TwuFilter.{FilteredTransaction, TwuFilterResult, apply}
use pocket_data_mining.Mining.Eucs.{Tracked}
use pocket_data_mining.Mining.Search.{last_item}
use pocket_data_mining.Mining.Algorithms.Lists.{
  PerItem, or_empty, push_item, total_utility, add_entries, add_filtered, per_item_of,
  per_item_with_pairs, note_pairs,
}
use pocket_data_mining.Mining.Database.{
  item_utility, rest_utility, remaining, add_some, utility_of, entry_for, entry_in, entries,
  cons_some, cons_kept, kept_transactions, DistinctItems,
}

-- Each item stands once, and all utilities together are a nonnegative i64.
abbrev pub IsSound : FilteredTransaction → Type 0
IsSound f = DistinctItems f.items × (rest_utility f.items < 2 ^ 63)

abbrev entry_with : ℕ → ℕ → Option ℕ → Option UlEntry
entry_with tid rest none = none
entry_with tid rest (some u) = some (record { tid = tid; iutils = u; rutils = rest })

abbrev append_some : Option (List UlEntry) → Option UlEntry → Option (List UlEntry)
append_some o none = o
append_some o (some e) = some (or_empty o ++ e ∷ [])

item_utility_absent :
    (x : ℕ) (es : List ItemEntry) → All (λ d. x ≢ d.item) es → item_utility x es ≡ none
unfolding item_utility
item_utility_absent x [] h = refl
item_utility_absent x (e ∷ es) (h, hs) =
    rw (ne→==_false e.item x (λ q. h (sym q))) (item_utility_absent x es hs)

lookup-push_item :
    (x item : ℕ) (e : UlEntry) (m : PerItem)
    → lookup x (push_item item e m)
      ≡ (if item == x then some (or_empty (lookup item m) ++ e ∷ []) else lookup x m)
unfolding push_item
lookup-push_item x item e m = lookup-insert item x (or_empty (lookup item m) ++ e ∷ []) m

add_entries_cons :
    (tid : ℕ) (e : ItemEntry) (es : List ItemEntry) (m : PerItem)
    → rest_utility (e ∷ es) < 2 ^ 63
    → add_entries tid (rest_utility (e ∷ es)) (e ∷ es) m
      ≡ add_entries tid
          (rest_utility es)
          es
          (push_item e.item (record { tid = tid; iutils = e.utility; rutils = rest_utility es }) m)
unfolding add_entries rest_utility
add_entries_cons tid e es m small =
    ap
      (λ r.
        add_entries tid r es
          (push_item e.item (record { tid = tid; iutils = e.utility; rutils = r }) m))
      (omega arith)

lookup-add_entries :
    (x tid : ℕ) (es : List ItemEntry) (m : PerItem)
    → DistinctItems es
    → rest_utility es < 2 ^ 63
    → lookup x (add_entries tid (rest_utility es) es m)
      ≡ append_some (lookup x m) (entry_with tid (remaining x es) (item_utility x es))
unfolding item_utility remaining rest_utility
lookup-add_entries x tid [] m d small = unfold add_entries in refl
lookup-add_entries x tid (e ∷ es) m (d, ds) small =
    ap (lookup x) (add_entries_cons tid e es m small)
    ∙ lookup-add_entries x tid es (push_item e.item entry m) ds (omega (arith, small))
    ∙ elim (Bool-cases (e.item == x)) [
      | inl here ↦
          rw
            (
              lookup-push_item x e.item entry m,
              here,
              item_utility_absent x es
                  (subst (λ i. All (λ c. i ≢ c.item) es) (==→eq e.item x here) d),
            )
            (ap (λ i. some (or_empty (lookup i m) ++ entry ∷ [])) (==→eq e.item x here))
      | inr there ↦ rw (lookup-push_item x e.item entry m, there) refl
    ]
  where
    entry : UlEntry
    entry = record { tid = tid; iutils = e.utility; rutils = rest_utility es }

total_utility_lem :
    (acc : ℕ) (es : List ItemEntry)
    → acc + rest_utility es < 2 ^ 63
    → total_utility acc es ≡ acc + rest_utility es
unfolding total_utility rest_utility
total_utility_lem acc [] h = omega arith
total_utility_lem acc (e ∷ es) h =
    ap (λ a. total_utility a es) (omega arith)
    ∙ total_utility_lem (acc + e.utility) es (omega arith)
    ∙ omega arith

-- The entry of one item.
pub item_utility-le :
    (x : ℕ) (es : List ItemEntry) (u : ℕ)
    → item_utility x es ≡ some u
    → u + remaining x es ≤ rest_utility es
unfolding item_utility remaining rest_utility
item_utility-le x [] u h = absurd (cc h)
item_utility-le x (e ∷ es) u h = elim (Bool-cases (e.item == x)) [
  | inl here ↦ rw here (omega (arith, some-injective e.utility u (rw here at h)))
  | inr there ↦ rw there (omega (arith, item_utility-le x es u (rw there at h)))
]

pub utility_of_item :
    (x : ℕ) (es : List ItemEntry)
    → rest_utility es < 2 ^ 63
    → utility_of (x ∷ []) es ≡ item_utility x es
unfolding utility_of
utility_of_item x es small = go (item_utility x es) (item_utility-le x es)
  where
    go :
        (o : Option ℕ)
        → ((u : ℕ) → o ≡ some u → u + remaining x es ≤ rest_utility es)
        → add_some o (some 0) ≡ o
    go none h = refl
    go (some u) h = ap (λ v. some v) (omega (arith, h u refl, small))

append_one :
    (x : ℕ) (f : FilteredTransaction) (o : Option (List UlEntry))
    → IsSound f
    → append_some o (entry_with f.tid (remaining x f.items) (item_utility x f.items))
      ≡ append_some o (entry_in (x ∷ []) f)
append_one x f o (d, small) = rw (utility_of_item x f.items small) (go (item_utility x f.items))
  where
    go :
        (u : Option ℕ)
        → append_some o (entry_with f.tid (remaining x f.items) u)
          ≡ append_some o (entry_for f (last_item (x ∷ [])) u)
    go none = refl
    go (some u) = refl

lookup-add_filtered :
    (x : ℕ) (f : FilteredTransaction) (m : PerItem)
    → IsSound f
    → lookup x (add_filtered (some f) m) ≡ append_some (lookup x m) (entry_in (x ∷ []) f)
unfolding add_filtered
lookup-add_filtered x f m (d, small) =
    ap (λ t. lookup x (add_entries f.tid t f.items m))
      (total_utility_lem 0 f.items (omega (arith, small)) ∙ omega arith)
    ∙ lookup-add_entries x f.tid f.items m d small
    ∙ append_one x f (lookup x m) (d, small)

-- What is there and a list to add.
abbrev append_all : Option (List UlEntry) → List UlEntry → Option (List UlEntry)
append_all o [] = o
append_all o (e ∷ es) = append_all (append_some o (some e)) es

append_all_cons :
    (o : Option (List UlEntry)) (e : Option UlEntry) (es : List UlEntry)
    → append_all (append_some o e) es ≡ append_all o (cons_some e es)
append_all_cons o none es = refl
append_all_cons o (some e) es = refl

append_all-some : (ys es : List UlEntry) → append_all (some ys) es ≡ some (ys ++ es)
append_all-some ys [] = ap (λ l. some l) (sym (append-nil ys))
append_all-some ys (e ∷ es) =
    append_all-some (ys ++ e ∷ []) es ∙ ap (λ l. some l) (append_assoc ys (e ∷ []) es)

lookup-per_item_of :
    (r : TwuFilterResult) (x : ℕ) (txs : List RawTransaction) (m : PerItem)
    → All IsSound (kept_transactions r txs)
    → lookup x (per_item_of r txs m)
      ≡ append_all (lookup x m) (entries (x ∷ []) (kept_transactions r txs))
unfolding per_item_of kept_transactions entries
lookup-per_item_of r x [] m h = refl
lookup-per_item_of r x (tx ∷ txs) m h =
    go (apply r tx) (λ m' hs. lookup-per_item_of r x txs m' hs) h
  where
    go :
        (o : Option FilteredTransaction)
        → ((m' : PerItem)
            → All IsSound (kept_transactions r txs)
            → lookup x (per_item_of r txs m')
              ≡ append_all (lookup x m') (entries (x ∷ []) (kept_transactions r txs)))
        → All IsSound (cons_kept o (kept_transactions r txs))
        → lookup x (per_item_of r txs (add_filtered o m))
          ≡ append_all (lookup x m) (entries (x ∷ []) (cons_kept o (kept_transactions r txs)))
    go none ih k = ih m k
    go (some f) ih (k, ks) =
        ih (add_filtered (some f) m) ks
        ∙ ap (λ o. append_all o (entries (x ∷ []) (kept_transactions r txs)))
            (lookup-add_filtered x f m k)
        ∙ append_all_cons (lookup x m) (entry_in (x ∷ []) f)
            (entries (x ∷ []) (kept_transactions r txs))

-- The co-occurrences do not change the lists.
pub per_item_with_pairs_lem :
    (r : TwuFilterResult) (txs : List RawTransaction) (m : PerItem) (pairs : Tracked)
    → (per_item_with_pairs r txs (m, pairs)).0 ≡ per_item_of r txs m
unfolding per_item_with_pairs per_item_of
per_item_with_pairs_lem r [] m pairs = refl
per_item_with_pairs_lem r (tx ∷ txs) m pairs =
    per_item_with_pairs_lem r txs (add_filtered (apply r tx) m) (note_pairs (apply r tx) pairs)

-- A map that has no list but those of the items.
abbrev pub Holds : List FilteredTransaction → PerItem → Type 0
Holds fs m = (x : ℕ) → (lookup x m ≡ none) ⊎ (lookup x m ≡ some (entries (x ∷ []) fs))

present :
    (es : List UlEntry)
    → ((ltb 0 (length es) ≡ false) × (append_all none es ≡ none))
      ⊎ ((ltb 0 (length es) ≡ true) × (append_all none es ≡ some es))
present [] = inl (refl, refl)
present (e ∷ es) = inr (ground arith, append_all-some (e ∷ []) es)

-- What the second pass has for an item: nothing when it has no entry.
pub per_item_of-cases :
    (r : TwuFilterResult) (txs : List RawTransaction) (x : ℕ)
    → All IsSound (kept_transactions r txs)
    → ((ltb 0 (length (entries (x ∷ []) (kept_transactions r txs))) ≡ false)
        × (lookup x (per_item_of r txs []) ≡ none))
      ⊎ ((ltb 0 (length (entries (x ∷ []) (kept_transactions r txs))) ≡ true)
          × (lookup x (per_item_of r txs []) ≡ some (entries (x ∷ []) (kept_transactions r txs))))
unfolding lookup
per_item_of-cases r txs x h = elim (present (entries (x ∷ []) (kept_transactions r txs))) [
  | inl (e, q) ↦ inl (e, lookup-per_item_of r x txs [] h ∙ q)
  | inr (e, q) ↦ inr (e, lookup-per_item_of r x txs [] h ∙ q)
]

pub per_item_of-Holds :
    (r : TwuFilterResult) (txs : List RawTransaction)
    → All IsSound (kept_transactions r txs)
    → Holds (kept_transactions r txs) (per_item_of r txs [])
per_item_of-Holds r txs h x = elim (per_item_of-cases r txs x h) [
  | inl (e, q) ↦ inl q
  | inr (e, q) ↦ inr q
]
