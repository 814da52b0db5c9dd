-- ===== src/Mining/Database/Cooccurrence.antt =====
-- The structure of co-occurrences that FHM builds while it reads: two items that it rules out are
-- together in no itemset of high utility, when the memory guard refuses it nothing.
use pocket_data_mining.Base.{
  ℕ, ◌+◌, ◌*◌, ◌≤◌, ◌<◌, ◌^◌, ◌≡◌, ◌≢◌, refl, sym, ◌∙◌, ap, Bool, true, false, Option, none, some,
  List, [], ◌∷◌, map, All, ◌⊎◌, inl, inr, arith, ◌||◌, if◌then◌else◌,
}
use pocket_data_mining.Base.Words.{add_i64-nonneg}
use pocket_data_mining.Types.{ItemEntry, RawTransaction}
use pocket_data_mining.Preprocessing.TwuFilter.{FilteredTransaction, TwuFilterResult, apply}
use pocket_data_mining.Mining.MemoryGuard.{MemoryGuard}
use pocket_data_mining.Mining.Eucs.{Tracked, eucs_new, key, get, add_transaction, pruned, can_prune}
use pocket_data_mining.Mining.Eucs.Pairs.{contains, NoRepeats, both, bump_if, get-add_transaction}
use pocket_data_mining.Mining.Algorithms.Lists.{
  PerItem, per_item_with_pairs, note_pairs, add_filtered,
}
use pocket_data_mining.Mining.Database.{
  item_utility, is_found, is_high, DistinctItems, total_tu, cons_kept, kept_transactions, Unique,
  Has, IsDatabase,
}
use pocket_data_mining.Mining.Database.Itemsets.{IsSkippable}
use pocket_data_mining.Mining.Database.Bounds.{
  holding, any_holds, has_all, low-holding, none_holds, has_all-item,
}
use pocket_data_mining.Mining.Database.Granted.{pairs_in, Granted, add_transaction-Granted}

abbrev items_in : FilteredTransaction → List ℕ
items_in f = map (λ e. e.item) f.items

-- All transactions noted, one after the other.
note_all : List FilteredTransaction → Tracked → Tracked
note_all [] s = s
note_all (f ∷ fs) s = note_all fs (add_transaction (items_in f) f.transaction_utility s).0

per_item_with_pairs-note_all :
    (r : TwuFilterResult) (txs : List RawTransaction) (m : PerItem) (s : Tracked)
    → (per_item_with_pairs r txs (m, s)).1 ≡ note_all (kept_transactions r txs) s
unfolding per_item_with_pairs kept_transactions note_all
per_item_with_pairs-note_all r [] m s = refl
per_item_with_pairs-note_all r (tx ∷ txs) m s =
    per_item_with_pairs-note_all r txs (add_filtered (apply r tx) m) (note_pairs (apply r tx) s)
    ∙ go (apply r tx)
  where
    go :
        (o : Option FilteredTransaction)
        → note_all (kept_transactions r txs) (note_pairs o s)
          ≡ note_all (cons_kept o (kept_transactions r txs)) s
    go none = refl
    go (some f) = refl

-- How many pairs the transactions have.
unfoldable pub pairs_of : List FilteredTransaction → ℕ
pairs_of [] = 0
pairs_of (f ∷ fs) = pairs_in (items_in f) + pairs_of fs

-- Both items are there.
abbrev has_both : ℕ → ℕ → List ItemEntry → Bool
has_both c d es = both c d (map (λ e. e.item) es)

shared : ℕ → ℕ → List FilteredTransaction → Option ℕ → Option ℕ
shared c d [] sum = sum
shared c d (f ∷ fs) sum = shared c d fs (bump_if (has_both c d f.items) f.transaction_utility sum)

contains-absent :
    (x : ℕ) (es : List ItemEntry)
    → All (λ d. x ≢ d.item) es
    → contains x (map (λ e. e.item) es) ≡ false
contains-absent x [] h = refl
contains-absent x (e ∷ es) (h, hs) = ground (arith, h, contains-absent x es hs)

DistinctItems-NoRepeats :
    (es : List ItemEntry) → DistinctItems es → NoRepeats (map (λ e. e.item) es)
DistinctItems-NoRepeats [] h = tt
DistinctItems-NoRepeats (e ∷ es) (h, hs) =
    (contains-absent e.item es h, DistinctItems-NoRepeats es hs)

contains-item_utility :
    (x : ℕ) (es : List ItemEntry)
    → is_found (item_utility x es) ≡ true
    → contains x (map (λ e. e.item) es) ≡ true
unfolding item_utility
contains-item_utility x [] h = absurd (cc h)
contains-item_utility x (e ∷ es) h = ground (arith, contains-item_utility x es, h)

granted_all : (r : Tracked × Bool) → r.1 ≡ true → r ≡ (r.0, true)
granted_all (t, true) h = refl
granted_all (t, false) e = absurd (cc e)

get-note_all :
    (c d : ℕ) (fs : List FilteredTransaction) (s : Tracked)
    → c ≢ d
    → All (λ f. DistinctItems f.items) fs
    → s.1.used + 32 * pairs_of fs ≤ s.1.budget
    → s.1.budget < 2 ^ 64
    → get (key c d) (note_all fs s).0 ≡ shared c d fs (get (key c d) s.0)
unfolding note_all shared pairs_of
get-note_all c d [] s ne h room small = refl
get-note_all c d (f ∷ fs) s ne (h, hs) room small =
    let g : Granted (pairs_in (items_in f)) s
        (add_transaction (items_in f) f.transaction_utility s) =
      add_transaction-Granted (items_in f) f.transaction_utility s (omega (arith, room)) small in
    get-note_all c d fs (add_transaction (items_in f) f.transaction_utility s).0 ne hs
      (omega (arith, room, g.1, g.2)) (omega (arith, g.1, small))
    ∙ ap (shared c d fs) (
        get-add_transaction c d f.transaction_utility (items_in f) s
          (add_transaction (items_in f) f.transaction_utility s).0 ne
          (DistinctItems-NoRepeats f.items h) (granted_all _ g.0))

shared-some :
    (c d n : ℕ) (fs : List FilteredTransaction)
    → n + total_tu fs < 2 ^ 63
    → shared c d fs (some n) ≡ some (n + holding (has_both c d) fs)
unfolding shared holding total_tu
shared-some c d n [] h = ap (λ k. some k) (omega arith)
shared-some c d n (f ∷ fs) h = go (has_both c d f.items) (λ k q. shared-some c d k fs q)
  where
    go :
        (b : Bool)
        → ((k : ℕ)
            → k + total_tu fs < 2 ^ 63
            → shared c d fs (some k) ≡ some (k + holding (has_both c d) fs))
        → shared c d fs (bump_if b f.transaction_utility (some n))
          ≡ some (n + ((if b then f.transaction_utility else 0) + holding (has_both c d) fs))
    go true ih =
        ap (λ k. shared c d fs (some k)) (add_i64-nonneg n f.transaction_utility (omega (arith, h)))
        ∙ ih (n + f.transaction_utility) (omega (arith, h))
        ∙ ap (λ k. some k) (omega arith)
    go false ih = ih n (omega (arith, h)) ∙ ap (λ k. some k) (omega arith)

shared-none :
    (c d : ℕ) (fs : List FilteredTransaction)
    → total_tu fs < 2 ^ 63
    → ((any_holds (has_both c d) fs ≡ false) × (shared c d fs none ≡ none))
      ⊎ (shared c d fs none ≡ some (holding (has_both c d) fs))
unfolding shared holding total_tu any_holds
shared-none c d [] h = inl (refl, refl)
shared-none c d (f ∷ fs) h = go (has_both c d f.items) (shared-none c d fs (omega (arith, h)))
  where
    go :
        (b : Bool)
        → ((any_holds (has_both c d) fs ≡ false) × (shared c d fs none ≡ none))
          ⊎ (shared c d fs none ≡ some (holding (has_both c d) fs))
        → (((b || any_holds (has_both c d) fs) ≡ false)
            × (shared c d fs (bump_if b f.transaction_utility none) ≡ none))
          ⊎ (shared c d fs (bump_if b f.transaction_utility none)
              ≡ some ((if b then f.transaction_utility else 0) + holding (has_both c d) fs))
    go true ih = inr (
        ap (λ k. shared c d fs (some k)) (omega (arith, h))
        ∙ shared-some c d f.transaction_utility fs (omega (arith, h)))
    go false (inl e) = inl e
    go false (inr e) = inr (e ∙ ap (λ k. some k) (omega arith))

pruned-IsSkippable :
    (min_utility : ℕ) (fs : List FilteredTransaction) (c d : ℕ)
    → IsDatabase fs
    → min_utility < 2 ^ 63
    → pruned min_utility (shared c d fs none) ≡ true
    → IsSkippable min_utility fs c d
pruned-IsSkippable min_utility fs c d db hm p xs u hc hd = elim (shared-none c d fs db.small) [
  | inl (never, e) ↦ rw (none_holds fs (has_both c d) xs within never) refl
  | inr e ↦
      low-holding min_utility fs (has_both c d) xs db hm u within
        (ap (pruned min_utility) (sym e) ∙ p)
]
  where
    within : (es : List ItemEntry) → has_all xs es ≡ true → has_both c d es ≡ true
    within es h =
        rw
          (
            contains-item_utility c es (has_all-item c xs es hc h),
            contains-item_utility d es (has_all-item d xs es hd h),
          )
          refl

pub can_prune-IsSkippable :
    (r : TwuFilterResult) (txs : List RawTransaction) (guard : MemoryGuard) (min_utility c d : ℕ)
    → IsDatabase (kept_transactions r txs)
    → guard.used + 32 * pairs_of (kept_transactions r txs) ≤ guard.budget
    → guard.budget < 2 ^ 64
    → min_utility < 2 ^ 63
    → c ≢ d
    → can_prune c d min_utility (per_item_with_pairs r txs ([], (eucs_new, guard))).1.0 ≡ true
    → IsSkippable min_utility (kept_transactions r txs) c d
unfolding can_prune get
can_prune-IsSkippable r txs guard min_utility c d db room small hm ne h =
    pruned-IsSkippable min_utility (kept_transactions r txs) c d db hm (
      ap (pruned min_utility) (
        sym (
          ap (λ s. get (key c d) s.0) (per_item_with_pairs-note_all r txs [] (eucs_new, guard))
          ∙ get-note_all c d (kept_transactions r txs) (eucs_new, guard) ne db.distinct room small))
      ∙ h)

-- A pair that FHM skips is in no itemset of high utility among the transactions that the filter leaves.
-- The structure is the one that FHM builds in its second pass, the two items differ, and the guard
-- has 32 bytes left for each pair of items that stand together in such a transaction.
pub can_prune-is_high :
    (r : TwuFilterResult) (txs : List RawTransaction) (guard : MemoryGuard) (min_utility c d : ℕ)
    (xs : List ℕ)
    → IsDatabase (kept_transactions r txs)
    → guard.used + 32 * pairs_of (kept_transactions r txs) ≤ guard.budget
    → guard.budget < 2 ^ 64
    → min_utility < 2 ^ 63
    → c ≢ d
    → Unique xs
    → Has c xs
    → Has d xs
    → can_prune c d min_utility (per_item_with_pairs r txs ([], (eucs_new, guard))).1.0 ≡ true
    → is_high min_utility (kept_transactions r txs) xs ≡ false
can_prune-is_high r txs guard min_utility c d xs db room small hm ne u hc hd h =
    can_prune-IsSkippable r txs guard min_utility c d db room small hm ne h xs u hc hd
