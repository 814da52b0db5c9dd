-- ===== src/Mining/Eucs/Complete.antt =====
-- What a structure of mining/components/eucs.rs prunes: after a build that the guard granted to its
-- end, and after one that the guard refused at once.
use pocket_data_mining.Base.{
  ℕ, ◌+◌, ◌<◌, ◌^◌, ◌≡◌, ◌≢◌, refl, ap, ◌∙◌, Bool, true, false, Option, none, some, List, [], ◌∷◌,
  arith, All,
}
use pocket_data_mining.Base.Words.{lt_i64}
use pocket_data_mining.Types.{RawTransaction}
use pocket_data_mining.Mining.MemoryGuard.{MemoryGuard, try_alloc, try_alloc_lem}
use pocket_data_mining.Mining.Eucs.{
  Eucs, Tracked, eucs_new, key, get, add_pair, add_row, add_transaction, and_then, items_of, build,
  pruned, can_prune,
}
use pocket_data_mining.Mining.Eucs.Pairs.{
  NoRepeats, both, bump_if, and_then-inv, get-add_transaction,
}

-- The utility of the transactions that hold both items, summed in their order; none where no
-- transaction holds both.
unfoldable pub shared_utility : ℕ → ℕ → List RawTransaction → Option ℕ → Option ℕ
shared_utility c d [] sum = sum
shared_utility c d (tx ∷ txs) sum =
    shared_utility c d txs (bump_if (both c d (items_of tx)) tx.transaction_utility sum)

-- Too low for the minimum, or never seen together.
abbrev pub low_or_absent : ℕ → Option ℕ → Bool
low_or_absent min_utility none = true
low_or_absent min_utility (some tu) = lt_i64 tu min_utility

pruned-low_or_absent :
    (min_utility : ℕ) (sum : Option ℕ) → pruned min_utility sum ≡ low_or_absent min_utility sum
pruned-low_or_absent min_utility none = refl
pruned-low_or_absent min_utility (some tu) = refl

get-build :
    (c d : ℕ) (txs : List RawTransaction) (s t : Tracked)
    → c ≢ d
    → All (λ tx. NoRepeats (items_of tx)) txs
    → build txs s ≡ (t, true)
    → get (key c d) t.0 ≡ shared_utility c d txs (get (key c d) s.0)
unfolding build shared_utility
get-build c d [] s t ne once e = ground arith
get-build c d (tx ∷ txs) s t ne once e =
    let (r, first, later) =
      and_then-inv (build txs) (add_transaction (items_of tx) tx.transaction_utility s) t e in
    get-build c d txs r t ne once.1 later
    ∙ ap (shared_utility c d txs)
        (get-add_transaction c d tx.transaction_utility (items_of tx) s r ne once.0 first)

-- A build that the guard granted to its end, over transactions that list no item twice, prunes a
-- pair of two different items exactly when no transaction holds both or the utilities of those
-- that do sum, in i64 arithmetic, to less than the minimum.
pub can_prune-build :
    (c d min_utility : ℕ) (txs : List RawTransaction) (guard : MemoryGuard) (t : Tracked)
    → c ≢ d
    → All (λ tx. NoRepeats (items_of tx)) txs
    → build txs (eucs_new, guard) ≡ (t, true)
    → can_prune c d min_utility t.0 ≡ low_or_absent min_utility (shared_utility c d txs none)
unfolding can_prune get
can_prune-build c d min_utility txs guard t ne once e =
    ap (pruned min_utility) (get-build c d txs (eucs_new, guard) t ne once e)
    ∙ pruned-low_or_absent min_utility (shared_utility c d txs none)

-- The order of the two items has no effect on whether their pair is pruned.
can_prune_comm :
    (x y min_utility : ℕ) (m : Eucs) → can_prune x y min_utility m ≡ can_prune y x min_utility m
unfolding can_prune
can_prune_comm x y min_utility m = ap (λ k. pruned min_utility (get k m)) swap
  where
    swap : key x y ≡ key y x
    swap = ground arith

module _ (guard : MemoryGuard) (full : guard.budget < guard.used + 32)
    (fits : guard.used + 32 < 2 ^ 64) where
  refuses : try_alloc 32 guard ≡ (guard, false)
  refuses = ground (arith, try_alloc_lem 32 guard fits)

  -- The first pair is refused, which stops the loops.
  refused_transaction :
      (xs : List ℕ) (tu : ℕ) → (add_transaction xs tu (eucs_new, guard)).0 ≡ (eucs_new, guard)
  unfolding add_transaction add_row add_pair get
  refused_transaction [] tu = refl
  refused_transaction (x ∷ []) tu = refl
  refused_transaction (x ∷ y ∷ ys) tu = rw refuses refl

  go_on :
      (rest : Tracked → Tracked × Bool) (r : Tracked × Bool)
      → r.0 ≡ (eucs_new, guard)
      → (rest (eucs_new, guard)).0 ≡ (eucs_new, guard)
      → (and_then rest r).0 ≡ (eucs_new, guard)
  go_on rest (s, true) e k = ap (λ z. (rest z).0) e ∙ k
  go_on rest (s, false) e k = e

  build-refused : (txs : List RawTransaction) → (build txs (eucs_new, guard)).0 ≡ (eucs_new, guard)
  unfolding build
  build-refused [] = refl
  build-refused (tx ∷ txs) =
      go_on (build txs) (add_transaction (items_of tx) tx.transaction_utility (eucs_new, guard))
        (refused_transaction (items_of tx) tx.transaction_utility) (build-refused txs)

-- When the guard has no 32 bytes left, and its counter does not overflow, the structure that is
-- built prunes every pair, whatever the transactions and the minimum.
pub can_prune-build_refused :
    (x y min_utility : ℕ) (txs : List RawTransaction) (guard : MemoryGuard)
    → guard.budget < guard.used + 32
    → guard.used + 32 < 2 ^ 64
    → can_prune x y min_utility (build txs (eucs_new, guard)).0.0 ≡ true
unfolding can_prune get
can_prune-build_refused x y min_utility txs guard full fits =
    ap (λ s. pruned min_utility (get (key x y) s.0)) (build-refused guard full fits txs)
