-- ===== src/Mining/Database/Kept.antt =====
-- The filter drops no item of an itemset of high utility, and the lists of the second pass are those of
-- items that it keeps.
use pocket_data_mining.Base.{
  ℕ, ◌%◌, ◌<◌, ◌^◌, ◌≡◌, ◌≢◌, refl, sym, ◌∙◌, ap, Bool, true, false, not, none, some, List, [], ◌∷◌,
  All, Bool-cases, inl, inr, ◌&&◌, ◌==◌, ==→eq, ne→==_false, arith, if◌then◌else◌,
}
use mathlib.Core.Path.{subst}
use pocket_data_mining.Base.Words.{lt_i64, u64_mod}
use pocket_data_mining.Types.{ItemEntry, RawTransaction}
use pocket_data_mining.Preprocessing.TwuFilter.{compute, filter_new, passes, is_some}
use pocket_data_mining.Preprocessing.TwuFilter.Compute
use pocket_data_mining.Preprocessing.TwuFilter.Compute.{
  shared_utility, utility_in, stands_in, lookup-compute,
}
use pocket_data_mining.Mining.Database.{
  item_utility, is_found, is_high, DistinctItems, as_read, IsDatabase, Unique, Has,
}
use pocket_data_mining.Mining.Database.Bounds.{
  holding, any_holds, has_all, holding-le, low-holding, none_holds, has_all-item,
}

abbrev has_item : ℕ → List ItemEntry → Bool
has_item x es = is_found (item_utility x es)

stands_in-has_item : (x : ℕ) (es : List ItemEntry) → stands_in x es ≡ has_item x es
unfolding item_utility
stands_in-has_item x [] = refl
stands_in-has_item x (e ∷ es) = elim (Bool-cases (e.item == x)) [
  | inl here ↦ rw here refl
  | inr there ↦ rw there (stands_in-has_item x es)
]

utility_in_absent :
    (x tu : ℕ) (es : List ItemEntry) → All (λ d. x ≢ d.item) es → utility_in x tu es ≡ 0
utility_in_absent x tu [] h = refl
utility_in_absent x tu (e ∷ es) (h, hs) =
    rw (ne→==_false e.item x (λ q. h (sym q))) (omega (arith, utility_in_absent x tu es hs))

utility_in-has_item :
    (x tu : ℕ) (es : List ItemEntry)
    → DistinctItems es
    → utility_in x tu es ≡ (if has_item x es then tu else 0)
unfolding item_utility
utility_in-has_item x tu [] d = refl
utility_in-has_item x tu (e ∷ es) (d, ds) = elim (Bool-cases (e.item == x)) [
  | inl here ↦ rw here (
      omega (
        arith,
        utility_in_absent x tu es (subst (λ i. All (λ c. i ≢ c.item) es) (==→eq e.item x here) d),
      ))
  | inr there ↦ rw there (omega (arith, utility_in-has_item x tu es ds))
]

-- The transaction-weighted utility of an item is what the transactions that have it carry.
shared_utility-holding :
    (x : ℕ) (txs : List RawTransaction)
    → All (λ f. DistinctItems f.items) (as_read txs)
    → shared_utility x txs ≡ holding (has_item x) (as_read txs)
unfolding holding
shared_utility-holding x [] d = refl
shared_utility-holding x (tx ∷ txs) (d, ds) =
    rw (utility_in-has_item x tx.transaction_utility tx.items d, shared_utility-holding x txs ds)
      refl

occurs-any_holds :
    (x : ℕ) (txs : List RawTransaction)
    → Compute.occurs x txs ≡ any_holds (has_item x) (as_read txs)
unfolding any_holds
occurs-any_holds x [] = refl
occurs-any_holds x (tx ∷ txs) = rw (stands_in-has_item x tx.items, occurs-any_holds x txs) refl

-- The first pass keeps each item of an itemset of high utility of the transactions that it read, whose
-- own utilities cover those of their items and together are a nonnegative i64.
pub high-passes :
    (min_utility x : ℕ) (txs : List RawTransaction) (xs : List ℕ)
    → IsDatabase (as_read txs)
    → min_utility < 2 ^ 63
    → Unique xs
    → Has x xs
    → is_high min_utility (as_read txs) xs ≡ true
    → passes (compute (filter_new min_utility) txs) x ≡ true
unfolding passes
high-passes min_utility x txs xs d hm u hx high =
    rw
      (
        lookup-compute x min_utility txs,
        occurs-any_holds x txs,
        shared_utility-holding x txs d.distinct,
      )
      (go (any_holds (has_item x) (as_read txs)) refl
        (lt_i64 (holding (has_item x) (as_read txs) % u64_mod) min_utility) refl)
  where
    within : (es : List ItemEntry) → has_all xs es ≡ true → has_item x es ≡ true
    within es h = has_all-item x xs es hx h

    clash : {b : Bool} → b ≡ true → b ≡ false → ⊥
    clash p q = cc (p, q)

    small : holding (has_item x) (as_read txs) % u64_mod ≡ holding (has_item x) (as_read txs)
    small = omega (arith, holding-le (has_item x) (as_read txs), d.small)

    go :
        (b : Bool)
        → any_holds (has_item x) (as_read txs) ≡ b
        → (c : Bool) → lt_i64 (holding (has_item x) (as_read txs) % u64_mod) min_utility ≡ c
        → is_some (if b && not c then some (holding (has_item x) (as_read txs) % u64_mod) else none)
          ≡ true
    go true e false k = refl
    go true e true k = absurd (
        clash high (
          low-holding min_utility (as_read txs) (has_item x) xs d hm u within
            (ap (λ n. lt_i64 n min_utility) (sym small) ∙ k)))
    go false e c k =
        absurd (clash high (rw (none_holds (as_read txs) (has_item x) xs within e) refl))
