-- ===== src/Preprocessing/TwuFilter/Compute.antt =====
-- What the pass over the transactions computes.
use pocket_data_mining.Base.{
  ℕ, ◌+◌, ◌%◌, ◌≡◌, refl, sym, ◌∙◌, Bool, true, false, not, ◌&&◌, ◌||◌, Option, none, some, List,
  [], ◌∷◌, ◌==◌, keep_if_nil, keep_if_cons, arith, ==→eq, ==-self, Bool-cases, inl, inr,
  if◌then◌else◌, ap,
}
use pocket_data_mining.Base.Assoc.{Assoc, lookup, lookup-insert, Distinct, insert-Distinct}
use native.Mathlib.Nat.{add_assoc}
use pocket_data_mining.Base.Words.{u64_mod, add_i64, lt_i64}
use pocket_data_mining.Types.{ItemEntry, RawTransaction}
use pocket_data_mining.Preprocessing.TwuFilter.{
  or_zero, add_twu, add_items, add_all, retain, compute, reaches,
}

-- The utility that one transaction gives an item: its own, once for each time the item stands in it.
abbrev pub utility_in : ℕ → ℕ → List ItemEntry → ℕ
utility_in item tu [] = 0
utility_in item tu (e ∷ es) = (if e.item == item then tu else 0) + utility_in item tu es

-- The sum of these over a database.
abbrev pub shared_utility : ℕ → List RawTransaction → ℕ
shared_utility item [] = 0
shared_utility item (tx ∷ txs) =
    utility_in item tx.transaction_utility tx.items + shared_utility item txs

abbrev pub stands_in : ℕ → List ItemEntry → Bool
stands_in item [] = false
stands_in item (e ∷ es) = (e.item == item) || stands_in item es

abbrev pub occurs : ℕ → List RawTransaction → Bool
occurs item [] = false
occurs item (tx ∷ txs) = stands_in item tx.items || occurs item txs

-- What is known of an item's sum.
abbrev sum_so_far : ℕ → Bool → Option ℕ
sum_so_far n seen = if seen then some (n % u64_mod) else none

or_rotate : (a b c : Bool) → (b || (a || c)) ≡ ((a || b) || c)
or_rotate true true c = refl
or_rotate true false c = refl
or_rotate false b c = refl

or_false : (a : Bool) → (a || false) ≡ a
or_false true = refl
or_false false = refl

add_twu_same :
    (item i tu n : ℕ) (seen : Bool) (m : Assoc ℕ)
    → i ≡ item
    → (seen ≡ false → n ≡ 0)
    → lookup item m ≡ sum_so_far n seen
    → lookup item (add_twu i tu m) ≡ some ((n + tu) % u64_mod)
unfolding add_twu
add_twu_same item i tu n true m e z h =
    rw (e, lookup-insert item item (add_i64 (or_zero (lookup item m)) tu) m, h, ==-self item)
      (ap (λ k. some k) (omega arith))
add_twu_same item i tu n false m e z h =
    rw (e, lookup-insert item item (add_i64 (or_zero (lookup item m)) tu) m, h, ==-self item)
      (ap (λ k. some ((k + tu) % u64_mod)) (sym (z refl)))

add_twu-lookup :
    (item i tu n : ℕ) (seen : Bool) (m : Assoc ℕ)
    → (seen ≡ false → n ≡ 0)
    → lookup item m ≡ sum_so_far n seen
    → lookup item (add_twu i tu m)
      ≡ sum_so_far (n + (if i == item then tu else 0)) ((i == item) || seen)
unfolding add_twu
add_twu-lookup item i tu n seen m z h = elim (Bool-cases (i == item)) [
  | inl same ↦ rw same (add_twu_same item i tu n seen m (==→eq i item same) z h)
  | inr other ↦
      rw (lookup-insert i item (add_i64 (or_zero (lookup i m)) tu) m, other)
        (h ∙ ap (λ k. sum_so_far k seen) (omega arith))
]

still_zero :
    (item i tu n : ℕ) (seen : Bool)
    → (seen ≡ false → n ≡ 0)
    → ((i == item) || seen) ≡ false
    → n + (if i == item then tu else 0) ≡ 0
still_zero item i tu n seen z h = elim (Bool-cases (i == item)) [
  | inl same ↦ cc
  | inr other ↦ rw other (ap (λ k. k + 0) (z (ap (λ b. b || seen) (sym other) ∙ h)))
]

add_items-lookup :
    (item tu n : ℕ) (seen : Bool) (es : List ItemEntry) (m : Assoc ℕ)
    → (seen ≡ false → n ≡ 0)
    → lookup item m ≡ sum_so_far n seen
    → (lookup item (add_items tu es m)
        ≡ sum_so_far (n + utility_in item tu es) (stands_in item es || seen))
      × ((stands_in item es || seen) ≡ false → n + utility_in item tu es ≡ 0)
unfolding add_items
add_items-lookup item tu n seen [] m z h =
    (h ∙ ap (λ k. sum_so_far k seen) (omega arith), λ e. ap (λ k. k + 0) (z e))
add_items-lookup item tu n seen (e ∷ es) m z h =
    rw
      (
        sym (or_rotate (e.item == item) (stands_in item es) seen),
        sym (add_assoc n (if e.item == item then tu else 0) (utility_in item tu es)),
      )
      (add_items-lookup item tu (n + (if e.item == item then tu else 0)) ((e.item == item) || seen)
        es (add_twu e.item tu m) (still_zero item e.item tu n seen z)
        (add_twu-lookup item e.item tu n seen m z h))

add_all-lookup :
    (item n : ℕ) (seen : Bool) (txs : List RawTransaction) (m : Assoc ℕ)
    → (seen ≡ false → n ≡ 0)
    → lookup item m ≡ sum_so_far n seen
    → lookup item (add_all txs m)
      ≡ sum_so_far (n + shared_utility item txs) (occurs item txs || seen)
unfolding add_all
add_all-lookup item n seen [] m z h = h ∙ ap (λ k. sum_so_far k seen) (omega arith)
add_all-lookup item n seen (tx ∷ txs) m z h =
    let (now, later) = add_items-lookup item tx.transaction_utility n seen tx.items m z h in
    rw
      (
        sym (or_rotate (stands_in item tx.items) (occurs item txs) seen),
        sym (
            add_assoc n (utility_in item tx.transaction_utility tx.items)
              (shared_utility item txs)),
      )
      (add_all-lookup item (n + utility_in item tx.transaction_utility tx.items)
        (stands_in item tx.items || seen) txs (add_items tx.transaction_utility tx.items m) later
        now)

add_all-Distinct : (txs : List RawTransaction) (m : Assoc ℕ) → Distinct m → Distinct (add_all txs m)
unfolding add_all add_items add_twu
add_all-Distinct [] m d = d
add_all-Distinct (tx ∷ txs) m d =
    add_all-Distinct txs (add_items tx.transaction_utility tx.items m)
      (all tx.transaction_utility tx.items m d)
  where
    all : (tu : ℕ) (es : List ItemEntry) (m : Assoc ℕ) → Distinct m → Distinct (add_items tu es m)
    all tu [] m d = d
    all tu (e ∷ es) m d =
        all tu es (add_twu e.item tu m)
          (insert-Distinct e.item (add_i64 (or_zero (lookup e.item m)) tu) m d)

-- What reaches the minimum is kept.
abbrev pub at_least : ℕ → Option ℕ → Option ℕ
at_least min_utility none = none
at_least min_utility (some v) = if lt_i64 v min_utility then none else some v

retain-lookup :
    (item min_utility : ℕ) (m : Assoc ℕ)
    → Distinct m
    → lookup item (retain min_utility m) ≡ at_least min_utility (lookup item m)
unfolding retain lookup
retain-lookup item min_utility [] d = rw (keep_if_nil (reaches min_utility)) refl
retain-lookup item min_utility ((k, v) ∷ m) d =
    rw (keep_if_cons (reaches min_utility) (k, v) m) (elim (Bool-cases (lt_i64 v min_utility)) [
      | inl low ↦ elim (Bool-cases (k == item)) [
        | inl here ↦
            rw (low, here, retain-lookup item min_utility m d.1, sym (==→eq k item here), d.0, low)
              refl
        | inr there ↦ rw (low, there) (retain-lookup item min_utility m d.1)
      ]
      | inr high ↦ elim (Bool-cases (k == item)) [
        | inl here ↦ rw (high, here, high) refl
        | inr there ↦ rw (high, there) (retain-lookup item min_utility m d.1)
      ]
    ])

-- The filter keeps an item exactly if a transaction holds it and the utilities of those that do sum,
-- in i64 arithmetic and once for each time the item stands in them, to the minimum or more; what
-- it keeps with the item is that sum.
pub lookup-compute :
    (item min_utility : ℕ) (txs : List RawTransaction)
    → lookup item (compute (record { min_utility = min_utility }) txs).twu ≡ (
        if occurs item txs && not (lt_i64 (shared_utility item txs % u64_mod) min_utility)
        then some (shared_utility item txs % u64_mod)
        else none)
unfolding compute
lookup-compute item min_utility txs =
    retain-lookup item min_utility (add_all txs []) (add_all-Distinct txs [] tt)
    ∙ ap (at_least min_utility)
        (add_all-lookup item 0 false txs [] (λ _. refl) (unfold lookup in refl))
    ∙ ap (λ n. at_least min_utility (sum_so_far n (occurs item txs || false))) from_zero
    ∙ decide (occurs item txs) (lt_i64 (shared_utility item txs % u64_mod) min_utility) refl
  where
    from_zero : 0 + shared_utility item txs ≡ shared_utility item txs
    from_zero = omega arith

    decide :
        (seen low : Bool)
        → lt_i64 (shared_utility item txs % u64_mod) min_utility ≡ low
        → at_least min_utility (sum_so_far (shared_utility item txs) (seen || false)) ≡ (
            if seen && not (lt_i64 (shared_utility item txs % u64_mod) min_utility)
            then some (shared_utility item txs % u64_mod)
            else none)
    decide true true e = rw e refl
    decide true false e = rw e refl
    decide false low e = refl
