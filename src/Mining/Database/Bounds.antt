-- ===== src/Mining/Database/Bounds.antt =====
-- The utility of an itemset is no more than the utilities of the transactions that hold it.
use pocket_data_mining.Base.{
  ℕ, ◌+◌, ◌≤◌, ◌<◌, ◌^◌, ◌≡◌, ◌≢◌, refl, sym, ◌∙◌, ap, Bool, true, false, Option, none, some, List,
  [], ◌∷◌, All, Bool-cases, inl, inr, ◌==◌, ==→eq, ne→==_false, arith, if◌then◌else◌, ◌||◌,
}
use mathlib.Core.Option.{some-injective}
use pocket_data_mining.Base.Words.{add_i64, add_i64-nonneg, lt_i64}
use pocket_data_mining.Types.{ItemEntry}
use pocket_data_mining.Preprocessing.TwuFilter.{FilteredTransaction}
use pocket_data_mining.Mining.Database.{
  item_utility, rest_utility, add_some, utility_of, add_found, utility_from, is_found, occurs,
  is_high, total_tu, Unique, Has, IsDatabase,
}

-- The items without the first entry of one.
drop_item : ℕ → List ItemEntry → List ItemEntry
drop_item x [] = []
drop_item x (e ∷ es) = if e.item == x then es else e ∷ drop_item x es

item_utility-drop_item :
    (x y : ℕ) (es : List ItemEntry) → x ≢ y → item_utility y (drop_item x es) ≡ item_utility y es
unfolding item_utility drop_item
item_utility-drop_item x y [] ne = refl
item_utility-drop_item x y (e ∷ es) ne = elim (Bool-cases (e.item == x)) [
  | inl here ↦ rw (here, ne→==_false e.item y (λ q. ne (sym (==→eq e.item x here) ∙ q))) refl
  | inr there ↦
      rw there
        (ap (λ o. if e.item == y then some e.utility else o) (item_utility-drop_item x y es ne))
]

rest-drop_item :
    (x : ℕ) (es : List ItemEntry) (u : ℕ)
    → item_utility x es ≡ some u
    → u + rest_utility (drop_item x es) ≡ rest_utility es
unfolding item_utility drop_item rest_utility
rest-drop_item x [] u h = absurd (cc h)
rest-drop_item x (e ∷ es) u h = elim (Bool-cases (e.item == x)) [
  | inl here ↦
      rw here (ap (λ v. v + rest_utility es) (sym (some-injective e.utility u (rw here at h))))
  | inr there ↦ rw there (omega (arith, rest-drop_item x es u (rw there at h)))
]

rest-drop_item-le : (x : ℕ) (es : List ItemEntry) → rest_utility (drop_item x es) ≤ rest_utility es
unfolding drop_item rest_utility
rest-drop_item-le x [] = omega arith
rest-drop_item-le x (e ∷ es) = elim (Bool-cases (e.item == x)) [
  | inl here ↦ rw here (omega arith)
  | inr there ↦ rw there (omega (arith, rest-drop_item-le x es))
]

utility_of-drop_item :
    (x : ℕ) (xs : List ℕ) (es : List ItemEntry)
    → All (λ y. x ≢ y) xs
    → utility_of xs (drop_item x es) ≡ utility_of xs es
unfolding utility_of
utility_of-drop_item x [] es h = refl
utility_of-drop_item x (y ∷ xs) es (h, hs) =
    rw (item_utility-drop_item x y es h, utility_of-drop_item x xs es hs) refl

pub utility_of-le :
    (xs : List ℕ) (es : List ItemEntry) (u : ℕ)
    → Unique xs
    → rest_utility es < 2 ^ 63
    → utility_of xs es ≡ some u
    → u ≤ rest_utility es
unfolding utility_of
utility_of-le [] es u h small e = omega (arith, some-injective 0 u e)
utility_of-le (x ∷ xs) es u (h, hs) small e =
    go (item_utility x es) (utility_of xs es) e (rest-drop_item x es) (λ v q.
      utility_of-le xs (drop_item x es) v hs (omega (arith, rest-drop_item-le x es, small))
        (utility_of-drop_item x xs es h ∙ q))
  where
    go :
        (o p : Option ℕ)
        → add_some o p ≡ some u
        → ((v : ℕ) → o ≡ some v → v + rest_utility (drop_item x es) ≡ rest_utility es)
        → ((v : ℕ) → p ≡ some v → v ≤ rest_utility (drop_item x es))
        → u ≤ rest_utility es
    go none p q f g = absurd (cc q)
    go (some a) none q f g = absurd (cc q)
    go (some a) (some b) q f g =
        omega (arith, some-injective (add_i64 a b) u q, f a refl, g b refl, small)

-- The utilities of the transactions whose items pass a test, and whether any do.
unfoldable pub holding : (List ItemEntry → Bool) → List FilteredTransaction → ℕ
holding holds [] = 0
holding holds (f ∷ fs) = (if holds f.items then f.transaction_utility else 0) + holding holds fs

unfoldable pub any_holds : (List ItemEntry → Bool) → List FilteredTransaction → Bool
any_holds holds [] = false
any_holds holds (f ∷ fs) = holds f.items || any_holds holds fs

abbrev pub has_all : List ℕ → List ItemEntry → Bool
has_all xs es = is_found (utility_of xs es)

pub holding-le :
    (holds : List ItemEntry → Bool) (fs : List FilteredTransaction) → holding holds fs ≤ total_tu fs
unfolding holding total_tu
holding-le holds [] = omega arith
holding-le holds (f ∷ fs) = go (holds f.items) (holding-le holds fs)
  where
    go :
        (b : Bool)
        → holding holds fs ≤ total_tu fs
        → (if b then f.transaction_utility else 0) + holding holds fs
          ≤ f.transaction_utility + total_tu fs
    go true h = omega arith
    go false h = omega arith

pub utility_from-le :
    (acc : ℕ) (xs : List ℕ) (fs : List FilteredTransaction)
    → Unique xs
    → All (λ f. rest_utility f.items ≤ f.transaction_utility) fs
    → acc + total_tu fs < 2 ^ 63
    → utility_from acc xs fs ≤ acc + holding (has_all xs) fs
unfolding utility_from holding total_tu
utility_from-le acc xs [] u h small = omega arith
utility_from-le acc xs (f ∷ fs) u (h, hs) small =
    go (utility_of xs f.items) (λ v q. utility_of-le xs f.items v u (omega (arith, h, small)) q)
      (λ a k. utility_from-le a xs fs u hs k)
  where
    go :
        (o : Option ℕ)
        → ((v : ℕ) → o ≡ some v → v ≤ rest_utility f.items)
        → ((a : ℕ) → a + total_tu fs < 2 ^ 63 → utility_from a xs fs ≤ a + holding (has_all xs) fs)
        → utility_from (add_found acc o) xs fs
          ≤ acc + ((if is_found o then f.transaction_utility else 0) + holding (has_all xs) fs)
    go none k ih = omega (arith, ih acc (omega (arith, small)))
    go (some v) k ih =
        rw (add_i64-nonneg acc v (omega (arith, k v refl, h, small)))
          (omega (arith, ih (acc + v) (omega (arith, k v refl, h, small)), k v refl, h))

pub holding_mono :
    (p q : List ItemEntry → Bool) (fs : List FilteredTransaction)
    → ((es : List ItemEntry) → p es ≡ true → q es ≡ true)
    → holding p fs ≤ holding q fs
unfolding holding
holding_mono p q [] h = omega arith
holding_mono p q (f ∷ fs) h = go (p f.items) (q f.items) (h f.items) (holding_mono p q fs h)
  where
    go :
        (b c : Bool)
        → (b ≡ true → c ≡ true)
        → holding p fs ≤ holding q fs
        → (if b then f.transaction_utility else 0) + holding p fs
          ≤ (if c then f.transaction_utility else 0) + holding q fs
    go false false k ih = omega arith
    go false true k ih = omega arith
    go true true k ih = omega arith
    go true false k ih = absurd (cc (k refl))

-- What the transactions of some wider kind carry bounds the utility of an itemset.
pub low-holding :
    (min_utility : ℕ) (fs : List FilteredTransaction) (q : List ItemEntry → Bool) (xs : List ℕ)
    → IsDatabase fs
    → min_utility < 2 ^ 63
    → Unique xs
    → ((es : List ItemEntry) → has_all xs es ≡ true → q es ≡ true)
    → lt_i64 (holding q fs) min_utility ≡ true
    → is_high min_utility fs xs ≡ false
low-holding min_utility fs q xs d hm u h low = ground (
  arith,
  utility_from-le 0 xs fs u d.covered (omega (arith, d.small)),
  holding_mono (has_all xs) q fs h,
  holding-le q fs,
  d.small,
  hm,
  low,
)

pub none_holds :
    (fs : List FilteredTransaction) (q : List ItemEntry → Bool) (xs : List ℕ)
    → ((es : List ItemEntry) → has_all xs es ≡ true → q es ≡ true)
    → any_holds q fs ≡ false
    → occurs xs fs ≡ false
unfolding any_holds occurs
none_holds [] q xs h k = refl
none_holds (f ∷ fs) q xs h k =
    go (has_all xs f.items) (q f.items) (h f.items) k (none_holds fs q xs h)
  where
    go :
        (b c : Bool)
        → (b ≡ true → c ≡ true)
        → (c || any_holds q fs) ≡ false
        → (any_holds q fs ≡ false → occurs xs fs ≡ false)
        → (b || occurs xs fs) ≡ false
    go false false i e ih = ih e
    go false true i e ih = absurd (cc e)
    go true true i e ih = absurd (cc e)
    go true false i e ih = absurd (cc (i refl))

-- A transaction that has all of an itemset has each of its items.
pub has_all-item :
    (x : ℕ) (xs : List ℕ) (es : List ItemEntry)
    → Has x xs
    → has_all xs es ≡ true
    → is_found (item_utility x es) ≡ true
unfolding utility_of
has_all-item x [] es h k = elim h [ ]
has_all-item x (y ∷ xs) es h k =
    go (item_utility y es) refl (utility_of xs es) h k (λ c q. has_all-item x xs es c q)
  where
    go :
        (o : Option ℕ)
        → item_utility y es ≡ o
        → (p : Option ℕ) → Has x (y ∷ xs)
        → is_found (add_some o p) ≡ true
        → (Has x xs → is_found p ≡ true → is_found (item_utility x es) ≡ true)
        → is_found (item_utility x es) ≡ true
    go none e p c q ih = absurd (cc q)
    go (some a) e none c q ih = absurd (cc q)
    go (some a) e (some b) (inl c) q ih = ap is_found (ap (λ i. item_utility i es) (sym c) ∙ e)
    go (some a) e (some b) (inr c) q ih = ih c refl
