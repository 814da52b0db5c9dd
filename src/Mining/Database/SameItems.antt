-- ===== src/Mining/Database/SameItems.antt =====
-- Itemsets as sets: two lists with the same items have the same utility.
use pocket_data_mining.Base.{
  ℕ, ◌≡◌, ◌≢◌, refl, sym, ◌∙◌, ap, Option, none, some, List, [], ◌∷◌, All, Bool-cases, ◌⊎◌, inl,
  inr, ◌==◌, ==→eq, ==_false→ne, arith, if◌then◌else◌,
}
use mathlib.Core.Path.{subst}
use pocket_data_mining.Types.{ItemEntry}
use pocket_data_mining.Preprocessing.TwuFilter.{FilteredTransaction}
use pocket_data_mining.Mining.Database.{
  item_utility, add_some, utility_of, add_found, utility_from, occurs, is_high, Unique, Has,
}
use pocket_data_mining.Mining.Database.Entries.{add_some_assoc}

pub record SameItems (xs ys : List ℕ) : Type 0 where
  pub to : (x : ℕ) → Has x xs → Has x ys
  pub back : (x : ℕ) → Has x ys → Has x xs

abbrev pub Differ : List ℕ → List ℕ → Type 0
Differ xs ys = SameItems xs ys → ⊥

drop_from : ℕ → List ℕ → List ℕ
drop_from x [] = []
drop_from x (y ∷ ys) = if y == x then ys else y ∷ drop_from x ys

drop_from-Has : (x z : ℕ) (ys : List ℕ) → Has z (drop_from x ys) → Has z ys
unfolding drop_from
drop_from-Has x z [] h = elim h [ ]
drop_from-Has x z (y ∷ ys) h = elim (Bool-cases (y == x)) [
  | inl here ↦ inr (rw here at h)
  | inr there ↦ go (rw there at h) (drop_from-Has x z ys)
]
  where
    go : (y ≡ z) ⊎ Has z (drop_from x ys) → (Has z (drop_from x ys) → Has z ys) → Has z (y ∷ ys)
    go (inl e) ih = inl e
    go (inr k) ih = inr (ih k)

Has-drop_from : (x z : ℕ) (ys : List ℕ) → x ≢ z → Has z ys → Has z (drop_from x ys)
unfolding drop_from
Has-drop_from x z [] ne h = elim h [ ]
Has-drop_from x z (y ∷ ys) ne h = elim (Bool-cases (y == x)) [
  | inl here ↦ rw here (past h (==→eq y x here))
  | inr there ↦ rw there (go h (Has-drop_from x z ys ne))
]
  where
    past : Has z (y ∷ ys) → y ≡ x → Has z ys
    past (inl e) q = absurd (ne (sym q ∙ e))
    past (inr k) q = k

    go : Has z (y ∷ ys) → (Has z ys → Has z (drop_from x ys)) → (y ≡ z) ⊎ Has z (drop_from x ys)
    go (inl e) ih = inl e
    go (inr k) ih = inr (ih k)

All_Has : (x z : ℕ) (ys : List ℕ) → All (λ y. x ≢ y) ys → Has z ys → x ≢ z
All_Has x z [] h k = elim k [ ]
All_Has x z (y ∷ ys) (h, hs) (inl e) = λ q. h (q ∙ sym e)
All_Has x z (y ∷ ys) (h, hs) (inr k) = All_Has x z ys hs k

drop_from_gone : (x : ℕ) (ys : List ℕ) → Unique ys → Has x (drop_from x ys) → ⊥
unfolding drop_from
drop_from_gone x [] u h = elim h [ ]
drop_from_gone x (y ∷ ys) (u, us) h = elim (Bool-cases (y == x)) [
  | inl here ↦ All_Has y x ys u (rw here at h) (==→eq y x here)
  | inr there ↦ go (rw there at h) (==_false→ne y x there) (drop_from_gone x ys us)
]
  where
    go : (y ≡ x) ⊎ Has x (drop_from x ys) → y ≢ x → (Has x (drop_from x ys) → ⊥) → ⊥
    go (inl e) ne ih = ne e
    go (inr k) ne ih = ih k

drop_from-All : (x : ℕ) (K : ℕ → Type 0) (ys : List ℕ) → All K ys → All K (drop_from x ys)
unfolding drop_from
drop_from-All x K [] h = tt
drop_from-All x K (y ∷ ys) (h, hs) = elim (Bool-cases (y == x)) [
  | inl here ↦ rw here hs
  | inr there ↦ rw there (h, drop_from-All x K ys hs)
]

drop_from-Unique : (x : ℕ) (ys : List ℕ) → Unique ys → Unique (drop_from x ys)
unfolding drop_from
drop_from-Unique x [] u = tt
drop_from-Unique x (y ∷ ys) (u, us) = elim (Bool-cases (y == x)) [
  | inl here ↦ rw here us
  | inr there ↦ rw there (drop_from-All x (λ z. y ≢ z) ys u, drop_from-Unique x ys us)
]

add_some_comm : (a b : Option ℕ) → add_some a b ≡ add_some b a
add_some_comm (some a) (some b) = ap (λ u. some u) (omega arith)
add_some_comm (some a) none = refl
add_some_comm none (some b) = refl
add_some_comm none none = refl

utility_of_pull :
    (x : ℕ) (ys : List ℕ) (es : List ItemEntry)
    → Has x ys
    → utility_of ys es ≡ add_some (item_utility x es) (utility_of (drop_from x ys) es)
unfolding utility_of drop_from
utility_of_pull x [] es h = elim h [ ]
utility_of_pull x (y ∷ ys) es h = elim (Bool-cases (y == x)) [
  | inl here ↦ rw here (ap (λ i. add_some (item_utility i es) (utility_of ys es)) (==→eq y x here))
  | inr there ↦ rw there (
      ap (λ o. add_some (item_utility y es) o)
        (utility_of_pull x ys es (past (==_false→ne y x there) h))
      ∙ add_some_assoc (item_utility y es) (item_utility x es) (utility_of (drop_from x ys) es)
      ∙ ap (λ o. add_some o (utility_of (drop_from x ys) es))
          (add_some_comm (item_utility y es) (item_utility x es))
      ∙ sym
          (add_some_assoc (item_utility x es) (item_utility y es) (utility_of (drop_from x ys) es)))
]
  where
    past : y ≢ x → Has x (y ∷ ys) → Has x ys
    past ne (inl e) = absurd (ne e)
    past ne (inr k) = k

SameItems-drop :
    (x : ℕ) (xs ys : List ℕ)
    → Unique (x ∷ xs)
    → Unique ys
    → SameItems (x ∷ xs) ys
    → SameItems xs (drop_from x ys)
SameItems-drop x xs ys (u, us) v same = record {
  to = λ z h. Has-drop_from x z ys (All_Has x z xs u h) (same.to z (inr h));
  back = λ z h. go z h (same.back z (drop_from-Has x z ys h));
}
  where
    go : (z : ℕ) → Has z (drop_from x ys) → (x ≡ z) ⊎ Has z xs → Has z xs
    go z h (inl e) = absurd (drop_from_gone x ys v (subst (λ w. Has w (drop_from x ys)) (sym e) h))
    go z h (inr k) = k

utility_of-SameItems :
    (xs ys : List ℕ) (es : List ItemEntry)
    → Unique xs
    → Unique ys
    → SameItems xs ys
    → utility_of xs es ≡ utility_of ys es
unfolding utility_of
utility_of-SameItems [] [] es u v same = refl
utility_of-SameItems [] (y ∷ ys) es u v same = absurd (same.back y (inl refl))
utility_of-SameItems (x ∷ xs) ys es (u, us) v same =
    ap (λ o. add_some (item_utility x es) o)
      (utility_of-SameItems xs (drop_from x ys) es us (drop_from-Unique x ys v)
        (SameItems-drop x xs ys (u, us) v same))
    ∙ sym (utility_of_pull x ys es (same.to x (inl refl)))

utility_from-SameItems :
    (acc : ℕ) (xs ys : List ℕ) (fs : List FilteredTransaction)
    → Unique xs
    → Unique ys
    → SameItems xs ys
    → utility_from acc xs fs ≡ utility_from acc ys fs
unfolding utility_from
utility_from-SameItems acc xs ys [] u v same = refl
utility_from-SameItems acc xs ys (f ∷ fs) u v same =
    ap (λ o. utility_from (add_found acc o) xs fs) (utility_of-SameItems xs ys f.items u v same)
    ∙ utility_from-SameItems (add_found acc (utility_of ys f.items)) xs ys fs u v same

occurs-SameItems :
    (xs ys : List ℕ) (fs : List FilteredTransaction)
    → Unique xs
    → Unique ys
    → SameItems xs ys
    → occurs xs fs ≡ occurs ys fs
unfolding occurs
occurs-SameItems xs ys [] u v same = refl
occurs-SameItems xs ys (f ∷ fs) u v same =
    rw (utility_of-SameItems xs ys f.items u v same, occurs-SameItems xs ys fs u v same) refl

-- Whether an itemset is of high utility does not depend on the order of its items.
pub is_high-SameItems :
    (min_utility : ℕ) (fs : List FilteredTransaction) (xs ys : List ℕ)
    → Unique xs
    → Unique ys
    → SameItems xs ys
    → is_high min_utility fs xs ≡ is_high min_utility fs ys
is_high-SameItems min_utility fs xs ys u v same =
    rw (occurs-SameItems xs ys fs u v same, utility_from-SameItems 0 xs ys fs u v same) refl
