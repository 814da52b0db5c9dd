-- ===== src/Mining/Database/Subsets.antt =====
-- The itemsets over a list of items: each set of its items once.
use pocket_data_mining.Base.{
  ℕ, ◌≡◌, refl, sym, ◌∙◌, ap, Bool, true, false, List, [], ◌∷◌, ◌++◌, All, Bool-cases, ◌⊎◌, inl,
  inr, ◌==◌, ==→eq, ==-self, if◌then◌else◌, keep_if, keep_if_nil, keep_if_cons,
}
use mathlib.Core.List.{append_assoc}
use mathlib.Core.Path.{subst}
use pocket_data_mining.Mining.Eucs.Pairs.{contains}
use pocket_data_mining.Mining.Database.{itemsets, Unique, Has}
use pocket_data_mining.Mining.Database.Unique.{
  Unique-assoc, Unique-without, Unique-kept, Unique-next,
}
use pocket_data_mining.Mining.Database.SameItems.{SameItems}

abbrev pub HasList : List ℕ → List (List ℕ) → Type 0
HasList xs [] = ⊥
HasList xs (ys ∷ yss) = (ys ≡ xs) ⊎ HasList xs yss

HasList-left : (xs : List ℕ) (yss zss : List (List ℕ)) → HasList xs yss → HasList xs (yss ++ zss)
HasList-left xs [] zss h = elim h [ ]
HasList-left xs (ys ∷ yss) zss (inl e) = inl e
HasList-left xs (ys ∷ yss) zss (inr h) = inr (HasList-left xs yss zss h)

HasList-right : (xs : List ℕ) (yss zss : List (List ℕ)) → HasList xs zss → HasList xs (yss ++ zss)
HasList-right xs [] zss h = h
HasList-right xs (ys ∷ yss) zss h = inr (HasList-right xs yss zss h)

-- Whatever a test picks is one of the itemsets.
itemsets-pick :
    (f : ℕ → Bool) (prefix items : List ℕ)
    → (keep_if f items ≡ []) ⊎ HasList (prefix ++ keep_if f items) (itemsets prefix items)
unfolding itemsets
itemsets-pick f prefix [] = inl (keep_if_nil f)
itemsets-pick f prefix (x ∷ items) =
    subst (λ sub. (sub ≡ []) ⊎ HasList (prefix ++ sub) (itemsets prefix (x ∷ items)))
      (sym (keep_if_cons f x items))
      (go (f x) (itemsets-pick f (prefix ++ x ∷ []) items) (itemsets-pick f prefix items))
  where
    here :
        (keep_if f items ≡ [])
          ⊎ HasList ((prefix ++ x ∷ []) ++ keep_if f items) (itemsets (prefix ++ x ∷ []) items)
        → ((prefix ++ x ∷ []) ≡ (prefix ++ x ∷ keep_if f items))
          ⊎ HasList
              (prefix ++ x ∷ keep_if f items)
              (itemsets (prefix ++ x ∷ []) items ++ itemsets prefix items)
    here (inl e) = inl (ap (λ l. prefix ++ x ∷ l) (sym e))
    here (inr h) = inr (
        HasList-left (prefix ++ x ∷ keep_if f items) (itemsets (prefix ++ x ∷ []) items)
          (itemsets prefix items)
          (subst (λ l. HasList l (itemsets (prefix ++ x ∷ []) items))
            (append_assoc prefix (x ∷ []) (keep_if f items)) h))

    there :
        (keep_if f items ≡ []) ⊎ HasList (prefix ++ keep_if f items) (itemsets prefix items)
        → (keep_if f items ≡ [])
          ⊎ HasList
              (prefix ++ keep_if f items)
              ((prefix ++ x ∷ []) ∷ (itemsets (prefix ++ x ∷ []) items ++ itemsets prefix items))
    there (inl e) = inl e
    there (inr h) = inr (
        inr (
          HasList-right (prefix ++ keep_if f items) (itemsets (prefix ++ x ∷ []) items)
            (itemsets prefix items) h))

    go :
        (b : Bool)
        → (keep_if f items ≡ [])
          ⊎ HasList ((prefix ++ x ∷ []) ++ keep_if f items) (itemsets (prefix ++ x ∷ []) items)
        → (keep_if f items ≡ []) ⊎ HasList (prefix ++ keep_if f items) (itemsets prefix items)
        → ((if b then x ∷ keep_if f items else keep_if f items) ≡ [])
          ⊎ HasList
              (prefix ++ (if b then x ∷ keep_if f items else keep_if f items))
              ((prefix ++ x ∷ []) ∷ (itemsets (prefix ++ x ∷ []) items ++ itemsets prefix items))
    go true h k = inr (here h)
    go false h k = there k

contains-Has : (x : ℕ) (xs : List ℕ) → contains x xs ≡ true → Has x xs
contains-Has x [] h = absurd (cc h)
contains-Has x (y ∷ xs) h = elim (Bool-cases (x == y)) [
  | inl here ↦ inl (sym (==→eq x y here))
  | inr there ↦ inr (contains-Has x xs (rw there at h))
]

Has-contains : (x : ℕ) (xs : List ℕ) → Has x xs → contains x xs ≡ true
Has-contains x [] h = elim h [ ]
Has-contains x (y ∷ xs) (inl e) = rw (e, ==-self x) refl
Has-contains x (y ∷ xs) (inr h) = rw (Has-contains x xs h) (go (x == y))
  where
    go : (b : Bool) → (if b then true else true) ≡ true
    go true = refl
    go false = refl

kept-Has :
    (f : ℕ → Bool) (z : ℕ) (items : List ℕ) → Has z items → f z ≡ true → Has z (keep_if f items)
kept-Has f z [] h q = elim h [ ]
kept-Has f z (x ∷ items) (inl e) q = rw (keep_if_cons f x items, e, q) (inl refl)
kept-Has f z (x ∷ items) (inr h) q = rw (keep_if_cons f x items) (go (f x) (kept-Has f z items h q))
  where
    go :
        (b : Bool)
        → Has z (keep_if f items)
        → Has z (if b then x ∷ keep_if f items else keep_if f items)
    go true k = inr k
    go false k = k

Has-kept : (f : ℕ → Bool) (z : ℕ) (items : List ℕ) → Has z (keep_if f items) → f z ≡ true
Has-kept f z [] h = elim (subst (Has z) (keep_if_nil f) h) [ ]
Has-kept f z (x ∷ items) h =
    go (f x) refl (subst (Has z) (keep_if_cons f x items) h) (Has-kept f z items)
  where
    go :
        (b : Bool)
        → f x ≡ b
        → Has z (if b then x ∷ keep_if f items else keep_if f items)
        → (Has z (keep_if f items) → f z ≡ true)
        → f z ≡ true
    go true e (inl q) ih = ap f (sym q) ∙ e
    go true e (inr q) ih = ih q
    go false e q ih = ih q

-- A set of the items, not empty, is one of the itemsets, in the order of the items.
pub itemsets_complete :
    (items xs : List ℕ) (x : ℕ)
    → Unique items
    → ((z : ℕ) → Has z (x ∷ xs) → Has z items)
    → (ys : List ℕ) × Unique ys × SameItems (x ∷ xs) ys × HasList ys (itemsets [] items)
itemsets_complete items xs x u within =
    (keep_if member items, Unique-kept member [] items u, same, go (itemsets-pick member [] items))
  where
    member : ℕ → Bool
    member z = contains z (x ∷ xs)

    same : SameItems (x ∷ xs) (keep_if member items)
    same = record {
      to = λ z h. kept-Has member z items (within z h) (Has-contains z (x ∷ xs) h);
      back = λ z h. contains-Has z (x ∷ xs) (Has-kept member z items h);
    }

    go :
        (keep_if member items ≡ []) ⊎ HasList (keep_if member items) (itemsets [] items)
        → HasList (keep_if member items) (itemsets [] items)
    go (inl e) = elim (subst (Has x) e (same.to x (inl refl))) [ ]
    go (inr h) = h

pub All-append :
    (K : List ℕ → Type 0) (yss zss : List (List ℕ)) → All K yss → All K zss → All K (yss ++ zss)
All-append K [] zss h k = k
All-append K (ys ∷ yss) zss (h, hs) k = (h, All-append K yss zss hs k)

pub itemsets-Unique :
    (prefix items : List ℕ) → Unique (prefix ++ items) → All Unique (itemsets prefix items)
unfolding itemsets
itemsets-Unique prefix [] u = tt
itemsets-Unique prefix (x ∷ items) u = (
  Unique-next prefix x items u,
  All-append Unique (itemsets (prefix ++ x ∷ []) items) (itemsets prefix items)
      (itemsets-Unique (prefix ++ x ∷ []) items (Unique-assoc prefix x items u))
      (itemsets-Unique prefix items (Unique-without prefix x items u)),
)
