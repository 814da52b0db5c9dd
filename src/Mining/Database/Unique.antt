-- ===== src/Mining/Database/Unique.antt =====
-- Itemsets in which no item stands twice, and the items that an itemset has.
use pocket_data_mining.Base.{
  ℕ, ◌≢◌, refl, sym, Bool, List, [], ◌∷◌, ◌++◌, All, keep_if, keep_if_nil, keep_if_cons, Bool-cases,
  inl, inr,
}
use mathlib.Core.List.{append_assoc}
use mathlib.Core.Path.{subst}
use pocket_data_mining.Mining.Database.{Unique, Has}

pub Has-snoc : (x y : ℕ) (xs : List ℕ) → Has x xs → Has x (xs ++ y ∷ [])
Has-snoc x y [] h = elim h [ ]
Has-snoc x y (z ∷ xs) (inl e) = inl e
Has-snoc x y (z ∷ xs) (inr h) = inr (Has-snoc x y xs h)

pub Has-last : (y : ℕ) (xs : List ℕ) → Has y (xs ++ y ∷ [])
Has-last y [] = inl refl
Has-last y (x ∷ xs) = inr (Has-last y xs)

pub Unique-assoc :
    (p : List ℕ) (z : ℕ) (items : List ℕ)
    → Unique (p ++ z ∷ items)
    → Unique ((p ++ z ∷ []) ++ items)
Unique-assoc p z items h = subst Unique (sym (append_assoc p (z ∷ []) items)) h

All-without :
    (x : ℕ) (p : List ℕ) (z : ℕ) (items : List ℕ)
    → All (λ y. x ≢ y) (p ++ z ∷ items)
    → All (λ y. x ≢ y) (p ++ items)
All-without x [] z items (h, hs) = hs
All-without x (y ∷ p) z items (h, hs) = (h, All-without x p z items hs)

pub Unique-without :
    (p : List ℕ) (z : ℕ) (items : List ℕ) → Unique (p ++ z ∷ items) → Unique (p ++ items)
Unique-without [] z items (h, hs) = hs
Unique-without (x ∷ p) z items (h, hs) = (All-without x p z items h, Unique-without p z items hs)

pub Unique-kept :
    (f : ℕ → Bool) (p items : List ℕ) → Unique (p ++ items) → Unique (p ++ keep_if f items)
Unique-kept f p [] h = rw (keep_if_nil f) h
Unique-kept f p (z ∷ items) h = rw (keep_if_cons f z items) (elim (Bool-cases (f z)) [
  | inl e ↦ rw e (
      subst Unique (append_assoc p (z ∷ []) (keep_if f items))
        (Unique-kept f (p ++ z ∷ []) items (Unique-assoc p z items h)))
  | inr e ↦ rw e (Unique-kept f p items (Unique-without p z items h))
])

All-first : (x : ℕ) (p items : List ℕ) → All (λ y. x ≢ y) (p ++ items) → All (λ y. x ≢ y) p
All-first x [] items h = tt
All-first x (y ∷ p) items (h, hs) = (h, All-first x p items hs)

Unique-first : (p items : List ℕ) → Unique (p ++ items) → Unique p
Unique-first [] items h = tt
Unique-first (x ∷ p) items (h, hs) = (All-first x p items h, Unique-first p items hs)

pub Unique-next :
    (p : List ℕ) (z : ℕ) (items : List ℕ) → Unique (p ++ z ∷ items) → Unique (p ++ z ∷ [])
Unique-next p z items h = Unique-first (p ++ z ∷ []) items (Unique-assoc p z items h)

All-at : (x : ℕ) (p : List ℕ) (z : ℕ) (items : List ℕ) → All (λ y. x ≢ y) (p ++ z ∷ items) → x ≢ z
All-at x [] z items (h, hs) = h
All-at x (y ∷ p) z items (h, hs) = All-at x p z items hs

pub Unique-cross :
    (x : ℕ) (p : List ℕ) (z : ℕ) (items : List ℕ) → Unique (p ++ z ∷ items) → Has x p → x ≢ z
Unique-cross x [] z items h k = elim k [ ]
Unique-cross x (y ∷ p) z items (h, hs) (inl e) = subst (λ w. w ≢ z) e (All-at y p z items h)
Unique-cross x (y ∷ p) z items (h, hs) (inr k) = Unique-cross x p z items hs k
