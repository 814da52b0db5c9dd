-- ===== src/Base/Sort.antt =====
-- slice::sort_by_key and sort: a stable sort by a test that says which of two comes strictly first.
use Prim.Native.Nat.{ℕ, zero, suc}
use mathlib.Core.Path.{◌≡◌, refl}
use mathlib.Core.Logic.{◌⊎◌, inl, inr}
use mathlib.Core.Bool.{Bool, true, false}
use mathlib.Core.List.{List, [], ◌∷◌}
use native.Mathlib.Omega.{arith}
use pocket_data_mining.Base.Lists.{length, drop, All}
use pocket_data_mining.Base.Tests.{if◌then◌else◌, Bool-cases}

-- A relation of each element to all that follow.
abbrev pub Pairs {ℓ} : {A : Type ℓ} → (A → A → Type 0) → List A → Type 0
Pairs R [] = Unit
Pairs R (x ∷ xs) = All (R x) xs × Pairs R xs

pub Pairs-map {ℓ} :
    {A : Type ℓ}
    → (R S : A → A → Type 0) (xs : List A) → ((x y : A) → R x y → S x y)
    → Pairs R xs
    → Pairs S xs
Pairs-map R S [] f h = tt
Pairs-map {A = A} R S (x ∷ xs) f (h, hs) = (go xs h, Pairs-map R S xs f hs)
  where
    go : (ys : List A) → All (R x) ys → All (S x) ys
    go [] k = tt
    go (y ∷ ys) (k, ks) = (f x y k, go ys ks)

-- Some element has the key.
abbrev pub HasKey {ℓ} : {A : Type ℓ} → (A → ℕ) → ℕ → List A → Type 0
HasKey f k [] = ⊥
HasKey f k (x ∷ xs) = (f x ≡ k) ⊎ HasKey f k xs

module _ {ℓ} {A : Type ℓ} (before : A → A → Bool) where
  unfoldable pub place : A → List A → List A
  place x [] = x ∷ []
  place x (y ∷ ys) = let rest = place x ys in if before y x then y ∷ rest else x ∷ y ∷ ys

  unfoldable pub sort_by : List A → List A
  unfolding place
  sort_by [] = []
  sort_by (x ∷ xs) = place x (sort_by xs)

  pub length-place : (x : A) (ys : List A) → length (place x ys) ≡ suc (length ys)
  unfolding place
  length-place x [] = refl
  length-place x (y ∷ ys) = elim (Bool-cases (before y x)) [
    | inl e ↦ rw (e, place) (omega (arith, length-place x ys))
    | inr e ↦ rw (e, place) refl
  ]

  pub length-sort_by : (xs : List A) → length (sort_by xs) ≡ length xs
  unfolding sort_by
  length-sort_by [] = refl
  length-sort_by (x ∷ xs) = omega (arith, length-place x (sort_by xs), length-sort_by xs)

  -- None of what follows comes strictly first.
  abbrev pub Least : A → List A → Type 0
  Least x ys = All (λ y. before y x ≡ false) ys

  abbrev pub Sorted : List A → Type 0
  Sorted [] = Unit
  Sorted (x ∷ xs) = Least x xs × Sorted xs

  pub place-All {κ} : (K : A → Type κ) (x : A) (ys : List A) → K x → All K ys → All K (place x ys)
  unfolding place
  place-All K x [] h hs = (h, tt)
  place-All K x (y ∷ ys) h (k, ks) = elim (Bool-cases (before y x)) [
    | inl e ↦ rw (e, place) (k, place-All K x ys h ks)
    | inr e ↦ rw (e, place) (h, (k, ks))
  ]

  -- What holds of all elements holds of all when sorted.
  pub sort_by-All {κ} : (K : A → Type κ) (xs : List A) → All K xs → All K (sort_by xs)
  unfolding sort_by
  sort_by-All K [] h = tt
  sort_by-All K (x ∷ xs) (h, hs) = place-All K x (sort_by xs) h (sort_by-All K xs hs)

  place-HasKey :
      (f : A → ℕ) (k : ℕ) (x : A) (ys : List A) → HasKey f k (x ∷ ys) → HasKey f k (place x ys)
  unfolding place
  place-HasKey f k x [] h = h
  place-HasKey f k x (y ∷ ys) h = elim (Bool-cases (before y x)) [
    | inl e ↦ rw (e, place) (go h (place-HasKey f k x ys))
    | inr e ↦ rw (e, place) h
  ]
    where
      go :
          HasKey f k (x ∷ y ∷ ys)
          → (HasKey f k (x ∷ ys) → HasKey f k (place x ys))
          → (f y ≡ k) ⊎ HasKey f k (place x ys)
      go (inl q) ih = inr (ih (inl q))
      go (inr (inl q)) ih = inl q
      go (inr (inr q)) ih = inr (ih (inr q))

  pub sort_by-HasKey : (f : A → ℕ) (k : ℕ) (xs : List A) → HasKey f k xs → HasKey f k (sort_by xs)
  unfolding sort_by
  sort_by-HasKey f k [] h = h
  sort_by-HasKey f k (x ∷ xs) (inl q) = place-HasKey f k x (sort_by xs) (inl q)
  sort_by-HasKey f k (x ∷ xs) (inr q) =
      place-HasKey f k x (sort_by xs) (inr (sort_by-HasKey f k xs q))

  module _ (trans : (a b c : A) → before b a ≡ false → before c b ≡ false → before c a ≡ false)
      (asym : (a b : A) → before a b ≡ true → before b a ≡ false) where
    Least-mono : (x y : A) (zs : List A) → before y x ≡ false → Least y zs → Least x zs
    Least-mono x y [] h l = tt
    Least-mono x y (z ∷ zs) h (l, ls) = (trans x y z h l, Least-mono x y zs h ls)

    pub Least-place :
        (x y : A) (ys : List A) → before y x ≡ false → Least x ys → Least x (place y ys)
    unfolding place
    Least-place x y [] h l = (h, tt)
    Least-place x y (z ∷ zs) h (l, ls) = elim (Bool-cases (before z y)) [
      | inl e ↦ rw (e, place) (l, Least-place x y zs h ls)
      | inr e ↦ rw (e, place) (h, (l, ls))
    ]

    pub place-Sorted : (x : A) (ys : List A) → Sorted ys → Sorted (place x ys)
    unfolding place
    place-Sorted x [] s = (tt, tt)
    place-Sorted x (y ∷ ys) (l, s) = elim (Bool-cases (before y x)) [
      | inl e ↦ rw (e, place) (Least-place y x ys (asym y x e) l, place-Sorted x ys s)
      | inr e ↦ rw (e, place) ((e, Least-mono x y ys e l), (l, s))
    ]

    pub sort_by-Sorted : (xs : List A) → Sorted (sort_by xs)
    unfolding sort_by
    sort_by-Sorted [] = tt
    sort_by-Sorted (x ∷ xs) = place-Sorted x (sort_by xs) (sort_by-Sorted xs)

    place-Least : (x : A) (ys : List A) → Least x ys → place x ys ≡ x ∷ ys
    unfolding place
    place-Least x [] l = refl
    place-Least x (y ∷ ys) (l, ls) = rw (l, place) refl

    Least-drop : (n : ℕ) (x : A) (ys : List A) → Least x ys → Least x (drop n ys)
    Least-drop zero x ys l = l
    Least-drop (suc n) x [] l = l
    Least-drop (suc n) x (y ∷ ys) (l, ls) = Least-drop n x ys ls

    -- Placing into what is left of a sorted list, and dropping the least, is dropping one more.
    pub drop-place :
        (n : ℕ) (x : A) (ys : List A)
        → Sorted ys
        → drop 1 (place x (drop n ys)) ≡ drop (suc n) (place x ys)
    unfolding place
    drop-place zero x ys s = refl
    drop-place (suc n) x [] s = refl
    drop-place (suc n) x (y ∷ ys) (l, s) = elim (Bool-cases (before y x)) [
      | inl e ↦ rw (e, place) (drop-place n x ys s)
      | inr e ↦
          rw (e, place, place-Least x (drop n ys) (Least-drop n x ys (Least-mono x y ys e l))) refl
    ]

    pub drop-Sorted : (n : ℕ) (ys : List A) → Sorted ys → Sorted (drop n ys)
    drop-Sorted zero ys s = s
    drop-Sorted (suc n) [] s = s
    drop-Sorted (suc n) (y ∷ ys) (l, s) = drop-Sorted n ys s

    -- What the sort makes of a relation of each element to those that follow: equals keep their order.
    abbrev pub Stable : (A → A → Type 0) → A → A → Type 0
    Stable R x y = (before y x ≡ false) × ((before x y ≡ true) ⊎ R x y)

    Stable-Least :
        (R : A → A → Type 0) (x y : A) (zs : List A)
        → before y x ≡ false
        → All (Stable R y) zs
        → All (R x) zs
        → All (Stable R x) zs
    Stable-Least R x y [] h l r = tt
    Stable-Least R x y (z ∷ zs) h (l, ls) (r, rs) =
        ((trans x y z h l.0, inr r), Stable-Least R x y zs h ls rs)

    place-Stable :
        (R : A → A → Type 0) (x : A) (ys : List A)
        → All (R x) ys
        → Pairs (Stable R) ys
        → Pairs (Stable R) (place x ys)
    unfolding place
    place-Stable R x [] r s = (tt, tt)
    place-Stable R x (y ∷ ys) (r, rs) (l, s) = elim (Bool-cases (before y x)) [
      | inl e ↦
          rw (e, place)
            (place-All (Stable R y) x ys (asym y x e, inl e) l, place-Stable R x ys rs s)
      | inr e ↦ rw (e, place) (((e, inr r), Stable-Least R x y ys e l rs), (l, s))
    ]

    pub sort_by-Stable :
        (R : A → A → Type 0) (xs : List A) → Pairs R xs → Pairs (Stable R) (sort_by xs)
    unfolding sort_by
    sort_by-Stable R [] h = tt
    sort_by-Stable R (x ∷ xs) (h, hs) =
        place-Stable R x (sort_by xs) (sort_by-All (R x) xs h) (sort_by-Stable R xs hs)
