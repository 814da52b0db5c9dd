-- ===== src/Mining/Database/Exactly.antt =====
-- What it is for a list of results to be exactly the itemsets of high utility.
use pocket_data_mining.Base.{
  ℕ, ◌≡◌, refl, sym, ◌∙◌, ap, Bool, true, false, List, [], ◌∷◌, All, ◌⊎◌, inl, inr, if◌then◌else◌,
}
use mathlib.Core.Path.{subst}
use pocket_data_mining.Base.Sort.{Pairs}
use pocket_data_mining.Preprocessing.TwuFilter.{FilteredTransaction}
use pocket_data_mining.Mining.Search.Reference.{Found}
use pocket_data_mining.Mining.Database.{itemsets, high_utility, is_high, utility, Unique, Has}
use pocket_data_mining.Mining.Database.SameItems.{SameItems, Differ, is_high-SameItems}
use pocket_data_mining.Mining.Database.Once.{itemsets-Differ}
use pocket_data_mining.Mining.Database.Subsets.{HasList, itemsets_complete, itemsets-Unique}

-- Some result is of the same set.
abbrev pub Reports : List ℕ → List Found → Type 0
Reports xs [] = ⊥
Reports xs (f ∷ fs) = SameItems xs f.0 ⊎ Reports xs fs

pub record IsExactly (min_utility : ℕ) (fs : List FilteredTransaction) (found : List Found)
    : Type 0 where
  -- Each result is a set of high utility, with its utility.
  pub sound :
      All (λ f. Unique f.0 × (is_high min_utility fs f.0 ≡ true) × (f.1 ≡ utility f.0 fs)) found
  -- Each set of high utility that is not empty is a result.
  pub complete :
      (x : ℕ) (xs : List ℕ)
      → Unique (x ∷ xs)
      → is_high min_utility fs (x ∷ xs) ≡ true
      → Reports (x ∷ xs) found
  -- No set is a result twice.
  pub once : Pairs (λ f g. Differ f.0 g.0) found

module _ (min_utility : ℕ) (fs : List FilteredTransaction) where
  abbrev found_if : Bool → List ℕ → List Found → List Found
  found_if b xs rest = if b then (xs, utility xs fs) ∷ rest else rest

  high_utility_if :
      (xs : List ℕ) (xss : List (List ℕ))
      → high_utility min_utility fs (xs ∷ xss)
        ≡ found_if (is_high min_utility fs xs) xs (high_utility min_utility fs xss)
  unfolding high_utility
  high_utility_if xs xss = refl

  abbrev IsRight : Found → Type 0
  IsRight f = Unique f.0 × (is_high min_utility fs f.0 ≡ true) × (f.1 ≡ utility f.0 fs)

  high_utility_sound :
      (xss : List (List ℕ)) → All Unique xss → All IsRight (high_utility min_utility fs xss)
  high_utility_sound [] h = unfold high_utility in tt
  high_utility_sound (xs ∷ xss) (h, hs) =
      subst (All IsRight) (sym (high_utility_if xs xss))
        (go (is_high min_utility fs xs) refl (high_utility_sound xss hs))
    where
      go :
          (b : Bool)
          → is_high min_utility fs xs ≡ b
          → All IsRight (high_utility min_utility fs xss)
          → All IsRight (found_if b xs (high_utility min_utility fs xss))
      go true e k = ((h, e, refl), k)
      go false e k = k

  high_utility-Reports :
      (xs ys : List ℕ) (xss : List (List ℕ))
      → HasList ys xss
      → SameItems xs ys
      → is_high min_utility fs ys ≡ true
      → Reports xs (high_utility min_utility fs xss)
  high_utility-Reports xs ys [] h same high = elim h [ ]
  high_utility-Reports xs ys (zs ∷ xss) (inl e) same high =
      subst (Reports xs) (sym (high_utility_if zs xss)) (
        subst (λ b. Reports xs (found_if b zs (high_utility min_utility fs xss)))
          (sym (ap (is_high min_utility fs) e ∙ high)) (inl (subst (SameItems xs) (sym e) same)))
  high_utility-Reports xs ys (zs ∷ xss) (inr h) same high =
      subst (Reports xs) (sym (high_utility_if zs xss))
        (go (is_high min_utility fs zs) (high_utility-Reports xs ys xss h same high))
    where
      go :
          (b : Bool)
          → Reports xs (high_utility min_utility fs xss)
          → Reports xs (found_if b zs (high_utility min_utility fs xss))
      go true k = inr k
      go false k = k

  high_utility-All :
      (K : List ℕ → Type 0) (xss : List (List ℕ))
      → All K xss
      → All (λ f. K f.0) (high_utility min_utility fs xss)
  high_utility-All K [] h = unfold high_utility in tt
  high_utility-All K (xs ∷ xss) (h, hs) =
      subst (All (λ f. K f.0)) (sym (high_utility_if xs xss))
        (go (is_high min_utility fs xs) (high_utility-All K xss hs))
    where
      go :
          (b : Bool)
          → All (λ f. K f.0) (high_utility min_utility fs xss)
          → All (λ f. K f.0) (found_if b xs (high_utility min_utility fs xss))
      go true k = (h, k)
      go false k = k

  high_utility-once :
      (xss : List (List ℕ))
      → Pairs Differ xss
      → Pairs (λ f g. Differ f.0 g.0) (high_utility min_utility fs xss)
  high_utility-once [] h = unfold high_utility in tt
  high_utility-once (xs ∷ xss) (h, hs) =
      subst (Pairs (λ f g. Differ f.0 g.0)) (sym (high_utility_if xs xss)) (
        go (is_high min_utility fs xs) (high_utility-All (Differ xs) xss h)
          (high_utility-once xss hs))
    where
      go :
          (b : Bool)
          → All (λ g. Differ xs g.0) (high_utility min_utility fs xss)
          → Pairs (λ f g. Differ f.0 g.0) (high_utility min_utility fs xss)
          → Pairs (λ f g. Differ f.0 g.0) (found_if b xs (high_utility min_utility fs xss))
      go true k p = (k, p)
      go false k p = p

  -- Among the itemsets over a list of items, when those of high utility have no others.
  pub high_utility-IsExactly :
      (items : List ℕ)
      → Unique items
      → ((xs : List ℕ)
          → Unique xs
          → is_high min_utility fs xs ≡ true
          → (z : ℕ) → Has z xs
          → Has z items)
      → IsExactly min_utility fs (high_utility min_utility fs (itemsets [] items))
  high_utility-IsExactly items u within = record {
    sound = high_utility_sound (itemsets [] items) (itemsets-Unique [] items u);
    complete = λ x xs v high.
        let (ys, w, same, there) = itemsets_complete items xs x u (within (x ∷ xs) v high) in
        high_utility-Reports (x ∷ xs) ys (itemsets [] items) there same
          (sym (is_high-SameItems min_utility fs (x ∷ xs) ys v w same) ∙ high);
    once = high_utility-once (itemsets [] items) (itemsets-Differ [] items u);
  }
