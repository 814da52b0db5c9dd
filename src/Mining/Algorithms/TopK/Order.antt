-- ===== src/Mining/Algorithms/TopK/Order.antt =====
-- The order of the heap is a weak order: what does not come strictly first is transitive.
use pocket_data_mining.Base.{
  ℕ, ◌+◌, ◌%◌, ◌^◌, not, ◌≡◌, refl, Bool, true, false, ◌&&◌, ◌||◌, List, [], ◌∷◌, ltb, arith,
}
use pocket_data_mining.Base.Words.{u64_mod}
use pocket_data_mining.Mining.Algorithms.TopK.{HeapEntry, items_before, entry_before}

pub items_before_trans :
    (xs ys zs : List ℕ)
    → items_before ys xs ≡ false
    → items_before zs ys ≡ false
    → items_before zs xs ≡ false
items_before_trans [] [] zs h k = k
items_before_trans [] (y ∷ ys) [] h k = refl
items_before_trans [] (y ∷ ys) (z ∷ zs) h k = refl
items_before_trans (x ∷ xs) [] zs h k = cc
items_before_trans (x ∷ xs) (y ∷ ys) [] h k = k
items_before_trans (x ∷ xs) (y ∷ ys) (z ∷ zs) h k = ground (arith, items_before_trans xs ys zs)

-- The numbers stand for the utilities.
chain_before : ℕ → List ℕ → ℕ → List ℕ → Bool
chain_before u xs v ys = ltb u v || (not (ltb v u) && items_before xs ys)

chain_before_trans :
    (u v w : ℕ) (xs ys zs : List ℕ)
    → chain_before v ys u xs ≡ false
    → chain_before w zs v ys ≡ false
    → chain_before w zs u xs ≡ false
unfolding chain_before
chain_before_trans u v w xs ys zs h k = ground (arith, items_before_trans xs ys zs)

pub entry_before_trans :
    (a b c : HeapEntry)
    → entry_before b a ≡ false
    → entry_before c b ≡ false
    → entry_before c a ≡ false
unfolding chain_before
entry_before_trans (u, xs) (v, ys) (w, zs) h k =
    chain_before_trans ((u + 2 ^ 63) % u64_mod) ((v + 2 ^ 63) % u64_mod) ((w + 2 ^ 63) % u64_mod) xs
      ys zs h k

pub items_before_asym : (xs ys : List ℕ) → items_before xs ys ≡ true → items_before ys xs ≡ false
items_before_asym [] [] h = refl
items_before_asym [] (y ∷ ys) h = refl
items_before_asym (x ∷ xs) [] h = cc
items_before_asym (x ∷ xs) (y ∷ ys) h = ground (arith, items_before_asym xs ys)

chain_before_asym :
    (u v : ℕ) (xs ys : List ℕ) → chain_before u xs v ys ≡ true → chain_before v ys u xs ≡ false
unfolding chain_before
chain_before_asym u v xs ys h = ground (arith, items_before_asym xs ys)

pub entry_before_asym : (a b : HeapEntry) → entry_before a b ≡ true → entry_before b a ≡ false
unfolding chain_before
entry_before_asym (u, xs) (v, ys) h =
    chain_before_asym ((u + 2 ^ 63) % u64_mod) ((v + 2 ^ 63) % u64_mod) xs ys h
