-- ===== src/Mining/Algorithms/TopK/Best.antt =====
-- What the state of the top-k algorithms holds after any offers.
use pocket_data_mining.Base.{
  ℕ, zero, suc, ◌-◌, ◌≡◌, refl, sym, ◌∙◌, ap, true, false, List, [], ◌∷◌, length, drop, ltb, arith,
  Bool-cases, inl, inr,
}
use pocket_data_mining.Base.Sort.{
  place, sort_by, length-place, length-sort_by, sort_by-Sorted, drop-place,
}
use pocket_data_mining.Mining.Algorithms.TopK.{
  HeapEntry, TkuState, entry_before, state_new, push_bounded, tail_of, update,
}
use pocket_data_mining.Mining.Algorithms.TopK.Order.{entry_before_trans, entry_before_asym}

-- The state after a history of offers, the latest first.
abbrev pub state_after : ℕ → List HeapEntry → TkuState
state_after k [] = state_new k
state_after k ((utility, itemset) ∷ history) = update utility itemset (state_after k history)

-- The greatest k of a list, in ascending order.
abbrev pub greatest : ℕ → List HeapEntry → List HeapEntry
greatest k es = drop (length es - k) (sort_by entry_before es)

pub k_state_after : (k : ℕ) (history : List HeapEntry) → (state_after k history).k ≡ k
unfolding update state_new
k_state_after k [] = refl
k_state_after k ((u, i) ∷ history) = k_state_after k history

pub tail_of-drop : (es : List HeapEntry) → tail_of es ≡ drop 1 es
tail_of-drop [] = refl
tail_of-drop (e ∷ es) = refl

pub length-drop : (n : ℕ) (es : List HeapEntry) → length (drop n es) ≡ length es - n
length-drop zero es = omega arith
length-drop (suc n) [] = omega arith
length-drop (suc n) (e ∷ es) = omega (arith, length-drop n es)

pub length-greatest :
    (k : ℕ) (es : List HeapEntry) → length (greatest k es) ≡ length es - (length es - k)
length-greatest k es =
    length-drop (length es - k) (sort_by entry_before es)
    ∙ ap (λ n. n - (length es - k)) (length-sort_by entry_before es)

drop_nil : (n : ℕ) → drop {A = HeapEntry} n [] ≡ []
drop_nil zero = refl
drop_nil (suc n) = refl

pub length-push :
    (k : ℕ) (e : HeapEntry) (es : List HeapEntry)
    → length (place entry_before e (greatest k es)) ≡ suc (length es - (length es - k))
length-push k e es = length-place entry_before e (greatest k es) ∙ ap suc (length-greatest k es)

full_drop : (k n : ℕ) → ltb k (suc (n - (n - k))) ≡ true → suc n - k ≡ suc (n - k)
full_drop k n h = ground arith

open_drop : (k n : ℕ) → ltb k (suc (n - (n - k))) ≡ false → (n - k ≡ 0) × (suc n - k ≡ 0)
open_drop k n h = ground arith

pub push-greatest :
    (k : ℕ) (e : HeapEntry) (es : List HeapEntry)
    → push_bounded k e (greatest k es) ≡ greatest k (e ∷ es)
unfolding push_bounded sort_by
push-greatest k e es = elim (Bool-cases (ltb k (length (place entry_before e (greatest k es))))) [
  | inl long ↦
      rw
        (
          long,
          tail_of-drop (place entry_before e (greatest k es)),
          full_drop k (length es) (ap (λ n. ltb k n) (sym (length-push k e es)) ∙ long),
        )
        (drop-place entry_before entry_before_trans entry_before_asym (length es - k) e
          (sort_by entry_before es)
          (sort_by-Sorted entry_before entry_before_trans entry_before_asym es))
  | inr short ↦
      let (now, later) =
        open_drop k (length es) (ap (λ n. ltb k n) (sym (length-push k e es)) ∙ short) in
      rw (short, now, later) refl
]

-- After any offers the heap holds the k greatest of them, in the order of the pairs of utility and
-- itemset, the least on top.
pub heap-greatest :
    (k : ℕ) (history : List HeapEntry) → (state_after k history).heap ≡ greatest k history
unfolding update state_new sort_by
heap-greatest k [] = sym (drop_nil (0 - k))
heap-greatest k (e ∷ history) =
    rw (k_state_after k history, heap-greatest k history) (push-greatest k e history)
