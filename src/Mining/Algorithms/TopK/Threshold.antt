-- ===== src/Mining/Algorithms/TopK/Threshold.antt =====
-- The threshold of the top-k algorithms never cuts off one of the k best.
use pocket_data_mining.Base.{
  ℕ, suc, ◌-◌, ◌≡◌, refl, sym, ◌∙◌, ap, Bool, true, false, not, ◌&&◌, ◌||◌, List, [], ◌∷◌, length,
  drop, ◌==◌, arith, Bool-cases, ◌⊎◌, inl, inr, if◌then◌else◌, All, lt→ltb, ==→eq, ==_false→ne,
}
use mathlib.Core.Path.{subst}
use pocket_data_mining.Base.Words.{lt_i64}
use pocket_data_mining.Base.Sort.{
  place, sort_by, Sorted, Least, sort_by-Sorted, drop-Sorted, length-place,
}
use pocket_data_mining.Mining.Algorithms.TopK.{
  HeapEntry, TkuState, entry_before, items_before, state_new, push_bounded, update, raised_to_top,
}
use pocket_data_mining.Mining.Algorithms.TopK.Order.{entry_before_trans, entry_before_asym}
use pocket_data_mining.Mining.Algorithms.TopK.Best.{
  state_after, greatest, heap-greatest, k_state_after, tail_of-drop, push-greatest, length-drop,
}

-- No entry has a utility below the threshold.
abbrev pub AtLeast : ℕ → List HeapEntry → Type 0
AtLeast threshold es = All (λ e. lt_i64 e.0 threshold ≡ false) es

abbrev pub IsSafe : TkuState → Type 0
IsSafe st = (st.threshold ≡ 0) ⊎ ((length st.heap ≡ st.k) × AtLeast st.threshold st.heap)

or_left : (a b : Bool) → (a || b) ≡ false → a ≡ false
or_left true b h = h
or_left false b h = refl

utility_order : (a b : HeapEntry) → entry_before b a ≡ false → lt_i64 b.0 a.0 ≡ false
utility_order (u, xs) (v, ys) h = or_left (lt_i64 v u) (not (lt_i64 u v) && items_before ys xs) h

lt_i64_trans : (a b c : ℕ) → lt_i64 b a ≡ false → lt_i64 c b ≡ false → lt_i64 c a ≡ false
lt_i64_trans a b c h k = ground arith

lt_i64_self : (a : ℕ) → lt_i64 a a ≡ false
lt_i64_self a = ground arith

Least-AtLeast :
    (threshold : ℕ) (t : HeapEntry) (es : List HeapEntry)
    → lt_i64 t.0 threshold ≡ false
    → Least entry_before t es
    → AtLeast threshold es
Least-AtLeast threshold t [] h l = tt
Least-AtLeast threshold t (e ∷ es) h (l, ls) =
    (lt_i64_trans threshold t.0 e.0 h (utility_order t e l), Least-AtLeast threshold t es h ls)

place-AtLeast :
    (threshold : ℕ) (e : HeapEntry) (es : List HeapEntry)
    → lt_i64 e.0 threshold ≡ false
    → AtLeast threshold es
    → AtLeast threshold (place entry_before e es)
unfolding place
place-AtLeast threshold e [] h l = (h, tt)
place-AtLeast threshold e (y ∷ ys) h (l, ls) = elim (Bool-cases (entry_before y e)) [
  | inl first ↦ rw (first, place) (l, place-AtLeast threshold e ys h ls)
  | inr last ↦ rw (last, place) (h, (l, ls))
]

-- What takes the place of the least entry is no less.
replaced-AtLeast :
    (threshold : ℕ) (e : HeapEntry) (heap : List HeapEntry)
    → AtLeast threshold heap
    → AtLeast threshold (drop 1 (place entry_before e heap))
unfolding place
replaced-AtLeast threshold e [] h = tt
replaced-AtLeast threshold e (t ∷ heap) (h, hs) = elim (Bool-cases (entry_before t e)) [
  | inl first ↦
      rw (first, place)
        (place-AtLeast threshold e heap
          (lt_i64_trans threshold t.0 e.0 h (utility_order t e (entry_before_asym t e first))) hs)
  | inr last ↦ rw (last, place) (h, hs)
]

-- The top of a sorted heap, once it is the threshold.
raised-AtLeast :
    (current : ℕ) (heap : List HeapEntry)
    → Sorted entry_before heap
    → (current ≡ 0) ⊎ AtLeast current heap
    → (raised_to_top heap current ≡ 0) ⊎ AtLeast (raised_to_top heap current) heap
raised-AtLeast current [] s h = inr tt
raised-AtLeast current (t ∷ heap) (l, s) h = elim (Bool-cases (lt_i64 current t.0)) [
  | inl above ↦
      subst (λ m. (m ≡ 0) ⊎ AtLeast m (t ∷ heap)) (sym (ap (λ b. if b then t.0 else current) above))
        (inr (lt_i64_self t.0, Least-AtLeast t.0 t heap (lt_i64_self t.0) l))
  | inr below ↦
      subst (λ m. (m ≡ 0) ⊎ AtLeast m (t ∷ heap)) (sym (ap (λ b. if b then t.0 else current) below))
        h
]

push_full :
    (k : ℕ) (e : HeapEntry) (heap : List HeapEntry)
    → length heap ≡ k
    → push_bounded k e heap ≡ drop 1 (place entry_before e heap)
unfolding push_bounded
push_full k e heap h =
    rw (length-place entry_before e heap, h, lt→ltb k (suc k) (omega arith))
      (tail_of-drop (place entry_before e heap))

length-push_full :
    (k : ℕ) (e : HeapEntry) (heap : List HeapEntry)
    → length heap ≡ k
    → length (push_bounded k e heap) ≡ k
length-push_full k e heap h =
    ap length (push_full k e heap h)
    ∙ length-drop 1 (place entry_before e heap)
    ∙ ap (λ n. n - 1) (length-place entry_before e heap)
    ∙ omega (arith, h)

still_AtLeast :
    (e : HeapEntry) (st : TkuState)
    → IsSafe st
    → (st.threshold ≡ 0) ⊎ AtLeast st.threshold (push_bounded st.k e st.heap)
still_AtLeast e st (inl none_yet) = inl none_yet
still_AtLeast e st (inr (full, least)) =
    inr (rw (push_full st.k e st.heap full) (replaced-AtLeast st.threshold e st.heap least))

with_length : (n k : ℕ) (A Z : Type 0) → n ≡ k → Z ⊎ A → Z ⊎ ((n ≡ k) × A)
with_length n k A Z e (inl z) = inl z
with_length n k A Z e (inr a) = inr (e, a)

not_full :
    (e : HeapEntry) (st : TkuState)
    → (length (push_bounded st.k e st.heap) == st.k) ≡ false
    → IsSafe st
    → st.threshold ≡ 0
not_full e st less (inl none_yet) = none_yet
not_full e st less (inr (full, least)) = absurd (
    ==_false→ne (length (push_bounded st.k e st.heap)) st.k less
      (length-push_full st.k e st.heap full))

update_full :
    (utility : ℕ) (itemset : List ℕ) (st : TkuState)
    → (length (push_bounded st.k (utility, itemset) st.heap) == st.k) ≡ true
    → (update utility itemset st).threshold
      ≡ raised_to_top (push_bounded st.k (utility, itemset) st.heap) st.threshold
unfolding update
update_full utility itemset st e = rw e refl

update_not_full :
    (utility : ℕ) (itemset : List ℕ) (st : TkuState)
    → (length (push_bounded st.k (utility, itemset) st.heap) == st.k) ≡ false
    → (update utility itemset st).threshold ≡ st.threshold
unfolding update
update_not_full utility itemset st e = rw e refl

heap_update :
    (utility : ℕ) (itemset : List ℕ) (st : TkuState)
    → (update utility itemset st).heap ≡ push_bounded st.k (utility, itemset) st.heap
unfolding update
heap_update utility itemset st = refl

update-IsSafe :
    (utility : ℕ) (itemset : List ℕ) (st : TkuState)
    → Sorted entry_before (push_bounded st.k (utility, itemset) st.heap)
    → IsSafe st
    → IsSafe (update utility itemset st)
unfolding update
update-IsSafe utility itemset st s h =
    elim (Bool-cases (length (push_bounded st.k (utility, itemset) st.heap) == st.k)) [
      | inl full ↦
          rw (heap_update utility itemset st, update_full utility itemset st full)
            (with_length _ _ _ _ (==→eq _ _ full) (
              raised-AtLeast st.threshold (push_bounded st.k (utility, itemset) st.heap) s
                (still_AtLeast (utility, itemset) st h)))
      | inr less ↦
          inl (update_not_full utility itemset st less ∙ not_full (utility, itemset) st less h)
    ]

-- After any offers the threshold is zero, or k of them are in the heap and none of the k greatest
-- offers has a utility below it, as i64 values.
pub threshold-greatest :
    (k : ℕ) (history : List HeapEntry)
    → ((state_after k history).threshold ≡ 0)
      ⊎ ((length (greatest k history) ≡ k)
          × AtLeast (state_after k history).threshold (greatest k history))
unfolding state_new
threshold-greatest k history =
    subst
      (λ n. (limit ≡ 0) ⊎ ((length (greatest k history) ≡ n) × AtLeast limit (greatest k history)))
      (k_state_after k history)
      (subst (λ es. (limit ≡ 0) ⊎ ((length es ≡ (state_after k history).k) × AtLeast limit es))
        (heap-greatest k history) (safe history))
  where
    limit : ℕ
    limit = (state_after k history).threshold

    safe : (history : List HeapEntry) → IsSafe (state_after k history)
    safe [] = inl refl
    safe ((u, i) ∷ history) =
        update-IsSafe u i (state_after k history)
          (rw (k_state_after k history, heap-greatest k history, push-greatest k (u, i) history)
            (drop-Sorted entry_before entry_before_trans entry_before_asym
              (suc (length history) - k) (sort_by entry_before ((u, i) ∷ history))
              (sort_by-Sorted entry_before entry_before_trans entry_before_asym
                ((u, i) ∷ history))))
          (safe history)
