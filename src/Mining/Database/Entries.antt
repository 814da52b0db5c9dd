-- ===== src/Mining/Database/Entries.antt =====
-- The utility lists of itemsets: their order, what they hold for a transaction, and their joins.
use pocket_data_mining.Base.{
  ℕ, ◌≤◌, ◌<◌, ◌^◌, ◌≡◌, refl, sym, ◌∙◌, ap, true, false, Option, none, some, List, [], ◌∷◌, ◌++◌,
  All, ◌==◌, ==→eq, ==-self, if◌then◌else◌, Bool-cases, inl, inr, arith, Compare-cases,
}
use mathlib.Core.Path.{subst}
use mathlib.Core.Option.{some-injective}
use pocket_data_mining.Base.Words.{add_i64}
use pocket_data_mining.Types.{ItemEntry, UlEntry}
use pocket_data_mining.Preprocessing.TwuFilter.{FilteredTransaction}
use pocket_data_mining.Mining.UlJoin.{join_entries}
use pocket_data_mining.Mining.UlJoin.Join.{Ascending, find, share, matched, find_above, All-mono}
use pocket_data_mining.Mining.UlJoin.Merge.{find-join_entries, join_entries-Ascending}
use pocket_data_mining.Mining.Search.{last_item}
use pocket_data_mining.Mining.Database.{
  item_utility, remaining, add_some, utility_of, entry_for, entry_in, cons_some, entries,
  AscendingTids,
}

unfoldable pub find_tx : ℕ → List FilteredTransaction → Option FilteredTransaction
find_tx tid [] = none
find_tx tid (f ∷ fs) = if f.tid == tid then some f else find_tx tid fs

abbrev pub entry_at : List ℕ → Option FilteredTransaction → Option UlEntry
entry_at xs none = none
entry_at xs (some f) = entry_in xs f

pub All-below :
    (a b : ℕ) (fs : List FilteredTransaction)
    → a ≤ b
    → All (λ g. b < g.tid) fs
    → All (λ g. a < g.tid) fs
All-below a b [] le h = tt
All-below a b (f ∷ fs) le (h, hs) = (omega arith, All-below a b fs le hs)

entries-above :
    (xs : List ℕ) (tid : ℕ) (fs : List FilteredTransaction)
    → All (λ g. tid < g.tid) fs
    → All (λ e. tid < e.tid) (entries xs fs)
unfolding entries
entries-above xs tid [] h = tt
entries-above xs tid (f ∷ fs) (h, hs) = go (utility_of xs f.items) (entries-above xs tid fs hs)
  where
    go :
        (o : Option ℕ)
        → All (λ e. tid < e.tid) (entries xs fs)
        → All (λ e. tid < e.tid) (cons_some (entry_for f (last_item xs) o) (entries xs fs))
    go none k = k
    go (some u) k = (h, k)

pub entries-Ascending :
    (xs : List ℕ) (fs : List FilteredTransaction) → AscendingTids fs → Ascending (entries xs fs)
unfolding entries
entries-Ascending xs [] h = tt
entries-Ascending xs (f ∷ fs) (h, hs) = go (utility_of xs f.items) (entries-Ascending xs fs hs)
  where
    go :
        (o : Option ℕ)
        → Ascending (entries xs fs)
        → Ascending (cons_some (entry_for f (last_item xs) o) (entries xs fs))
    go none k = k
    go (some u) k = (entries-above xs f.tid fs h, k)

find-cons_some :
    (tid : ℕ) (f : FilteredTransaction) (x : ℕ) (o : Option ℕ) (es : List UlEntry)
    → (f.tid == tid) ≡ false
    → find tid (cons_some (entry_for f x o) es) ≡ find tid es
unfolding find
find-cons_some tid f x none es h = refl
find-cons_some tid f x (some u) es h = rw h refl

find-cons_some_here :
    (tid : ℕ) (f : FilteredTransaction) (x : ℕ) (o : Option ℕ) (es : List UlEntry)
    → (f.tid == tid) ≡ true
    → find tid es ≡ none
    → find tid (cons_some (entry_for f x o) es) ≡ entry_for f x o
unfolding find
find-cons_some_here tid f x none es h k = k
find-cons_some_here tid f x (some u) es h k = rw h refl

pub find-entries :
    (tid : ℕ) (xs : List ℕ) (fs : List FilteredTransaction)
    → AscendingTids fs
    → find tid (entries xs fs) ≡ entry_at xs (find_tx tid fs)
unfolding find_tx entries
find-entries tid xs [] h = unfold find in refl
find-entries tid xs (f ∷ fs) (h, hs) = elim (Bool-cases (f.tid == tid)) [
  | inl here ↦
      rw (here, find_tx)
        (find-cons_some_here tid f (last_item xs) (utility_of xs f.items) (entries xs fs) here (
          find_above tid (entries xs fs) (
            subst (λ t. All (λ e. t < e.tid) (entries xs fs)) (==→eq f.tid tid here)
              (entries-above xs f.tid fs h))))
  | inr there ↦
      rw (there, find_tx)
        (find-cons_some tid f (last_item xs) (utility_of xs f.items) (entries xs fs) there
          ∙ find-entries tid xs fs hs)
]

-- Lists in order that hold the same for every transaction are the same.
find_here : (e : UlEntry) (es : List UlEntry) → find e.tid (e ∷ es) ≡ some e
unfolding find
find_here e es = rw (==-self e.tid) refl

find_tail :
    (tid : ℕ) (e : UlEntry) (es : List UlEntry)
    → (e.tid == tid) ≡ false
    → find tid (e ∷ es) ≡ find tid es
unfolding find
find_tail tid e es h = rw h refl

lower_absent :
    (e f : UlEntry) (fs : List UlEntry)
    → Ascending (f ∷ fs)
    → e.tid < f.tid
    → find e.tid (f ∷ fs) ≡ none
lower_absent e f fs (h, hs) lt =
    find_above e.tid (f ∷ fs) (lt, All-mono e.tid f.tid fs (omega arith) h)

tails :
    (e : UlEntry) (es fs : List UlEntry) (tid : ℕ)
    → Ascending (e ∷ es)
    → Ascending (e ∷ fs)
    → find tid (e ∷ es) ≡ find tid (e ∷ fs)
    → find tid es ≡ find tid fs
tails e es fs tid (h, hs) (k, ks) same = elim (Bool-cases (e.tid == tid)) [
  | inl here ↦
      find_above tid es (subst (λ t. All (λ g. t < g.tid) es) (==→eq e.tid tid here) h)
      ∙ sym (find_above tid fs (subst (λ t. All (λ g. t < g.tid) fs) (==→eq e.tid tid here) k))
  | inr there ↦ sym (find_tail tid e es there) ∙ same ∙ find_tail tid e fs there
]

pub find_ext :
    (es fs : List UlEntry)
    → Ascending es
    → Ascending fs
    → ((tid : ℕ) → find tid es ≡ find tid fs)
    → es ≡ fs
find_ext [] [] h k same = refl
find_ext [] (f ∷ fs) h k same = absurd (clash (same f.tid))
  where
    clash : find f.tid [] ≡ find f.tid (f ∷ fs) → ⊥
    clash q = unfold find in cc (q, find_here f fs)
find_ext (e ∷ es) [] h k same = absurd (clash (same e.tid))
  where
    clash : find e.tid (e ∷ es) ≡ find e.tid [] → ⊥
    clash q = unfold find in cc (q, find_here e es)
find_ext (e ∷ es) (f ∷ fs) h k same = elim (Compare-cases e.tid f.tid) [
  | inl (_, lt) ↦ absurd (clash (sym (find_here e es) ∙ same e.tid ∙ lower_absent e f fs k lt))
  | inr (inl (_, eq)) ↦
      let q : e ≡ f =
        some-injective e f
          (sym (find_here e es) ∙ same e.tid ∙ ap (λ t. find t (f ∷ fs)) eq ∙ find_here f fs) in
      ap (λ g. g ∷ es) q
      ∙ ap (λ l. f ∷ l)
          (find_ext es fs h.1 k.1 (λ tid.
            tails e es fs tid h (subst (λ g. Ascending (g ∷ fs)) (sym q) k)
              (same tid ∙ ap (λ g. find tid (g ∷ fs)) (sym q))))
  | inr (inr (_, gt)) ↦
      absurd (clash (sym (find_here f fs) ∙ sym (same f.tid) ∙ lower_absent f e es h gt))
]
  where
    clash : {g : UlEntry} → some g ≡ none → ⊥
    clash q = cc q

utility_of_word :
    (xs : List ℕ) (es : List ItemEntry) (u : ℕ) → utility_of xs es ≡ some u → u < 2 ^ 64
unfolding utility_of
utility_of_word [] es u h = omega (arith, some-injective 0 u h)
utility_of_word (x ∷ xs) es u h = go (item_utility x es) (utility_of xs es) h
  where
    go : (a b : Option ℕ) → add_some a b ≡ some u → u < 2 ^ 64
    go (some a) (some b) q = omega (arith, some-injective (add_i64 a b) u q)
    go (some a) none q = absurd (cc q)
    go none b q = absurd (cc q)

pub add_some_assoc : (a b c : Option ℕ) → add_some a (add_some b c) ≡ add_some (add_some a b) c
add_some_assoc (some a) (some b) (some c) = ap (λ u. some u) (omega arith)
add_some_assoc (some a) (some b) none = refl
add_some_assoc (some a) none c = refl
add_some_assoc none b c = refl

add_some_zero : (a : Option ℕ) → add_some a (some 0) ≡ add_some (some 0) a
add_some_zero (some a) = ap (λ u. some u) (omega arith)
add_some_zero none = refl

utility_of_snoc :
    (xs : List ℕ) (x : ℕ) (es : List ItemEntry)
    → utility_of (xs ++ x ∷ []) es ≡ add_some (utility_of xs es) (item_utility x es)
unfolding utility_of
utility_of_snoc [] x es = add_some_zero (item_utility x es)
utility_of_snoc (y ∷ xs) x es =
    ap (λ o. add_some (item_utility y es) o) (utility_of_snoc xs x es)
    ∙ add_some_assoc (item_utility y es) (utility_of xs es) (item_utility x es)

pub last_item_snoc : (xs : List ℕ) (x : ℕ) → last_item (xs ++ x ∷ []) ≡ x
last_item_snoc [] x = refl
last_item_snoc (y ∷ []) x = refl
last_item_snoc (y ∷ z ∷ xs) x = last_item_snoc (z ∷ xs) x

-- The share of a prefix in a transaction.
share_of : Option ℕ → ℕ
share_of none = 0
share_of (some u) = u

-- Of three utilities: that of the prefix, and those of two items.
matched_utilities :
    (f : FilteredTransaction) (a b : ℕ) (p u v : Option ℕ)
    → ((q : ℕ) → p ≡ some q → q < 2 ^ 64)
    → matched (share_of p) (entry_for f a (add_some p u)) (entry_for f b (add_some p v))
      ≡ entry_for f b (add_some (add_some p u) v)
unfolding share_of
matched_utilities f a b (some p) (some u) (some v) h =
    ap (λ i. some (record { tid = f.tid; iutils = i; rutils = remaining b f.items }))
      (omega (arith, h p refl))
matched_utilities f a b (some p) (some u) none h = refl
matched_utilities f a b (some p) none v h = refl
matched_utilities f a b none u v h = refl

-- What the prefix's body says of a transaction; the empty prefix has an empty body.
abbrev pub IsPrefix : List FilteredTransaction → List ℕ → List UlEntry → Type 0
IsPrefix fs xs ps = (tid : ℕ) → share (find tid ps) ≡ share (entry_at xs (find_tx tid fs))

joined_at :
    (xs : List ℕ) (x y : ℕ) (o : Option FilteredTransaction)
    → matched (share (entry_at xs o)) (entry_at (xs ++ x ∷ []) o) (entry_at (xs ++ y ∷ []) o)
      ≡ entry_at ((xs ++ x ∷ []) ++ y ∷ []) o
unfolding share_of
joined_at xs x y none = refl
joined_at xs x y (some f) =
    rw
      (
        utility_of_snoc (xs ++ x ∷ []) y f.items,
        utility_of_snoc xs x f.items,
        utility_of_snoc xs y f.items,
        last_item_snoc xs x,
        last_item_snoc xs y,
        last_item_snoc (xs ++ x ∷ []) y,
        shares (utility_of xs f.items),
      )
      (matched_utilities f x y (utility_of xs f.items) (item_utility x f.items)
        (item_utility y f.items) (λ q e. utility_of_word xs f.items q e))
  where
    shares : (o : Option ℕ) → share (entry_for f (last_item xs) o) ≡ share_of o
    shares none = refl
    shares (some u) = refl

-- For transactions with rising ids, the join of the utility lists of two itemsets that differ in their
-- last items, by the list of what they share, is the utility list of both together.
pub join-entries :
    (fs : List FilteredTransaction) (xs : List ℕ) (x y : ℕ) (ps : List UlEntry)
    → AscendingTids fs
    → Ascending ps
    → IsPrefix fs xs ps
    → (join_entries ps (entries (xs ++ x ∷ []) fs) (entries (xs ++ y ∷ []) fs)).result
      ≡ entries ((xs ++ x ∷ []) ++ y ∷ []) fs
join-entries fs xs x y ps h hp prefix =
    find_ext _ _ (join_entries-Ascending ps _ _ hp hx hy)
      (entries-Ascending ((xs ++ x ∷ []) ++ y ∷ []) fs h)
      (λ tid.
        find-join_entries tid ps _ _ hp hx hy
        ∙ ap
            (λ u.
              matched u (find tid (entries (xs ++ x ∷ []) fs))
                (find tid (entries (xs ++ y ∷ []) fs)))
            (prefix tid)
        ∙ ap
            (λ o.
              matched (share (entry_at xs (find_tx tid fs))) o
                (find tid (entries (xs ++ y ∷ []) fs)))
            (find-entries tid (xs ++ x ∷ []) fs h)
        ∙ ap
            (λ o.
              matched (share (entry_at xs (find_tx tid fs)))
                (entry_at (xs ++ x ∷ []) (find_tx tid fs)) o)
            (find-entries tid (xs ++ y ∷ []) fs h)
        ∙ joined_at xs x y (find_tx tid fs)
        ∙ sym (find-entries tid ((xs ++ x ∷ []) ++ y ∷ []) fs h))
  where
    hx : Ascending (entries (xs ++ x ∷ []) fs)
    hx = entries-Ascending (xs ++ x ∷ []) fs h

    hy : Ascending (entries (xs ++ y ∷ []) fs)
    hy = entries-Ascending (xs ++ y ∷ []) fs h
