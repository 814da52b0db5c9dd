-- ===== src/Mining/UlJoin/Merge.antt =====
-- The two merge loops of mining/components/ul_join.rs compute the join by transaction.
use mathlib.Core.List.{append_assoc, append-nil}
use mathlib.Core.Path.{subst}
use pocket_data_mining.Base.{
  ℕ, ◌≡◌, refl, sym, ◌∙◌, ap, List, [], ◌∷◌, ◌++◌, arith, inl, inr, Compare-cases,
}
use pocket_data_mining.Base.Words.{add_i64}
use pocket_data_mining.Types.{UlEntry}
use pocket_data_mining.Mining.UlJoin.{
  Joined, joined_empty, push_entry, pair_entry, triple_entry, join_pairs, skip_below, join_prefixed,
  join_entries,
}
use pocket_data_mining.Mining.UlJoin.Join.{
  Ascending, find, share, join_spec, matched, find-join_spec, join_spec-Ascending, All-mono,
  join_spec-skip, join_spec-skip_below, prefix_iutils-skip_below, skip_below-Ascending,
  join_spec-nil, join_spec-match, join_spec-low,
}

pub push_all : Joined → List UlEntry → Joined
push_all acc [] = acc
push_all acc (e ∷ es) = push_all (push_entry acc e) es

push_all-cons :
    (acc : Joined) (e : UlEntry) (es : List UlEntry)
    → push_all acc (e ∷ es) ≡ push_all (push_entry acc e) es
unfolding push_all
push_all-cons acc e es = refl

push_all-nil : (acc : Joined) → push_all acc [] ≡ acc
unfolding push_all
push_all-nil acc = refl

-- The loop with three pointers pushes the entries of the join, in order.
pub join_prefixed_lem :
    (ps xs ys : List UlEntry) (acc : Joined)
    → Ascending ps
    → Ascending xs
    → Ascending ys
    → join_prefixed ps xs ys acc ≡ push_all acc (join_spec ps xs ys)
unfolding join_prefixed
join_prefixed_lem ps [] ys acc hp hx hy = unfold push_all join_spec in refl
join_prefixed_lem ps (x ∷ xs) [] acc hp hx hy =
    rw (join_spec-nil ps (x ∷ xs)) (sym (push_all-nil acc))
join_prefixed_lem ps (x ∷ xs) (y ∷ ys) acc hp hx hy = elim (Compare-cases x.tid y.tid) [
  | inl (c, lt) ↦
      rw (c, join_prefixed, join_spec-low ps x xs y ys lt hy.0)
        (join_prefixed_lem ps xs (y ∷ ys) acc hp hx.1 hy)
  | inr (inl (c, e)) ↦
      rw
        (
          c,
          join_prefixed,
          join_spec-match ps x xs y ys e hx.0,
          prefix_iutils-skip_below x.tid ps hp,
        )
        (join_prefixed_lem (skip_below x.tid ps) xs ys
            (push_entry acc (triple_entry x y (share (find x.tid ps))))
            (skip_below-Ascending x.tid ps hp) hx.1 hy.1
          ∙ ap (push_all (push_entry acc (triple_entry x y (share (find x.tid ps)))))
              (join_spec-skip_below x.tid ps xs ys hx.0)
          ∙ sym (push_all-cons acc (triple_entry x y (share (find x.tid ps))) (join_spec ps xs ys)))
  | inr (inr (c, gt)) ↦
      rw
        (
          c,
          join_prefixed,
          join_spec-skip ps y (x ∷ xs) ys (gt, All-mono y.tid x.tid xs (omega arith) hx.0),
        )
        (join_prefixed_lem ps (x ∷ xs) ys acc hp hx hy.1)
]

pair-eq-triple : (x y : UlEntry) → pair_entry x y ≡ triple_entry x y 0
pair-eq-triple x y = ground arith

-- The loop for an empty prefix is the other loop with nothing to take off.
join_pairs_lem :
    (xs ys : List UlEntry) (acc : Joined) → join_pairs xs ys acc ≡ join_prefixed [] xs ys acc
unfolding join_pairs join_prefixed
join_pairs_lem [] ys acc = refl
join_pairs_lem (x ∷ xs) [] acc = refl
join_pairs_lem (x ∷ xs) (y ∷ ys) acc = elim (Compare-cases x.tid y.tid) [
  | inl (c, _) ↦ rw (c, join_pairs, join_prefixed) (join_pairs_lem xs (y ∷ ys) acc)
  | inr (inl (c, _)) ↦
      rw (c, join_pairs, join_prefixed)
        (join_pairs_lem xs ys (push_entry acc (pair_entry x y))
          ∙ ap (λ e. join_prefixed [] xs ys (push_entry acc e)) (pair-eq-triple x y))
  | inr (inr (c, _)) ↦ rw (c, join_pairs, join_prefixed) (join_pairs_lem (x ∷ xs) ys acc)
]

-- The sum of a field, added up as the code does.
abbrev pub sum_i64 : (UlEntry → ℕ) → ℕ → List UlEntry → ℕ
sum_i64 field acc [] = acc
sum_i64 field acc (e ∷ es) = sum_i64 field (add_i64 acc (field e)) es

push_all_lem :
    (acc : Joined) (es : List UlEntry)
    → push_all acc es ≡ record {
      result = acc.result ++ es;
      sum_iutils = sum_i64 (λ e. e.iutils) acc.sum_iutils es;
      sum_rutils = sum_i64 (λ e. e.rutils) acc.sum_rutils es;
    }
unfolding push_all push_entry
push_all_lem acc [] = ground (arith, append-nil acc.result)
push_all_lem acc (e ∷ es) =
    rw (push_all_lem (push_entry acc e) es) (ground (arith, append_assoc acc.result (e ∷ []) es))

-- For utility lists in the order of their transactions, join_utility_lists computes the join by
-- transaction and its two sums in i64 arithmetic, whichever of its loops runs.
pub join_entries_lem :
    (ps px py : List UlEntry)
    → Ascending ps
    → Ascending px
    → Ascending py
    → join_entries ps px py ≡ record {
      result = join_spec ps px py;
      sum_iutils = sum_i64 (λ e. e.iutils) 0 (join_spec ps px py);
      sum_rutils = sum_i64 (λ e. e.rutils) 0 (join_spec ps px py);
    }
unfolding join_entries
join_entries_lem [] px py hp hx hy =
    join_pairs_lem px py joined_empty
    ∙ join_prefixed_lem [] px py joined_empty hp hx hy
    ∙ push_all_lem joined_empty (join_spec [] px py)
join_entries_lem (p ∷ ps) px py hp hx hy =
    join_prefixed_lem (p ∷ ps) px py joined_empty hp hx hy
    ∙ push_all_lem joined_empty (join_spec (p ∷ ps) px py)

-- For utility lists in the order of their transactions, the result of the join has an entry for a
-- transaction exactly if both lists have one: with the utilities of both added, less the
-- prefix's, and the remaining utility of the second list.
pub find-join_entries :
    (tid : ℕ) (ps px py : List UlEntry)
    → Ascending ps
    → Ascending px
    → Ascending py
    → find tid (join_entries ps px py).result
      ≡ matched (share (find tid ps)) (find tid px) (find tid py)
find-join_entries tid ps px py hp hx hy =
    ap (λ j. find tid j.result) (join_entries_lem ps px py hp hx hy)
    ∙ find-join_spec tid ps px py hx

-- The result of a join is in the order of its transactions if the lists are.
pub join_entries-Ascending :
    (ps px py : List UlEntry)
    → Ascending ps
    → Ascending px
    → Ascending py
    → Ascending (join_entries ps px py).result
join_entries-Ascending ps px py hp hx hy =
    subst (λ j. Ascending j.result) (sym (join_entries_lem ps px py hp hx hy))
      (join_spec-Ascending ps px py hx)
