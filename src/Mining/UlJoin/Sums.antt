-- ===== src/Mining/UlJoin/Sums.antt =====
-- The two sums that the loops of mining/components/ul_join.rs keep beside the joined entries.
use pocket_data_mining.Base.{ℕ, ◌≡◌, refl, List, [], ◌∷◌, ◌++◌, inl, inr, Compare-cases}
use pocket_data_mining.Base.Words.{add_i64}
use pocket_data_mining.Types.{UlEntry}
use pocket_data_mining.Mining.UlJoin.{
  Joined, joined_empty, push_entry, pair_entry, triple_entry, skip_below, prefix_iutils, join_pairs,
  join_prefixed, join_entries,
}
use pocket_data_mining.Mining.UlJoin.Merge.{sum_i64}

-- The two sums are those of the entries, whatever the lists are.
abbrev pub IsSummed : Joined → Type 0
IsSummed j =
    (j.sum_iutils ≡ sum_i64 (λ e. e.iutils) 0 j.result)
    × (j.sum_rutils ≡ sum_i64 (λ e. e.rutils) 0 j.result)

sum_i64-append :
    (field : UlEntry → ℕ) (acc : ℕ) (es : List UlEntry) (e : UlEntry)
    → sum_i64 field acc (es ++ e ∷ []) ≡ add_i64 (sum_i64 field acc es) (field e)
sum_i64-append field acc [] e = refl
sum_i64-append field acc (x ∷ es) e = sum_i64-append field (add_i64 acc (field x)) es e

push_entry-IsSummed : (j : Joined) (e : UlEntry) → IsSummed j → IsSummed (push_entry j e)
unfolding push_entry
push_entry-IsSummed j e (hi, hr) = (
  rw (sum_i64-append (λ x. x.iutils) 0 j.result e, hi) refl,
  rw (sum_i64-append (λ x. x.rutils) 0 j.result e, hr) refl,
)

join_pairs-IsSummed :
    (xs ys : List UlEntry) (j : Joined) → IsSummed j → IsSummed (join_pairs xs ys j)
unfolding join_pairs
join_pairs-IsSummed [] ys j h = h
join_pairs-IsSummed (x ∷ xs) [] j h = h
join_pairs-IsSummed (x ∷ xs) (y ∷ ys) j h = elim (Compare-cases x.tid y.tid) [
  | inl (c, _) ↦ rw (c, join_pairs) (join_pairs-IsSummed xs (y ∷ ys) j h)
  | inr (inl (c, _)) ↦
      rw (c, join_pairs)
        (join_pairs-IsSummed xs ys (push_entry j (pair_entry x y)) (push_entry-IsSummed j _ h))
  | inr (inr (c, _)) ↦ rw (c, join_pairs) (join_pairs-IsSummed (x ∷ xs) ys j h)
]

join_prefixed-IsSummed :
    (ps xs ys : List UlEntry) (j : Joined) → IsSummed j → IsSummed (join_prefixed ps xs ys j)
unfolding join_prefixed
join_prefixed-IsSummed ps [] ys j h = h
join_prefixed-IsSummed ps (x ∷ xs) [] j h = h
join_prefixed-IsSummed ps (x ∷ xs) (y ∷ ys) j h = elim (Compare-cases x.tid y.tid) [
  | inl (c, _) ↦ rw (c, join_prefixed) (join_prefixed-IsSummed ps xs (y ∷ ys) j h)
  | inr (inl (c, _)) ↦
      rw (c, join_prefixed)
        (join_prefixed-IsSummed (skip_below x.tid ps) xs ys
          (push_entry j (triple_entry x y (prefix_iutils x.tid (skip_below x.tid ps))))
          (push_entry-IsSummed j _ h))
  | inr (inr (c, _)) ↦ rw (c, join_prefixed) (join_prefixed-IsSummed ps (x ∷ xs) ys j h)
]

pub join_entries-IsSummed : (ps px py : List UlEntry) → IsSummed (join_entries ps px py)
unfolding join_entries
join_entries-IsSummed [] px py = join_pairs-IsSummed px py joined_empty (refl, refl)
join_entries-IsSummed (p ∷ ps) px py =
    join_prefixed-IsSummed (p ∷ ps) px py joined_empty (refl, refl)
