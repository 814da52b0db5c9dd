-- ===== src/Mining/UlJoin/Join.antt =====
-- The join of two utility lists by transaction: for each entry of px whose transaction is also in py,
-- one entry with the utilities added and the prefix's share taken off. This is what the loops of
-- mining/components/ul_join.rs are measured by.
use mathlib.Core.Path.{subst}
use pocket_data_mining.Base.{
  ℕ, ◌≤◌, ◌<◌, ◌≡◌, refl, ap, false, Option, none, some, List, [], ◌∷◌, arith, All, ltb, ◌==◌,
  if◌then◌else◌, inl, inr, Bool-cases, ltb_false→le, ==→eq,
}
use pocket_data_mining.Base.Words.{add_i64, sub_i64}
use pocket_data_mining.Types.{UlEntry}
use pocket_data_mining.Mining.UlJoin.{skip_below, prefix_iutils}

-- Transaction ids rise along the list.
abbrev pub Ascending : List UlEntry → Type 0
Ascending [] = Unit
Ascending (e ∷ es) = All (λ f. e.tid < f.tid) es × Ascending es

unfoldable pub find : ℕ → List UlEntry → Option UlEntry
find tid [] = none
find tid (e ∷ es) = if e.tid == tid then some e else find tid es

abbrev pub share : Option UlEntry → ℕ
share none = 0
share (some e) = e.iutils

-- One entry of the join, written out, and the join as a whole.
abbrev pub joined_entry : ℕ → UlEntry → UlEntry → UlEntry
joined_entry utility x y = record {
  tid = x.tid;
  iutils = sub_i64 (add_i64 x.iutils y.iutils) utility;
  rutils = y.rutils;
}

unfoldable pub joined_one : ℕ → UlEntry → Option UlEntry → List UlEntry → List UlEntry
joined_one utility x none rest = rest
joined_one utility x (some y) rest = joined_entry utility x y ∷ rest

unfoldable pub join_spec : List UlEntry → List UlEntry → List UlEntry → List UlEntry
join_spec ps [] ys = []
join_spec ps (x ∷ xs) ys = joined_one (share (find x.tid ps)) x (find x.tid ys) (join_spec ps xs ys)

pub find_above : (tid : ℕ) (es : List UlEntry) → All (λ f. tid < f.tid) es → find tid es ≡ none
unfolding find
find_above tid [] h = refl
find_above tid (e ∷ es) h = ground (arith, find_above tid es h.1)

pub All-mono :
    (a b : ℕ) (es : List UlEntry) → a ≤ b → All (λ f. b < f.tid) es → All (λ f. a < f.tid) es
All-mono a b [] le h = tt
All-mono a b (e ∷ es) le h = (omega arith, All-mono a b es le h.1)

-- An entry of py below all of px is of no account.
pub join_spec-skip :
    (ps : List UlEntry) (y : UlEntry) (xs ys : List UlEntry)
    → All (λ x. y.tid < x.tid) xs
    → join_spec ps xs (y ∷ ys) ≡ join_spec ps xs ys
unfolding join_spec find
join_spec-skip ps y [] ys h = refl
join_spec-skip ps y (x ∷ xs) ys h = rw (miss, join_spec-skip ps y xs ys h.1)
  where
    miss : (y.tid == x.tid) ≡ false
    miss = ground arith

pub find-skip_below : (s t : ℕ) (ps : List UlEntry) → s ≤ t → find t (skip_below s ps) ≡ find t ps
unfolding find skip_below
find-skip_below s t [] le = refl
find-skip_below s t (p ∷ ps) le = ground (arith, find-skip_below s t ps le)

-- With the earlier part of the prefix skipped, the join of later entries is the same.
pub join_spec-skip_below :
    (s : ℕ) (ps xs ys : List UlEntry)
    → All (λ x. s < x.tid) xs
    → join_spec (skip_below s ps) xs ys ≡ join_spec ps xs ys
unfolding join_spec
join_spec-skip_below s ps [] ys h = refl
join_spec-skip_below s ps (x ∷ xs) ys h =
    rw (find-skip_below s x.tid ps (omega arith), join_spec-skip_below s ps xs ys h.1)

pub prefix_iutils-skip_below :
    (tid : ℕ) (ps : List UlEntry)
    → Ascending ps
    → prefix_iutils tid (skip_below tid ps) ≡ share (find tid ps)
unfolding find skip_below
prefix_iutils-skip_below tid [] h = refl
prefix_iutils-skip_below tid (p ∷ ps) h = elim (Bool-cases (ltb p.tid tid)) [
  | inl low ↦ ground (arith, prefix_iutils-skip_below tid ps h.1)
  | inr high ↦
      ground (arith, find_above tid ps (All-mono tid p.tid ps (ltb_false→le p.tid tid high) h.0))
]

pub skip_below-Ascending :
    (tid : ℕ) (ps : List UlEntry) → Ascending ps → Ascending (skip_below tid ps)
unfolding skip_below
skip_below-Ascending tid [] h = tt
skip_below-Ascending tid (p ∷ ps) h = ground (arith, skip_below-Ascending tid ps h.1)

pub join_spec-nil : (ps xs : List UlEntry) → join_spec ps xs [] ≡ []
unfolding join_spec joined_one find
join_spec-nil ps [] = refl
join_spec-nil ps (x ∷ xs) = join_spec-nil ps xs

pub join_spec-match :
    (ps : List UlEntry) (x : UlEntry) (xs : List UlEntry) (y : UlEntry) (ys : List UlEntry)
    → x.tid ≡ y.tid
    → All (λ f. x.tid < f.tid) xs
    → join_spec ps (x ∷ xs) (y ∷ ys) ≡ joined_entry (share (find x.tid ps)) x y ∷ join_spec ps xs ys
unfolding join_spec joined_one
join_spec-match ps x xs y ys e h =
    rw (hit, join_spec-skip ps y xs ys (subst (λ n. All (λ f. n < f.tid) xs) e h))
  where
    hit : find x.tid (y ∷ ys) ≡ some y
    hit = unfold find in ground arith

pub join_spec-low :
    (ps : List UlEntry) (x : UlEntry) (xs : List UlEntry) (y : UlEntry) (ys : List UlEntry)
    → x.tid < y.tid
    → All (λ f. y.tid < f.tid) ys
    → join_spec ps (x ∷ xs) (y ∷ ys) ≡ join_spec ps xs (y ∷ ys)
unfolding join_spec joined_one
join_spec-low ps x xs y ys lt h =
    rw (find_above x.tid (y ∷ ys) (lt, All-mono x.tid y.tid ys (omega arith) h))

pub find-tid : (tid : ℕ) (es : List UlEntry) (e : UlEntry) → find tid es ≡ some e → e.tid ≡ tid
unfolding find
find-tid tid [] e h = cc
find-tid tid (f ∷ es) e h = ground (arith, find-tid tid es e)

abbrev pub matched : ℕ → Option UlEntry → Option UlEntry → Option UlEntry
matched utility (some x) (some y) = some (joined_entry utility x y)
matched utility _ _ = none

-- The entry of the join for a transaction, if both lists have one: the utilities of both added,
-- less the prefix's, and what remains after the second item.
pub find-join_spec :
    (tid : ℕ) (ps px py : List UlEntry)
    → Ascending px
    → find tid (join_spec ps px py) ≡ matched (share (find tid ps)) (find tid px) (find tid py)
unfolding join_spec joined_one find
find-join_spec tid ps [] py hx = refl
find-join_spec tid ps (x ∷ xs) py hx = elim (Bool-cases (x.tid == tid)) [
  | inl e ↦ ground (
    arith,
    find-join_spec tid ps xs py hx.1,
    find_above tid xs (subst (λ n. All (λ f. n < f.tid) xs) (==→eq x.tid tid e) hx.0),
    ap (λ n. find n py) (==→eq x.tid tid e),
    ap (λ n. find n ps) (==→eq x.tid tid e),
  )
  | inr ne ↦ ground (arith, find-join_spec tid ps xs py hx.1)
]

-- The join is again in the order of the transactions.
All-join_spec :
    (n : ℕ) (ps px py : List UlEntry)
    → All (λ f. n < f.tid) px
    → All (λ f. n < f.tid) (join_spec ps px py)
unfolding join_spec joined_one
All-join_spec n ps [] py h = tt
All-join_spec n ps (x ∷ xs) py h = ground (arith, All-join_spec n ps xs py h.1)

pub join_spec-Ascending : (ps px py : List UlEntry) → Ascending px → Ascending (join_spec ps px py)
unfolding join_spec joined_one
join_spec-Ascending ps [] py h = tt
join_spec-Ascending ps (x ∷ xs) py h =
    ground (arith, All-join_spec x.tid ps xs py h.0, join_spec-Ascending ps xs py h.1)
