-- ===== src/Mining/Search/Nodes.antt =====
-- Utility lists in memory, with what the search needs of them: transactions in order, and fields
-- within their widths. A join keeps both.
use pocket_data_mining.Base.{
  ℕ, suc, ◌*◌, ◌≤◌, ◌<◌, ◌^◌, ◌≡◌, refl, sym, ap, Option, none, some, List, [], ◌∷◌, ◌++◌, length,
  arith, All, Bool-cases, inl, inr, ◌==◌, ◌%◌, true,
}
use mathlib.Core.Path.{subst}
use mathlib.Core.Option.{some-injective}
use pocket_data_mining.Base.Words.{u32_mod}
use pocket_data_mining.Types.{UlEntry, UtilityList, recomputable}
use pocket_data_mining.Mining.UlJoin.{Joined, join_entries, triple_entry}
use pocket_data_mining.Mining.UlJoin.Bytes.{EntryFits}
use pocket_data_mining.Mining.UlJoin.Join.{Ascending, find, share, joined_one, join_spec}
use pocket_data_mining.Mining.UlJoin.Merge.{sum_i64, join_entries_lem, join_entries-Ascending}
use pocket_data_mining.Mining.Search.{last_item}

-- An itemset with its entries.
abbrev pub Node : Type 0
Node = List ℕ × List UlEntry

abbrev pub sum_iutils_of : List UlEntry → ℕ
sum_iutils_of = sum_i64 (λ e. e.iutils) 0

abbrev pub sum_rutils_of : List UlEntry → ℕ
sum_rutils_of = sum_i64 (λ e. e.rutils) 0

-- The header of a node, as far as the search looks at it.
abbrev pub header : Node → UtilityList
header n = record {
  itemset = n.0;
  sum_iutils = sum_iutils_of n.1;
  sum_rutils = sum_rutils_of n.1;
  len = length n.1 % u32_mod;
  page_id = 0;
  resident = true;
  recompute = recomputable;
}

pub record Describes (ul : UtilityList) (n : Node) : Type 0 where
  pub itemset_eq : ul.itemset ≡ n.0
  pub iutils_eq : ul.sum_iutils ≡ sum_iutils_of n.1
  pub rutils_eq : ul.sum_rutils ≡ sum_rutils_of n.1
  pub len_eq : ul.len ≡ length n.1 % u32_mod

pub header-Describes : (n : Node) → Describes (header n) n
header-Describes n = record { itemset_eq = refl; iutils_eq = refl; rutils_eq = refl; len_eq = refl }

-- Entries that can be stored and fetched.
pub record IsStorable (es : List UlEntry) : Type 0 where
  pub ascending : Ascending es
  pub fits : All EntryFits es
  pub short : 20 * length es < 2 ^ 32

abbrev pub join_node : List UlEntry → Node → Node → Node
join_node prefix_body x y = (x.0 ++ last_item y.0 ∷ [], (join_entries prefix_body x.1 y.1).result)

find-EntryFits :
    (tid : ℕ) (es : List UlEntry) (e : UlEntry)
    → All EntryFits es
    → find tid es ≡ some e
    → EntryFits e
unfolding find
find-EntryFits tid [] e h l = cc
find-EntryFits tid (f ∷ es) e h l = elim (Bool-cases (f.tid == tid)) [
  | inl same ↦ subst EntryFits (some-injective f e (rw same at l)) h.0
  | inr other ↦ find-EntryFits tid es e h.1 (rw other at l)
]

triple_entry-EntryFits :
    (x y : UlEntry) (u : ℕ) → EntryFits x → EntryFits y → EntryFits (triple_entry x y u)
triple_entry-EntryFits x y u hx hy = record {
  tid_fits = hx.tid_fits;
  iutils_fits = omega arith;
  rutils_fits = hy.rutils_fits;
}

joined_one-EntryFits :
    (u : ℕ) (x : UlEntry) (o : Option UlEntry) (rest : List UlEntry)
    → EntryFits x
    → ((y : UlEntry) → o ≡ some y → EntryFits y)
    → All EntryFits rest
    → All EntryFits (joined_one u x o rest)
unfolding joined_one
joined_one-EntryFits u x none rest hx hy hr = hr
joined_one-EntryFits u x (some y) rest hx hy hr = (triple_entry-EntryFits x y u hx (hy y refl), hr)

join_spec-EntryFits :
    (ps xs ys : List UlEntry)
    → All EntryFits xs
    → All EntryFits ys
    → All EntryFits (join_spec ps xs ys)
unfolding join_spec
join_spec-EntryFits ps [] ys hx hy = tt
join_spec-EntryFits ps (x ∷ xs) ys hx hy =
    joined_one-EntryFits (share (find x.tid ps)) x (find x.tid ys) (join_spec ps xs ys) hx.0
      (λ y e. find-EntryFits x.tid ys y hy e) (join_spec-EntryFits ps xs ys hx.1 hy)

length-joined_one-le :
    (u : ℕ) (x : UlEntry) (o : Option UlEntry) (rest : List UlEntry)
    → length (joined_one u x o rest) ≤ suc (length rest)
unfolding joined_one
length-joined_one-le u x none rest = omega arith
length-joined_one-le u x (some y) rest = omega arith

length-join_spec-le : (ps xs ys : List UlEntry) → length (join_spec ps xs ys) ≤ length xs
unfolding join_spec
length-join_spec-le ps [] ys = omega arith
length-join_spec-le ps (x ∷ xs) ys = omega (
  arith,
  length-joined_one-le (share (find x.tid ps)) x (find x.tid ys) (join_spec ps xs ys),
  length-join_spec-le ps xs ys,
)

-- A join can be stored where both lists can.
pub join_node-IsStorable :
    (ps : List UlEntry) (x y : Node)
    → Ascending ps
    → IsStorable x.1
    → IsStorable y.1
    → IsStorable (join_node ps x y).1
join_node-IsStorable ps x y hp hx hy = record {
  ascending = join_entries-Ascending ps x.1 y.1 hp hx.ascending hy.ascending;
  fits =
      subst (λ j. All EntryFits j.result) (sym joined)
        (join_spec-EntryFits ps x.1 y.1 hx.fits hy.fits);
  short = omega (
    arith,
    ap (λ (j : Joined). length j.result) joined,
    length-join_spec-le ps x.1 y.1,
    hx.short,
  );
}
  where
    joined : join_entries ps x.1 y.1 ≡ record {
      result = join_spec ps x.1 y.1;
      sum_iutils = sum_iutils_of (join_spec ps x.1 y.1);
      sum_rutils = sum_rutils_of (join_spec ps x.1 y.1);
    }
    joined = join_entries_lem ps x.1 y.1 hp hx.ascending hy.ascending

pub length-join_node-le :
    (ps : List UlEntry) (x y : Node)
    → Ascending ps
    → Ascending x.1
    → Ascending y.1
    → length (join_node ps x y).1 ≤ length x.1
length-join_node-le ps x y hp hx hy =
    subst (λ j. length j.result ≤ length x.1) (sym (join_entries_lem ps x.1 y.1 hp hx hy))
      (length-join_spec-le ps x.1 y.1)
