-- ===== src/Mining/Search/Chain.antt =====
-- How the utility lists of one level nest: what an entry of a later list still holds is part of what
-- remains after the entry of an earlier one. A join keeps this, and does not raise the total.
use mathlib.Core.Path.{subst}
use pocket_data_mining.Base.{
  ℕ, ◌+◌, ◌-◌, ◌≤◌, ◌<◌, ◌^◌, ◌≡◌, sym, ◌∙◌, Option, none, some, List, [], ◌∷◌, arith, All,
  Bool-cases, inl, inr, ◌==◌, ==→eq,
}
use pocket_data_mining.Base.Words.{add_i64}
use pocket_data_mining.Types.{UlEntry}
use pocket_data_mining.Mining.UlJoin.{triple_entry}
use pocket_data_mining.Mining.UlJoin.Join.{
  Ascending, find, share, matched, joined_one, join_spec, find_above,
}
use pocket_data_mining.Mining.UlJoin.Merge.{join_entries_lem, find-join_entries, sum_i64}
use pocket_data_mining.Mining.Search.Nodes.{Node, join_node, sum_iutils_of, sum_rutils_of}

-- For the entries e and f of an earlier and a later list, where p is the prefix's utility.
abbrev pub Nested : ℕ → UlEntry → UlEntry → Type 0
Nested p e f =
    (p ≤ e.iutils)
    × (p ≤ f.iutils)
    × (f.iutils + f.rutils ≤ e.rutils + p)
    × (e.iutils + e.rutils < 2 ^ 63)

abbrev pub NestedAt : ℕ → Option UlEntry → Option UlEntry → Type 0
NestedAt p (some e) (some f) = Nested p e f
NestedAt p (some e) none = Unit
NestedAt p none o = Unit

pub record IsChained (ps x y : List UlEntry) : Type 0 where
  pub nested : (tid : ℕ) → NestedAt (share (find tid ps)) (find tid x) (find tid y)

abbrev pub Chain : List UlEntry → List Node → Type 0
Chain ps [] = Unit
Chain ps (n ∷ ns) = All (λ m. IsChained ps n.1 m.1) ns × Chain ps ns

triple-iutils :
    (p : ℕ) (e f : UlEntry) → Nested p e f → (triple_entry e f p).iutils ≡ e.iutils + f.iutils - p
triple-iutils p e f (a, b, c, d) = omega arith

Nested-join :
    (p : ℕ) (e f g : UlEntry)
    → Nested p e f
    → Nested p e g
    → Nested p f g
    → Nested e.iutils (triple_entry e f p) (triple_entry e g p)
Nested-join p e f g (a1, b1, c1, d1) (a2, b2, c2, d2) (a3, b3, c3, d3) =
    (omega arith, omega arith, omega arith, omega arith)

NestedAt-join :
    (p : ℕ) (a b c : Option UlEntry)
    → NestedAt p a b
    → NestedAt p a c
    → NestedAt p b c
    → NestedAt (share a) (matched p a b) (matched p a c)
NestedAt-join p (some e) (some f) (some g) h k l = Nested-join p e f g h k l
NestedAt-join p (some e) (some f) none h k l = tt
NestedAt-join p (some e) none c h k l = tt
NestedAt-join p none b c h k l = tt

-- Two joins with the same earlier list nest as the later lists did.
pub join-IsChained :
    (ps : List UlEntry) (x y z : Node)
    → Ascending ps
    → Ascending x.1
    → Ascending y.1
    → Ascending z.1
    → IsChained ps x.1 y.1
    → IsChained ps x.1 z.1
    → IsChained ps y.1 z.1
    → IsChained x.1 (join_node ps x y).1 (join_node ps x z).1
join-IsChained ps x y z hp hx hy hz xy xz yz = record {
  nested = λ tid.
      rw (find-join_entries tid ps x.1 y.1 hp hx hy, find-join_entries tid ps x.1 z.1 hp hx hz)
        (NestedAt-join (share (find tid ps)) (find tid x.1) (find tid y.1) (find tid z.1)
          (xy.nested tid) (xz.nested tid) (yz.nested tid));
}

-- The utility and the remaining utility of all entries: what the search compares.
unfoldable pub total : List UlEntry → ℕ
total [] = 0
total (e ∷ es) = e.iutils + e.rutils + total es

-- Each entry of a list nests with what the later list has for its transaction.
abbrev NestedAll : List UlEntry → List UlEntry → List UlEntry → Type 0
NestedAll ps [] ys = Unit
NestedAll ps (e ∷ es) ys =
    NestedAt (share (find e.tid ps)) (some e) (find e.tid ys) × NestedAll ps es ys

total-joined_one :
    (p : ℕ) (e : UlEntry) (o : Option UlEntry) (rest : List UlEntry) (bound : ℕ)
    → NestedAt p (some e) o
    → total rest ≤ bound
    → total (joined_one p e o rest) ≤ e.iutils + e.rutils + bound
unfolding total joined_one
total-joined_one p e none rest bound h k = omega arith
total-joined_one p e (some f) rest bound (a, b, c, d) k =
    omega (arith, triple-iutils p e f (a, b, c, d))

total-join_spec :
    (ps xs ys : List UlEntry) → NestedAll ps xs ys → total (join_spec ps xs ys) ≤ total xs
unfolding total join_spec
total-join_spec ps [] ys h = omega arith
total-join_spec ps (e ∷ es) ys h =
    total-joined_one (share (find e.tid ps)) e (find e.tid ys) (join_spec ps es ys) (total es) h.0
      (total-join_spec ps es ys h.1)

find-here : (e : UlEntry) (es : List UlEntry) → find e.tid (e ∷ es) ≡ some e
unfolding find
find-here e es = ground arith

find-later :
    (e f : UlEntry) (es : List UlEntry) (tid : ℕ)
    → All (λ g. e.tid < g.tid) es
    → find tid es ≡ some f
    → find tid (e ∷ es) ≡ some f
unfolding find
find-later e f es tid h l = elim (Bool-cases (e.tid == tid)) [
  | inl same ↦
      ground
        (arith, find_above tid es (subst (λ n. All (λ g. n < g.tid) es) (==→eq e.tid tid same) h))
  | inr other ↦ rw (other, find) l
]

NestedAll-IsChained :
    (ps xs ys : List UlEntry)
    → Ascending xs
    → ((tid : ℕ) (e : UlEntry)
        → find tid xs ≡ some e
        → NestedAt (share (find tid ps)) (some e) (find tid ys))
    → NestedAll ps xs ys
NestedAll-IsChained ps [] ys hx h = tt
NestedAll-IsChained ps (e ∷ es) ys hx h = (
  h e.tid e (find-here e es),
  NestedAll-IsChained ps es ys hx.1 (λ tid f l. h tid f (find-later e f es tid hx.0 l)),
)

-- A join holds no more than the earlier of its lists.
pub total-join_node :
    (ps : List UlEntry) (x y : Node)
    → Ascending ps
    → Ascending x.1
    → Ascending y.1
    → IsChained ps x.1 y.1
    → total (join_node ps x y).1 ≤ total x.1
total-join_node ps x y hp hx hy chained =
    subst (λ j. total j.result ≤ total x.1) (sym (join_entries_lem ps x.1 y.1 hp hx hy))
      (total-join_spec ps x.1 y.1 (
        NestedAll-IsChained ps x.1 y.1 hx (λ tid e l.
          subst (λ o. NestedAt (share (find tid ps)) o (find tid y.1)) l (chained.nested tid))))

unfoldable iutils_total : List UlEntry → ℕ
iutils_total [] = 0
iutils_total (e ∷ es) = e.iutils + iutils_total es

unfoldable rutils_total : List UlEntry → ℕ
rutils_total [] = 0
rutils_total (e ∷ es) = e.rutils + rutils_total es

sum_i64-iutils :
    (es : List UlEntry) (acc : ℕ)
    → acc + iutils_total es < 2 ^ 64
    → sum_i64 (λ e. e.iutils) acc es ≡ acc + iutils_total es
unfolding iutils_total
sum_i64-iutils [] acc h = omega arith
sum_i64-iutils (e ∷ es) acc h = sum_i64-iutils es (add_i64 acc e.iutils) (omega arith) ∙ omega arith

sum_i64-rutils :
    (es : List UlEntry) (acc : ℕ)
    → acc + rutils_total es < 2 ^ 64
    → sum_i64 (λ e. e.rutils) acc es ≡ acc + rutils_total es
unfolding rutils_total
sum_i64-rutils [] acc h = omega arith
sum_i64-rutils (e ∷ es) acc h = sum_i64-rutils es (add_i64 acc e.rutils) (omega arith) ∙ omega arith

total-split : (es : List UlEntry) → total es ≡ iutils_total es + rutils_total es
unfolding total iutils_total rutils_total
total-split [] = omega arith
total-split (e ∷ es) = omega (arith, total-split es)

-- The two sums of a header add up to the total, where that is a nonnegative i64.
pub sums-total :
    (es : List UlEntry) → total es < 2 ^ 63 → sum_iutils_of es + sum_rutils_of es ≡ total es
sums-total es h = omega (
  arith,
  total-split es,
  sum_i64-iutils es 0 (omega (arith, total-split es)),
  sum_i64-rutils es 0 (omega (arith, total-split es)),
)
