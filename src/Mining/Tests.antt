-- ===== src/Mining/Tests.antt =====
-- The memory guard, the joins, the co-occurrence structure and the pruning test at concrete inputs.
mod Bodies
mod Search
mod Mined
mod TopK
mod TwoPhase
mod Writer
use pocket_data_mining.Base.{
  ℕ, zero, suc, ◌+◌, ◌-◌, ◌*◌, ◌≤◌, ◌<◌, ◌^◌, ◌≡◌, ◌≢◌, refl, Bool, true, false, Option, none, some,
  List, [], ◌∷◌, length, arith, ltb, ◌==◌, if◌then◌else◌, All, replicate,
}
use pocket_data_mining.Base.Assoc.{lookup}
use pocket_data_mining.Base.Io.{ok}
use pocket_data_mining.Base.Exec.{Outcome, WhenOk}
use pocket_data_mining.Types.{
  UlEntry, UtilityList, ItemEntry, RawTransaction, recomputable, is_high_utility,
}
use pocket_data_mining.Types
use pocket_data_mining.Types.UtilityBounds.{can_prune-not-high}
use pocket_data_mining.Mining.MemoryGuard.{
  MemoryGuard, try_alloc, free, try_alloc_lem, free-try_alloc, free-le, try_alloc_overflow,
}
use pocket_data_mining.Mining.MemoryGuard.Threads.{
  Thread, idle, added, Move, add, grant, Step, here, there, Reach, start, next, held_by, total,
  held-le-budget,
}
use pocket_data_mining.Mining.UlJoin.{Joined, serialize_ul_body, deserialize_ul_body, join_entries}
use pocket_data_mining.Mining.UlJoin.Bytes.{EntryFits, deserialize-serialize}
use pocket_data_mining.Mining.UlJoin.Join.{Ascending, find, share, matched, join_spec}
use pocket_data_mining.Mining.UlJoin.Merge.{
  sum_i64, join_entries_lem, find-join_entries, join_entries-Ascending,
}
use pocket_data_mining.Mining.Eucs.{
  Tracked, eucs_new, items_of, build, add_transaction, add_row, add_pair, add_to, get, pruned,
  can_prune,
}
use pocket_data_mining.Mining.Eucs.Pairs.{NoRepeats}
use pocket_data_mining.Mining.Eucs.Complete.{
  shared_utility, low_or_absent, can_prune-build, can_prune-build_refused,
}

abbrev half_full : MemoryGuard
half_full = record { used = 50; budget = 100 }

try_alloc_overflow_example :
    (try_alloc (2 ^ 64 - 50) half_full ≡ (record { used = 0; budget = 100 }, true))
    × (try_alloc 100 (try_alloc (2 ^ 64 - 50) half_full).0
        ≡ (record { used = 100; budget = 100 }, true))
try_alloc_overflow_example = try_alloc_overflow half_full (omega arith) (omega arith) (omega arith)

-- Two threads ask at the same time: the first is granted, the second still waits for its test.
two_ask : Reach 100 0 (replicate 2 (idle 0)) 120 (idle 60 ∷ added 0 60 60 ∷ [])
two_ask =
    next
      (next (next start (here (add {bytes = 60} (omega arith))))
        (there (here (add {bytes = 60} (omega arith)))))
      (here (grant refl))

held-le-budget_example : total held_by (idle 60 ∷ added 0 60 60 ∷ []) ≤ 100
held-le-budget_example = held-le-budget 100 2 two_ask

abbrev entry : ℕ → ℕ → ℕ → UlEntry
entry tid iutils rutils = record { tid = tid; iutils = iutils; rutils = rutils }

abbrev list_p : List UlEntry
list_p = entry 1 5 30 ∷ entry 3 2 9 ∷ []

abbrev list_px : List UlEntry
list_px = entry 1 15 20 ∷ entry 2 4 4 ∷ entry 3 6 5 ∷ []

abbrev list_py : List UlEntry
list_py = entry 1 25 10 ∷ entry 3 7 0 ∷ entry 4 1 0 ∷ []

list_p-Ascending : Ascending list_p
list_p-Ascending = ((omega arith, tt), (tt, tt))

list_px-Ascending : Ascending list_px
list_px-Ascending = ((omega arith, (omega arith, tt)), ((omega arith, tt), (tt, tt)))

list_py-Ascending : Ascending list_py
list_py-Ascending = ((omega arith, (omega arith, tt)), ((omega arith, tt), (tt, tt)))

join_entries_lem_example : join_entries list_p list_px list_py ≡ record {
  result = join_spec list_p list_px list_py;
  sum_iutils = sum_i64 (λ e. e.iutils) 0 (join_spec list_p list_px list_py);
  sum_rutils = sum_i64 (λ e. e.rutils) 0 (join_spec list_p list_px list_py);
}
join_entries_lem_example =
    join_entries_lem list_p list_px list_py list_p-Ascending list_px-Ascending list_py-Ascending

find-join_entries_example :
    find 3 (join_entries list_p list_px list_py).result
    ≡ matched (share (find 3 list_p)) (find 3 list_px) (find 3 list_py)
find-join_entries_example =
    find-join_entries 3 list_p list_px list_py list_p-Ascending list_px-Ascending list_py-Ascending

entry-EntryFits :
    (tid iutils rutils : ℕ)
    → tid < 2 ^ 32
    → iutils < 2 ^ 64
    → rutils < 2 ^ 64
    → EntryFits (entry tid iutils rutils)
entry-EntryFits tid iutils rutils h i r = record { tid_fits = h; iutils_fits = i; rutils_fits = r }

list_p-EntryFits : All EntryFits list_p
list_p-EntryFits = (
  entry-EntryFits 1 5 30 (omega arith) (omega arith) (omega arith),
  (entry-EntryFits 3 2 9 (omega arith) (omega arith) (omega arith), tt),
)

deserialize-serialize_example : deserialize_ul_body (serialize_ul_body list_p) ≡ some list_p
deserialize-serialize_example = deserialize-serialize list_p list_p-EntryFits

abbrev low_list : UtilityList
low_list = record {
  itemset = 1 ∷ [];
  sum_iutils = 50;
  sum_rutils = 40;
  len = 2;
  page_id = 0;
  resident = true;
  recompute = recomputable;
}

low_list_pruned : Types.can_prune low_list 100 ≡ true
unfolding Types.can_prune Types.twu
low_list_pruned = refl

abbrev sale : ℕ → ℕ → List ItemEntry → RawTransaction
sale tid tu items = record { tid = tid; transaction_utility = tu; items = items }

abbrev priced : ℕ → ℕ → ItemEntry
priced item utility = record { item = item; utility = utility }

abbrev sales : List RawTransaction
sales =
    sale 0 100 (priced 5 50 ∷ priced 3 50 ∷ [])
    ∷ sale 1 200 (priced 3 100 ∷ priced 4 50 ∷ priced 5 50 ∷ [])
    ∷ []

sales-NoRepeats : All (λ tx. NoRepeats (items_of tx)) sales
sales-NoRepeats = ((refl, (refl, tt)), ((refl, (refl, (refl, tt))), tt))

abbrev wide : MemoryGuard
wide = record { used = 0; budget = 1000 }

abbrev built : Tracked
unfolding build add_transaction add_row add_pair add_to get try_alloc
built = (build sales (eucs_new, wide)).0

built_complete : build sales (eucs_new, wide) ≡ (built, true)
unfolding build add_transaction add_row add_pair add_to get try_alloc built
built_complete = refl

-- Items 5 and 3 stand in both transactions, with 300 together.
can_prune-build_example :
    can_prune 5 3 300 built.0 ≡ low_or_absent 300 (shared_utility 5 3 sales none)
can_prune-build_example =
    can_prune-build 5 3 300 sales wide built (λ e. omega arith) sales-NoRepeats built_complete

kept_300 : can_prune 5 3 300 built.0 ≡ false
unfolding build add_transaction add_row add_pair add_to get try_alloc built can_prune
kept_300 = refl

can_prune-build_refused_example :
    can_prune 3 5 1 (build sales (eucs_new, record { used = 0; budget = 31 })).0.0 ≡ true
can_prune-build_refused_example =
    can_prune-build_refused 3 5 1 sales (record { used = 0; budget = 31 }) (omega arith)
      (omega arith)
