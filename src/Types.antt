-- ===== src/Types.antt =====
-- src/types: the identifiers and the records that every part shares. An ItemId, a PageId and a tid
-- are numbers; a Utility (i64) is its bit pattern (see Base/Words.antt).
pub mod UtilityBounds
use pocket_data_mining.Base.{
  ℕ, ◌≤◌, ◌<◌, Bool, true, false, not, ◌&&◌, ◌||◌, Option, none, List, ltb, ◌==◌,
}
use pocket_data_mining.Base.Words.{add_i64, lt_i64}

-- types/transaction.rs
pub record ItemEntry : Type 0 where
  pub item : ℕ
  pub utility : ℕ

pub record RawTransaction : Type 0 where
  pub tid : ℕ
  pub transaction_utility : ℕ
  pub items : List ItemEntry

-- types/page.rs. `P` is the type of `predicted_access_prob`, a float that the model does not look into.
pub record PageMeta (P : Type 0) : Type 0 where
  pub page_id : ℕ
  pub size_bytes : ℕ
  pub dirty : Bool
  pub pin_count : ℕ
  pub last_access_tick : ℕ
  pub access_count : ℕ
  pub predicted_access_prob : P
  pub traversal_depth : ℕ
  pub reload_cost_ns : ℕ
  pub recompute_cost_ns : ℕ
  pub parent_page : Option ℕ

module _ {P : Type 0} where
  -- `zero_prob` is the literal 0.0.
  abbrev pub PageMeta_new : P → ℕ → ℕ → PageMeta P
  PageMeta_new zero_prob page_id size_bytes = record {
    page_id = page_id;
    size_bytes = size_bytes;
    dirty = false;
    pin_count = 0;
    last_access_tick = 0;
    access_count = 0;
    predicted_access_prob = zero_prob;
    traversal_depth = 0;
    reload_cost_ns = 0;
    recompute_cost_ns = 0;
    parent_page = none;
  }

  abbrev pub is_pinned : PageMeta P → Bool
  is_pinned m = ltb 0 m.pin_count

  abbrev pub prefer_recompute : PageMeta P → Bool
  prefer_recompute m = ltb 0 m.recompute_cost_ns && ltb m.recompute_cost_ns m.reload_cost_ns

-- types/utility_list.rs
pub record UlEntry : Type 0 where
  pub tid : ℕ
  pub iutils : ℕ
  pub rutils : ℕ

pub data RecomputeFlag : Type 0 where
  materialized recomputable : RecomputeFlag

pub record UtilityList : Type 0 where
  pub itemset : List ℕ
  pub sum_iutils : ℕ
  pub sum_rutils : ℕ
  pub len : ℕ
  pub page_id : ℕ
  pub resident : Bool
  pub recompute : RecomputeFlag

unfoldable pub twu : UtilityList → ℕ
twu ul = add_i64 ul.sum_iutils ul.sum_rutils

unfoldable pub can_prune : UtilityList → ℕ → Bool
unfolding twu
can_prune ul min_utility = ul.len == 0 || lt_i64 (twu ul) min_utility

unfoldable pub is_high_utility : UtilityList → ℕ → Bool
is_high_utility ul min_utility = ltb 0 ul.len && not (lt_i64 ul.sum_iutils min_utility)
