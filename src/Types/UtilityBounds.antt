-- ===== src/Types/UtilityBounds.antt =====
-- types/utility_list.rs: how the pruning test and the reporting test relate.
use pocket_data_mining.Base.{ℕ, ◌+◌, ◌<◌, ◌^◌, ◌≡◌, true, false, arith}
use pocket_data_mining.Types.{UtilityList, can_prune, is_high_utility}

-- A list that is pruned is not of high utility itself, where the two sums, their total and the
-- minimum are nonnegative i64 values.
pub can_prune-not-high :
    (ul : UtilityList) (min_utility : ℕ)
    → ul.sum_iutils + ul.sum_rutils < 2 ^ 63
    → min_utility < 2 ^ 63
    → can_prune ul min_utility ≡ true
    → is_high_utility ul min_utility ≡ false
unfolding can_prune is_high_utility
can_prune-not-high ul min_utility fits small pruned = ground arith
