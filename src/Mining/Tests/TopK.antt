-- ===== src/Mining/Tests/TopK.antt =====
-- The heap of the top-k algorithms at concrete inputs.
use pocket_data_mining.Base.{◌≡◌, refl, ◌⊎◌, List, [], ◌∷◌, length}
use pocket_data_mining.Base.Sort.{place}
use pocket_data_mining.Mining.Algorithms.TopK.{HeapEntry, state_new, update, push_bounded}
use pocket_data_mining.Mining.Algorithms.TopK.Best.{state_after, greatest, heap-greatest}
use pocket_data_mining.Mining.Algorithms.TopK.Threshold.{AtLeast, threshold-greatest}

abbrev three_offers : List HeapEntry
three_offers = (20, 3 ∷ []) ∷ (30, 2 ∷ []) ∷ (10, 1 ∷ []) ∷ []

two_best : (state_after 2 three_offers).heap ≡ (20, 3 ∷ []) ∷ (30, 2 ∷ []) ∷ []
unfolding state_new update push_bounded place
two_best = refl

two_best_threshold : (state_after 2 three_offers).threshold ≡ 20
unfolding state_new update push_bounded place
two_best_threshold = refl

heap-greatest_example : (state_after 2 three_offers).heap ≡ greatest 2 three_offers
heap-greatest_example = heap-greatest 2 three_offers

threshold-greatest_example :
    ((state_after 2 three_offers).threshold ≡ 0)
    ⊎ ((length (greatest 2 three_offers) ≡ 2)
        × AtLeast (state_after 2 three_offers).threshold (greatest 2 three_offers))
threshold-greatest_example = threshold-greatest 2 three_offers
