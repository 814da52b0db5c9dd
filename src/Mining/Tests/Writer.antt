-- ===== src/Mining/Tests/Writer.antt =====
-- The text of a result.
use pocket_data_mining.Base.{◌-◌, ◌^◌, ◌≡◌, refl, [], ◌∷◌}
use pocket_data_mining.Mining.Core.ResultWriter.{result_line}

-- "1 23 #UTIL: -5"
short_line :
    result_line (1 ∷ 23 ∷ []) (2 ^ 64 - 5)
    ≡ 49 ∷ 32 ∷ 50 ∷ 51 ∷ 32 ∷ 35 ∷ 85 ∷ 84 ∷ 73 ∷ 76 ∷ 58 ∷ 32 ∷ 45 ∷ 53 ∷ 10 ∷ []
unfolding result_line
short_line = refl
