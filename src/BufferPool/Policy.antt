-- ===== src/BufferPool/Policy.antt =====
-- buffer_pool/eviction/policy.rs: the trait EvictionPolicy, and what the pool relies on.
pub mod Lru
use mathlib.Core.Logic.{◌⊎◌}
use pocket_data_mining.Base.{ℕ, ◌≡◌, false, Option, some, List, [], ◌∷◌}
use pocket_data_mining.Types.{PageMeta, is_pinned}

pub record EvictionPolicy (P : Type 0) : Type 1 where
  pub State : Type 0
  pub on_access : ℕ → State → State
  pub on_insert : ℕ → State → State
  pub on_evict : ℕ → State → State
  pub pick_victim : List (ℕ × PageMeta P) → State → Option ℕ

abbrev pub Member : {A : Type 0} → A → List A → Type 0
Member x [] = ⊥
Member x (y ∷ ys) = (x ≡ y) ⊎ Member x ys

-- A victim is one of the frames that were offered, and not a pinned one.
pub record PolicyLaws {P : Type 0} (E : EvictionPolicy P) : Type 0 where
  pub victim_lem :
      (frames : List (ℕ × PageMeta P)) (s : E.State) (v : ℕ)
      → E.pick_victim frames s ≡ some v
      → (m : PageMeta P) × Member (v, m) frames × (is_pinned m ≡ false)
