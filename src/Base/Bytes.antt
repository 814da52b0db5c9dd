-- ===== src/Base/Bytes.antt =====
-- Little-endian bytes: `to_le_bytes` and `from_le_bytes` of the standard library, at any width.
use Prim.Native.Nat.{ℕ, zero, suc, ◌+◌, ◌*◌, ◌/◌, ◌%◌, ◌^◌, ◌<◌}
use mathlib.Core.Path.{◌≡◌, refl, ap}
use mathlib.Core.List.{List, [], ◌∷◌, ◌++◌}
use native.Mathlib.Omega.{arith}
use native.Mathlib.Nat.{pow-suc}
use pocket_data_mining.Base.Lists.{length, All, take, drop}

unfoldable pub to_le_bytes : ℕ → ℕ → List ℕ
to_le_bytes zero n = []
to_le_bytes (suc w) n = n % 256 ∷ to_le_bytes w (n / 256)

unfoldable pub from_le_bytes : List ℕ → ℕ
from_le_bytes [] = 0
from_le_bytes (b ∷ bs) = b + 256 * from_le_bytes bs

pub length-to_le_bytes : (w n : ℕ) → length (to_le_bytes w n) ≡ w
unfolding to_le_bytes
length-to_le_bytes zero n = refl
length-to_le_bytes (suc w) n = ap suc (length-to_le_bytes w (n / 256))

-- Every byte is below 256.
pub All-to_le_bytes : (w n : ℕ) → All (λ b. b < 256) (to_le_bytes w n)
unfolding to_le_bytes
All-to_le_bytes zero n = tt
All-to_le_bytes (suc w) n = (omega arith, All-to_le_bytes w (n / 256))

-- A number that fits in `w` bytes comes back.
pub from_le_bytes-to_le_bytes : (w n : ℕ) → n < 256 ^ w → from_le_bytes (to_le_bytes w n) ≡ n
unfolding from_le_bytes to_le_bytes
from_le_bytes-to_le_bytes zero n h = omega arith
from_le_bytes-to_le_bytes (suc w) n h =
    omega
      (arith, pow-suc 256 w, from_le_bytes-to_le_bytes w (n / 256) (omega (arith, pow-suc 256 w)))

module _ {ℓ} {A : Type ℓ} where
  -- Taking the length of a first part off a concatenation.
  pub take-append_of_length : (n : ℕ) (xs ys : List A) → length xs ≡ n → take n (xs ++ ys) ≡ xs
  take-append_of_length zero [] ys h = refl
  take-append_of_length zero (x ∷ xs) ys h = absurd (omega arith)
  take-append_of_length (suc n) [] ys h = absurd (omega arith)
  take-append_of_length (suc n) (x ∷ xs) ys h =
      ap (◌∷◌ x) (take-append_of_length n xs ys (omega arith))

  pub drop-append_of_length : (n : ℕ) (xs ys : List A) → length xs ≡ n → drop n (xs ++ ys) ≡ ys
  drop-append_of_length zero [] ys h = refl
  drop-append_of_length zero (x ∷ xs) ys h = absurd (omega arith)
  drop-append_of_length (suc n) [] ys h = absurd (omega arith)
  drop-append_of_length (suc n) (x ∷ xs) ys h = drop-append_of_length n xs ys (omega arith)
