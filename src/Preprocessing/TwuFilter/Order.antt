-- ===== src/Preprocessing/TwuFilter/Order.antt =====
-- The order of the keys (twu, item): what the sorts of the items rest on.
use pocket_data_mining.Base.{
  ℕ, ◌≡◌, ◌≢◌, Bool, true, false, not, ◌&&◌, ◌||◌, ltb, arith, ◌+◌, ◌%◌, ◌^◌, refl,
}
use pocket_data_mining.Base.Words.{lt_i64}
use pocket_data_mining.Preprocessing.TwuFilter.{key_before}

-- The same chain of comparisons, of two numbers for each key.
chain_before : ℕ × ℕ → ℕ × ℕ → Bool
chain_before (t, x) (u, y) = ltb t u || (not (ltb u t) && ltb x y)

chain_trans :
    (a b c : ℕ × ℕ) → chain_before b a ≡ false → chain_before c b ≡ false → chain_before c a ≡ false
unfolding chain_before
chain_trans (t, x) (u, y) (v, z) h k = ground arith

chain_asym : (a b : ℕ × ℕ) → chain_before a b ≡ true → chain_before b a ≡ false
unfolding chain_before
chain_asym (t, x) (u, y) h = ground arith

chain_total : (a b : ℕ × ℕ) → a.1 ≢ b.1 → chain_before b a ≡ false → chain_before a b ≡ true
unfolding chain_before
chain_total (t, x) (u, y) h k = ground arith

pub key_trans :
    (a b c : ℕ × ℕ) → key_before b a ≡ false → key_before c b ≡ false → key_before c a ≡ false
unfolding chain_before
key_trans (t, x) (u, y) (v, z) =
    chain_trans ((t + 2 ^ 63) % 2 ^ 64, x) ((u + 2 ^ 63) % 2 ^ 64, y) ((v + 2 ^ 63) % 2 ^ 64, z)

pub key_asym : (a b : ℕ × ℕ) → key_before a b ≡ true → key_before b a ≡ false
unfolding chain_before
key_asym (t, x) (u, y) = chain_asym ((t + 2 ^ 63) % 2 ^ 64, x) ((u + 2 ^ 63) % 2 ^ 64, y)

pub key_total : (a b : ℕ × ℕ) → a.1 ≢ b.1 → key_before b a ≡ false → key_before a b ≡ true
unfolding chain_before
key_total (t, x) (u, y) = chain_total ((t + 2 ^ 63) % 2 ^ 64, x) ((u + 2 ^ 63) % 2 ^ 64, y)

-- Where the first does not come after, and the items rise, it comes before.
pub key_rising :
    (t x u y : ℕ) → lt_i64 u t ≡ false → ltb x y ≡ true → key_before (t, x) (u, y) ≡ true
key_rising t x u y h k = rw (h, k) (cases (lt_i64 t u))
  where
    cases : (b : Bool) → (b || true) ≡ true
    cases true = refl
    cases false = refl

pub key_lower : (t x u y : ℕ) → lt_i64 t u ≡ true → key_before (t, x) (u, y) ≡ true
key_lower t x u y h = rw h refl
