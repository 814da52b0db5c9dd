-- ===== src/Base/Io.antt =====
-- io::Result, with the kinds of errors that the code tells apart. Two are no errors of
-- the code: `diverged` marks a loop of the model that ran out of fuel, `panicked` a panic.

pub data IoError : Type 0 where
  not_found invalid_data unexpected_eof pool_full other diverged panicked : IoError

pub data IoResult {ℓ} (A : Type ℓ) : Type ℓ where
  ok : A → IoResult A
  err : IoError → IoResult A

infixl 10 ◌>>=◌ ◌>>◌
abbrev pub ◌>>=◌ {ℓ κ} : {A : Type ℓ} {B : Type κ} → IoResult A → (A → IoResult B) → IoResult B
ok value >>= then_do = then_do value
err error >>= then_do = err error

abbrev pub ◌>>◌ {ℓ} : {B : Type ℓ} → IoResult (Unit {0}) → IoResult B → IoResult B
first >> second = first >>= λ _. second
