-- ===== src/Base/Exec.antt =====
-- Code that mutates a state and may fail: what was done before a failure stays done.
use mathlib.Core.Logic.{◌≢◌}
use pocket_data_mining.Base.Io.{IoError, IoResult, ok, err, diverged}

abbrev pub Exec : Type 0 → Type 0 → Type 0
Exec S A = S → IoResult A × S

module _ {S A : Type 0} where
  abbrev pub pure : A → Exec S A
  pure a s = (ok a, s)

  abbrev pub fail : IoError → Exec S A
  fail e s = (err e, s)

  -- A result that the state has no part in.
  abbrev pub lift : IoResult A → Exec S A
  lift r s = (r, s)

  -- What holds if the code returns; a failure promises nothing.
  abbrev pub WhenOk : (A → S → Type 0) → IoResult A × S → Type 0
  WhenOk Q (ok a, s) = Q a s
  WhenOk Q (err e, s) = Unit

  pub WhenOk-all :
      (Q : A → S → Type 0) (r : IoResult A × S) → ((a : A) (s : S) → Q a s) → WhenOk Q r
  WhenOk-all Q (ok a, s) f = f a s
  WhenOk-all Q (err e, s) f = tt

  pub WhenOk-state : (K : S → Type 0) (r : IoResult A × S) → K r.1 → WhenOk (λ _ s. K s) r
  WhenOk-state K (ok a, s) h = h
  WhenOk-state K (err e, s) h = tt

  pub WhenOk-mono :
      (P Q : A → S → Type 0) (r : IoResult A × S)
      → ((a : A) (s : S) → P a s → Q a s)
      → WhenOk P r
      → WhenOk Q r
  WhenOk-mono P Q (ok a, s) f h = f a s h
  WhenOk-mono P Q (err e, s) f h = tt

-- An update that cannot fail.
abbrev pub modify : {S : Type 0} → (S → S) → Exec S (Unit {0})
modify f s = (ok tt, f s)

module _ {S A B : Type 0} where
  abbrev pub settle : (A → Exec S B) → IoResult A × S → IoResult B × S
  settle f (ok a, s) = f a s
  settle f (err e, s) = (err e, s)

  infixl 10 ◌>>=◌ ◌>>◌
  abbrev pub ◌>>=◌ : Exec S A → (A → Exec S B) → Exec S B
  ◌>>=◌ m f s = settle f (m s)

  abbrev pub ◌>>◌ : Exec S A → Exec S B → Exec S B
  m >> k = m >>= λ _. k

  pub WhenOk-settle :
      (Q : B → S → Type 0) (f : A → Exec S B) (r : IoResult A × S)
      → WhenOk (λ a s. WhenOk Q (f a s)) r
      → WhenOk Q (settle f r)
  WhenOk-settle Q f (ok a, s) h = h
  WhenOk-settle Q f (err e, s) h = tt

  -- Code on a part of the state, seen from the whole.
  pub WhenOk-part :
      (Q : A → B → Type 0) (f : S → B) (r : IoResult A × S)
      → WhenOk (λ a s. Q a (f s)) r
      → WhenOk Q (r.0, f r.1)
  WhenOk-part Q f (ok a, s) h = h
  WhenOk-part Q f (err e, s) h = tt

  -- A fact of the states before and after that no step breaks, failing or not.
  pub settle-keeps :
      (K : S → Type 0) (f : A → Exec S B) (r : IoResult A × S)
      → K r.1
      → ((a : A) (s : S) → K s → K (f a s).1)
      → K (settle f r).1
  settle-keeps K f (ok a, s) h step = step a s h
  settle-keeps K f (err e, s) h step = h

  -- The same, where the rest of the code may use what a success gave.
  pub settle-keeps_with :
      (K : S → Type 0) (W : A → S → Type 0) (f : A → Exec S B) (r : IoResult A × S)
      → K r.1
      → WhenOk W r
      → ((a : A) (s : S) → K s → W a s → K (f a s).1)
      → K (settle f r).1
  settle-keeps_with K W f (ok a, s) h w step = step a s h w
  settle-keeps_with K W f (err e, s) h w step = h

-- What holds after the code returns, and what holds after it fails.
abbrev pub Outcome :
    {S A : Type 0} → (A → S → Type 0) → (IoError → S → Type 0) → IoResult A × S → Type 0
Outcome Q R (ok a, s) = Q a s
Outcome Q R (err e, s) = R e s

module _ {S A : Type 0} where
  pub Outcome-state :
      (K : S → Type 0) (r : IoResult A × S) → K r.1 → Outcome (λ _ s. K s) (λ _ s. K s) r
  Outcome-state K (ok a, s) h = h
  Outcome-state K (err e, s) h = h

  pub Outcome-mono :
      (Q Q' : A → S → Type 0) (R R' : IoError → S → Type 0) (r : IoResult A × S)
      → Outcome Q R r
      → ((a : A) (s : S) → Q a s → Q' a s)
      → ((e : IoError) (s : S) → R e s → R' e s)
      → Outcome Q' R' r
  Outcome-mono Q Q' R R' (ok a, s) h f g = f a s h
  Outcome-mono Q Q' R R' (err e, s) h f g = g e s h

module _ {S A B : Type 0} where
  pub Outcome-settle :
      (Q : A → S → Type 0) (R : IoError → S → Type 0) (Q' : B → S → Type 0)
      (R' : IoError → S → Type 0) (f : A → Exec S B) (r : IoResult A × S)
      → Outcome Q R r
      → ((a : A) (s : S) → Q a s → Outcome Q' R' (f a s))
      → ((e : IoError) (s : S) → R e s → R' e s)
      → Outcome Q' R' (settle f r)
  Outcome-settle Q R Q' R' f (ok a, s) h next stop = next a s h
  Outcome-settle Q R Q' R' f (err e, s) h next stop = stop e s h

-- What holds after the code returns, where a failure is one of the parts' own, never that of a loop
-- without fuel.
abbrev pub Ends : {S A : Type 0} → (A → S → Type 0) → IoResult A × S → Type 0
Ends Q r = Outcome Q (λ e _. e ≢ diverged) r

-- The same of code that leaves the state alone.
abbrev pub Answers : {A : Type 0} → IoResult A → Type 0
Answers (ok a) = Unit
Answers (err e) = e ≢ diverged

module _ {S A : Type 0} where
  pub Ends-mono :
      (Q Q' : A → S → Type 0) (r : IoResult A × S)
      → ((a : A) (s : S) → Q a s → Q' a s)
      → Ends Q r
      → Ends Q' r
  Ends-mono Q Q' (ok a, s) f h = f a s h
  Ends-mono Q Q' (err e, s) f h = h

  -- What is known of a success, of the state in any case, and that the code ends, together.
  pub Ends-all :
      (Q : A → S → Type 0) (R : IoError → S → Type 0) (K : S → Type 0) (r : IoResult A × S)
      → Outcome Q R r
      → K r.1
      → Ends (λ _ _. Unit {0}) r
      → Ends (λ a s. Q a s × K s) r
  Ends-all Q R K (ok a, s) h k e = (h, k)
  Ends-all Q R K (err x, s) h k e = e

module _ {S A B : Type 0} where
  pub Ends-settle :
      (Q : B → S → Type 0) (f : A → Exec S B) (r : IoResult A × S)
      → Ends (λ a s. Ends Q (f a s)) r
      → Ends Q (settle f r)
  Ends-settle Q f (ok a, s) h = h
  Ends-settle Q f (err e, s) h = h

  -- Code all of whose steps end, ends.
  pub Ends-then :
      (f : A → Exec S B) (r : IoResult A × S)
      → Ends (λ _ _. Unit {0}) r
      → ((a : A) (s : S) → Ends (λ _ _. Unit {0}) (f a s))
      → Ends (λ _ _. Unit {0}) (settle f r)
  Ends-then f (ok a, s) h next = next a s
  Ends-then f (err e, s) h next = h
