-- ===== src/Base/Assoc.antt =====
-- A map with number keys as an association list: HashMap, BTreeMap and DashMap where the code
-- looks keys up, inserts and removes. Each key stands at most once (`Distinct` says so).
use Prim.Native.Nat.{ℕ}
use mathlib.Core.Path.{◌≡◌, refl}
use mathlib.Core.List.{List, [], ◌∷◌}
use mathlib.Core.Option.{Option, none, some}
use native.Mathlib.Omega.{arith}
use Prim.Native.Nat.{◌+◌}
use pocket_data_mining.Base.Lists.{length}
use pocket_data_mining.Base.Tests.{◌==◌, if◌then◌else◌}

abbrev pub Assoc {ℓ} : Type ℓ → Type ℓ
Assoc V = List (ℕ × V)

module _ {ℓ} {V : Type ℓ} where
  unfoldable pub lookup : ℕ → Assoc V → Option V
  lookup id [] = none
  lookup id ((key, value) ∷ table) = if key == id then some value else lookup id table

  -- A new key goes to the end, an old one is replaced where it stands.
  unfoldable pub insert : ℕ → V → Assoc V → Assoc V
  insert id new [] = (id, new) ∷ []
  insert id new ((key, value) ∷ table) =
      let tail = insert id new table in if key == id then (id, new) ∷ table else (key, value) ∷ tail

  unfoldable pub remove : ℕ → Assoc V → Assoc V
  remove id [] = []
  remove id ((key, value) ∷ table) =
      let tail = remove id table in if key == id then tail else (key, value) ∷ tail

  pub lookup-insert :
      (id other : ℕ) (new : V) (table : Assoc V)
      → lookup other (insert id new table) ≡ (if id == other then some new else lookup other table)
  unfolding lookup insert
  lookup-insert id other new [] = refl
  lookup-insert id other new ((key, value) ∷ table) =
      ground (arith, lookup-insert id other new table)

  pub lookup-remove :
      (id other : ℕ) (table : Assoc V)
      → lookup other (remove id table) ≡ (if id == other then none else lookup other table)
  unfolding lookup remove
  lookup-remove id other [] = ground arith
  lookup-remove id other ((key, value) ∷ table) = ground (arith, lookup-remove id other table)

  -- Each key stands once.
  abbrev pub Distinct : Assoc V → Type ℓ
  Distinct [] = Unit
  Distinct ((k, v) ∷ m) = (lookup k m ≡ none) × Distinct m

  pub insert-Distinct : (k : ℕ) (v : V) (m : Assoc V) → Distinct m → Distinct (insert k v m)
  unfolding insert lookup
  insert-Distinct k v [] d = (refl, tt)
  insert-Distinct k v ((j, w) ∷ m) d =
      ground (arith, lookup-insert k j v m, insert-Distinct k v m d.1)

  pub remove-Distinct : (k : ℕ) (m : Assoc V) → Distinct m → Distinct (remove k m)
  unfolding remove
  remove-Distinct k [] d = tt
  remove-Distinct k ((j, w) ∷ m) d = ground (arith, lookup-remove k j m, remove-Distinct k m d.1)

pub ruleset map_laws = (lookup-insert, lookup-remove)

-- A sum over the entries, for sizes and for counting.
module _ {ℓ} {V : Type ℓ} where
  unfoldable pub weight : (V → ℕ) → Assoc V → ℕ
  weight f [] = 0
  weight f ((k, v) ∷ m) = f v + weight f m

  abbrev pub weight_of : (V → ℕ) → Option V → ℕ
  weight_of f none = 0
  weight_of f (some v) = f v

  -- Replacing or adding an entry takes the old one's share off and puts the new one's on.
  pub weight-insert :
      (f : V → ℕ) (k : ℕ) (v : V) (m : Assoc V)
      → weight f (insert k v m) + weight_of f (lookup k m) ≡ weight f m + f v
  unfolding weight insert lookup
  weight-insert f k v [] = omega arith
  weight-insert f k v ((j, w) ∷ m) = ground (arith, weight-insert f k v m)

  remove_absent : (k : ℕ) (m : Assoc V) → lookup k m ≡ none → remove k m ≡ m
  unfolding remove lookup
  remove_absent k [] a = refl
  remove_absent k ((j, w) ∷ m) a = ground (arith, remove_absent k m)

  pub weight-remove :
      (f : V → ℕ) (k : ℕ) (m : Assoc V)
      → Distinct m
      → weight f (remove k m) + weight_of f (lookup k m) ≡ weight f m
  unfolding weight remove lookup
  weight-remove f k [] d = omega arith
  weight-remove f k ((j, w) ∷ m) d = ground (arith, weight-remove f k m d.1, remove_absent k m)

  pub weight-one : (m : Assoc V) → weight (λ _. 1) m ≡ length m
  unfolding weight
  weight-one [] = refl
  weight-one ((k, v) ∷ m) = omega (arith, weight-one m)
