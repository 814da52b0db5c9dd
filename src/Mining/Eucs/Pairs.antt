-- ===== src/Mining/Eucs/Pairs.antt =====
-- The hash map of mining/components/eucs.rs: what a lookup says after a pair, a row of pairs and a
-- whole transaction were added and the guard granted every request.
use pocket_data_mining.Base.{
  ℕ, ◌≡◌, ◌≢◌, refl, ◌∙◌, ap, Bool, true, false, ◌&&◌, Option, none, some, List, [], ◌∷◌, arith,
  ◌==◌, if◌then◌else◌,
}
use pocket_data_mining.Base.Words.{add_i64}
use pocket_data_mining.Mining.Eucs.{
  Eucs, Tracked, key, same_key, get, add_to, add_pair, and_then, add_row, add_transaction,
}

-- One more occurrence of a pair.
abbrev pub bump : ℕ → Option ℕ → Option ℕ
bump tu none = some (add_i64 0 tu)
bump tu (some sum) = some (add_i64 sum tu)

abbrev pub bump_if : Bool → ℕ → Option ℕ → Option ℕ
bump_if true tu o = bump tu o
bump_if false tu o = o

pub get-add_to :
    (k l : ℕ × ℕ) (tu : ℕ) (m : Eucs) → get l (add_to k tu m) ≡ bump_if (same_key k l) tu (get l m)
unfolding get add_to
get-add_to k l tu [] = ground arith
get-add_to k l tu (e ∷ m) = ground (arith, get-add_to k l tu m)

abbrev pub contains : ℕ → List ℕ → Bool
contains x [] = false
contains x (y ∷ ys) = if x == y then true else contains x ys

-- No item stands twice.
abbrev pub NoRepeats : List ℕ → Type 0
NoRepeats [] = Unit
NoRepeats (x ∷ xs) = (contains x xs ≡ false) × NoRepeats xs

get-add_pair :
    (x y tu : ℕ) (l : ℕ × ℕ) (s t : Tracked)
    → add_pair x y tu s ≡ (t, true)
    → get l t.0 ≡ bump_if (same_key (key x y) l) tu (get l s.0)
unfolding add_pair
get-add_pair x y tu l s t e = ground (arith, get-add_to (key x y) l tu s.0)

same_key-key :
    (x y c d : ℕ)
    → c ≢ d
    → same_key (key x y) (key c d) ≡ (if x == c then y == d else if x == d then y == c else false)
same_key-key x y c d ne = ground arith

-- Whether a row of pairs with x holds the pair of c and d.
abbrev row_holds : ℕ → ℕ → ℕ → List ℕ → Bool
row_holds c d x ys = if x == c then contains d ys else if x == d then contains c ys else false

row_holds-cons :
    (c d x y tu : ℕ) (ys : List ℕ) (o : Option ℕ)
    → c ≢ d
    → contains y ys ≡ false
    → bump_if (row_holds c d x ys) tu (bump_if (same_key (key x y) (key c d)) tu o)
      ≡ bump_if (row_holds c d x (y ∷ ys)) tu o
row_holds-cons c d x y tu ys o ne once = ground (arith, same_key-key x y c d ne)

pub and_then-inv :
    (rest : Tracked → Tracked × Bool) (r : Tracked × Bool) (t : Tracked)
    → and_then rest r ≡ (t, true)
    → (s : Tracked) × (r ≡ (s, true)) × (rest s ≡ (t, true))
and_then-inv rest (s, true) t e = (s, refl, e)
and_then-inv rest (s, false) t e = ground arith

get-add_row :
    (c d x tu : ℕ) (ys : List ℕ) (s t : Tracked)
    → c ≢ d
    → NoRepeats ys
    → add_row x ys tu s ≡ (t, true)
    → get (key c d) t.0 ≡ bump_if (row_holds c d x ys) tu (get (key c d) s.0)
unfolding add_row
get-add_row c d x tu [] s t ne once e = ground arith
get-add_row c d x tu (y ∷ ys) s t ne once e =
    let (r, first, later) = and_then-inv (add_row x ys tu) (add_pair x y tu s) t e in
    get-add_row c d x tu ys r t ne once.1 later
    ∙ ap (bump_if (row_holds c d x ys) tu) (get-add_pair x y tu (key c d) s r first)
    ∙ row_holds-cons c d x y tu ys (get (key c d) s.0) ne once.0

abbrev pub both : ℕ → ℕ → List ℕ → Bool
both c d xs = contains c xs && contains d xs

both-cons :
    (c d x tu : ℕ) (xs : List ℕ) (o : Option ℕ)
    → c ≢ d
    → contains x xs ≡ false
    → bump_if (both c d xs) tu (bump_if (row_holds c d x xs) tu o)
      ≡ bump_if (both c d (x ∷ xs)) tu o
both-cons c d x tu xs o ne once = ground arith

-- A transaction that was added to the end counts once for each pair of its items, and for no
-- other pair.
pub get-add_transaction :
    (c d tu : ℕ) (xs : List ℕ) (s t : Tracked)
    → c ≢ d
    → NoRepeats xs
    → add_transaction xs tu s ≡ (t, true)
    → get (key c d) t.0 ≡ bump_if (both c d xs) tu (get (key c d) s.0)
unfolding add_transaction
get-add_transaction c d tu [] s t ne once e = ground arith
get-add_transaction c d tu (x ∷ xs) s t ne once e =
    let (r, first, later) = and_then-inv (add_transaction xs tu) (add_row x xs tu s) t e in
    get-add_transaction c d tu xs r t ne once.1 later
    ∙ ap (bump_if (both c d xs) tu) (get-add_row c d x tu xs s r ne once.1 first)
    ∙ both-cons c d x tu xs (get (key c d) s.0) ne once.0
