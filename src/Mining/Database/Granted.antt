-- ===== src/Mining/Database/Granted.antt =====
-- mining/components/eucs.rs with a memory guard that has 32 bytes for each pair of a transaction: it
-- refuses nothing.
use pocket_data_mining.Base.{
  ℕ, ◌+◌, ◌*◌, ◌≤◌, ◌<◌, ◌^◌, ◌≡◌, refl, Bool, true, false, Option, none, some, List, [], ◌∷◌,
  length, arith,
}
use pocket_data_mining.Mining.MemoryGuard.{try_alloc, try_alloc_lem}
use pocket_data_mining.Mining.Eucs.{
  Tracked, key, get, add_key, add_pair, and_then, add_row, add_transaction,
}

-- Nothing was refused, and at most 32 bytes for each of so many pairs were taken.
abbrev pub Granted : ℕ → Tracked → Tracked × Bool → Type 0
Granted n s (t, b) = (b ≡ true) × (t.1.budget ≡ s.1.budget) × (t.1.used ≤ s.1.used + 32 * n)

add_pair-Granted :
    (x y tu : ℕ) (s : Tracked)
    → s.1.used + 32 ≤ s.1.budget
    → s.1.budget < 2 ^ 64
    → Granted 1 s (add_pair x y tu s)
unfolding add_pair
add_pair-Granted x y tu (m, guard) room small = go (get (key x y) m)
  where
    taken : try_alloc 32 guard ≡ (record guard { used = guard.used + 32 }, true)
    taken = ground (arith, try_alloc_lem 32 guard (omega (arith, room, small)), room, small)

    go : (o : Option ℕ) → Granted 1 (m, guard) (add_key (key x y) tu o (m, guard))
    go none = rw taken (refl, refl, omega arith)
    go (some n) = (refl, refl, omega arith)

and_then-Granted :
    (i j : ℕ) (rest : Tracked → Tracked × Bool) (s : Tracked) (r : Tracked × Bool)
    → Granted i s r
    → ((t : Tracked)
        → t.1.budget ≡ s.1.budget
        → t.1.used ≤ s.1.used + 32 * i
        → Granted j t (rest t))
    → Granted (i + j) s (and_then rest r)
and_then-Granted i j rest s (t, false) (e, b, u) h = absurd (cc e)
and_then-Granted i j rest s (t, true) (e, b, u) h =
    let (e2, b2, u2) = h t b u in (e2, cc (b, b2), omega (arith, u, u2))

add_row-Granted :
    (x : ℕ) (ys : List ℕ) (tu : ℕ) (s : Tracked)
    → s.1.used + 32 * length ys ≤ s.1.budget
    → s.1.budget < 2 ^ 64
    → Granted (length ys) s (add_row x ys tu s)
unfolding add_row
add_row-Granted x [] tu s room small = (refl, refl, omega arith)
add_row-Granted x (y ∷ ys) tu s room small =
    let (e, b, u) =
      and_then-Granted 1 (length ys) (add_row x ys tu) s (add_pair x y tu s)
        (add_pair-Granted x y tu s (omega (arith, room)) small)
        (λ t b u.
          add_row-Granted x ys tu t (omega (arith, room, b, u)) (omega (arith, b, small))) in
    (e, b, omega (arith, u))

-- How many pairs a transaction has.
unfoldable pub pairs_in : List ℕ → ℕ
pairs_in [] = 0
pairs_in (x ∷ xs) = length xs + pairs_in xs

pub add_transaction-Granted :
    (xs : List ℕ) (tu : ℕ) (s : Tracked)
    → s.1.used + 32 * pairs_in xs ≤ s.1.budget
    → s.1.budget < 2 ^ 64
    → Granted (pairs_in xs) s (add_transaction xs tu s)
unfolding add_transaction pairs_in
add_transaction-Granted [] tu s room small = (refl, refl, omega arith)
add_transaction-Granted (x ∷ xs) tu s room small =
    and_then-Granted (length xs) (pairs_in xs) (add_transaction xs tu) s (add_row x xs tu s)
      (add_row-Granted x xs tu s (omega (arith, room)) small)
      (λ t b u.
        add_transaction-Granted xs tu t (omega (arith, room, b, u)) (omega (arith, b, small)))
