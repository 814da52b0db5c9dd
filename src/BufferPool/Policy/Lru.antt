-- ===== src/BufferPool/Policy/Lru.antt =====
-- buffer_pool/eviction/lru.rs: the page that was accessed the longest ago and is not pinned.
use mathlib.Core.Option.{some-injective}
use mathlib.Core.Path.{subst}
use pocket_data_mining.Base.{
  ℕ, ◌-◌, ◌≤◌, ◌^◌, ◌≡◌, refl, false, Option, none, some, List, [], ◌∷◌, arith, inl, inr, ltb,
  if◌then◌else◌, ◌⊎◌, Bool-cases, Option-cases, ap,
}
use pocket_data_mining.Base.Assoc.{Assoc, lookup, insert, remove}
use pocket_data_mining.Base.Words.{add_u64}
use pocket_data_mining.Types.{PageMeta, is_pinned}
use pocket_data_mining.BufferPool.Policy.{EvictionPolicy, PolicyLaws, Member}

pub record LruPolicy : Type 0 where
  pub clock : ℕ
  pub last_access : Assoc ℕ

abbrev pub lru_new : LruPolicy
lru_new = record { clock = 0; last_access = [] }

abbrev u64_max : ℕ
u64_max = 2 ^ 64 - 1

-- on_access and on_insert have the same body.
unfoldable pub on_access : ℕ → LruPolicy → LruPolicy
on_access id s =
    let now = add_u64 s.clock 1 in record { clock = now; last_access = insert id now s.last_access }

unfoldable pub on_evict : ℕ → LruPolicy → LruPolicy
on_evict id s = record s { last_access = remove id s.last_access }

module _ {P : Type 0} where
  -- One round of the loop: (min_time, victim) before and after.
  abbrev consider : Assoc ℕ → ℕ → PageMeta P → ℕ × Option ℕ → ℕ × Option ℕ
  consider last id meta acc = if is_pinned meta then acc else elim (lookup id last) [
    | none ↦ acc
    | some time ↦ if ltb time acc.0 then (time, some id) else acc
  ]

  unfoldable pub scan : Assoc ℕ → List (ℕ × PageMeta P) → ℕ × Option ℕ → ℕ × Option ℕ
  scan last [] acc = acc
  scan last ((id, meta) ∷ rest) acc = scan last rest (consider last id meta acc)

  unfoldable pub pick_victim : List (ℕ × PageMeta P) → LruPolicy → Option ℕ
  unfolding scan
  pick_victim frames s = (scan s.last_access frames (u64_max, none)).1

  -- A frame that may go: offered, not pinned, and last used at time `t`.
  pub record IsCandidate (last : Assoc ℕ) (frames : List (ℕ × PageMeta P)) (id t : ℕ) : Type 0 where
    pub meta : PageMeta P
    pub offered : Member (id, meta) frames
    pub free : is_pinned meta ≡ false
    pub used_at : lookup id last ≡ some t

  abbrev IsChosen : Assoc ℕ → List (ℕ × PageMeta P) → ℕ × Option ℕ → Type 0
  IsChosen last frames (t, none) = ⊥
  IsChosen last frames (t, some v) = IsCandidate last frames v t

  later-IsChosen :
      (last : Assoc ℕ) (e : ℕ × PageMeta P) (frames : List (ℕ × PageMeta P)) (acc : ℕ × Option ℕ)
      → IsChosen last frames acc
      → IsChosen last (e ∷ frames) acc
  later-IsChosen last e frames (t, none) h = h
  later-IsChosen last e frames (t, some v) h = record {
    meta = h.meta;
    offered = inr h.offered;
    free = h.free;
    used_at = h.used_at;
  }

  consider-cases :
      (last : Assoc ℕ) (id : ℕ) (meta : PageMeta P) (rest : List (ℕ × PageMeta P))
      (acc : ℕ × Option ℕ)
      → (consider last id meta acc ≡ acc)
        ⊎ IsChosen last ((id, meta) ∷ rest) (consider last id meta acc)
  consider-cases last id meta rest acc = elim (Bool-cases (is_pinned meta)) [
    | inl pinned ↦ inl (rw pinned)
    | inr free ↦ elim (Option-cases (lookup id last)) [
      | inl never ↦ inl (rw (free, never))
      | inr (time, used) ↦ elim (Bool-cases (ltb time acc.0)) [
        | inl older ↦
            rw (free, used, older)
              (inr (record { meta = meta; offered = inl refl; free = free; used_at = used }))
        | inr newer ↦ inl (rw (free, used, newer))
      ]
    ]
  ]

  -- The result is the start, or a candidate.
  scan-cases :
      (last : Assoc ℕ) (frames : List (ℕ × PageMeta P)) (acc : ℕ × Option ℕ)
      → (scan last frames acc ≡ acc) ⊎ IsChosen last frames (scan last frames acc)
  unfolding scan
  scan-cases last [] acc = inl refl
  scan-cases last ((id, meta) ∷ rest) acc =
      elim (scan-cases last rest (consider last id meta acc)) [
        | inl e ↦ rw e (consider-cases last id meta rest acc)
        | inr c ↦ inr (later-IsChosen last (id, meta) rest _ c)
      ]

  consider-le :
      (last : Assoc ℕ) (id : ℕ) (meta : PageMeta P) (acc : ℕ × Option ℕ)
      → (consider last id meta acc).0 ≤ acc.0
  consider-le last id meta acc = ground arith

  scan-le :
      (last : Assoc ℕ) (frames : List (ℕ × PageMeta P)) (acc : ℕ × Option ℕ)
      → (scan last frames acc).0 ≤ acc.0
  unfolding scan
  scan-le last [] acc = omega arith
  scan-le last ((id, meta) ∷ rest) acc =
      omega (arith, scan-le last rest (consider last id meta acc), consider-le last id meta acc)

  -- No candidate was used before the time that the loop ends with.
  scan-least :
      (last : Assoc ℕ) (frames : List (ℕ × PageMeta P)) (acc : ℕ × Option ℕ) (id t : ℕ)
      (meta : PageMeta P)
      → Member (id, meta) frames
      → is_pinned meta ≡ false
      → lookup id last ≡ some t
      → (scan last frames acc).0 ≤ t
  unfolding scan
  scan-least last [] acc id t meta h free used = absurd h
  scan-least last ((j, m) ∷ rest) acc id t meta (inl e) free used =
      ground (arith, scan-le last rest (consider last j m acc))
  scan-least last ((j, m) ∷ rest) acc id t meta (inr h) free used =
      scan-least last rest (consider last j m acc) id t meta h free used

  abbrev start_scan : List (ℕ × PageMeta P) → LruPolicy → ℕ × Option ℕ
  start_scan frames s = scan s.last_access frames (u64_max, none)

  chosen :
      (frames : List (ℕ × PageMeta P)) (s : LruPolicy) (r : ℕ × Option ℕ)
      → start_scan frames s ≡ r
      → (r ≡ (u64_max, none)) ⊎ IsChosen s.last_access frames r
  chosen frames s r q =
      subst (λ x. (x ≡ (u64_max, none)) ⊎ IsChosen s.last_access frames x) q
        (scan-cases s.last_access frames (u64_max, none))

  least :
      (frames : List (ℕ × PageMeta P)) (s : LruPolicy) (id u : ℕ)
      → IsCandidate s.last_access frames id u
      → (start_scan frames s).0 ≤ u
  least frames s id u k =
      scan-least s.last_access frames (u64_max, none) id u k.meta k.offered k.free k.used_at

  -- A victim that LRU picks is a frame that was offered, is not pinned and was used, and no other
  -- such frame was used before it.
  pub pick_victim-least :
      (frames : List (ℕ × PageMeta P)) (s : LruPolicy) (v : ℕ)
      → pick_victim frames s ≡ some v
      → (t : ℕ) × IsCandidate s.last_access frames v t
        × ((id u : ℕ) → IsCandidate s.last_access frames id u → t ≤ u)
  unfolding pick_victim
  pick_victim-least frames s v e = go (scan s.last_access frames (u64_max, none)) refl e
    where
      go :
          (r : ℕ × Option ℕ)
          → scan s.last_access frames (u64_max, none) ≡ r
          → r.1 ≡ some v
          → (t : ℕ) × IsCandidate s.last_access frames v t
            × ((id u : ℕ) → IsCandidate s.last_access frames id u → t ≤ u)
      go (t, none) q h = cc
      go (t, some w) q h = elim (chosen frames s (t, some w) q) [
        | inl start ↦ absurd (ground arith)
        | inr c ↦ (
          t,
          subst (λ x. IsCandidate s.last_access frames x t) (some-injective w v h) c,
          λ id u k. subst (λ r. r.0 ≤ u) q (least frames s id u k),
        )
      ]

  -- If LRU picks no victim, then every frame that was offered, is not pinned and was used has the
  -- largest u64 or more as its time.
  pub pick_victim-none :
      (frames : List (ℕ × PageMeta P)) (s : LruPolicy) (id t : ℕ)
      → pick_victim frames s ≡ none
      → IsCandidate s.last_access frames id t
      → 2 ^ 64 - 1 ≤ t
  unfolding pick_victim
  pick_victim-none frames s id t e c = go (start_scan frames s) refl e
    where
      go : (r : ℕ × Option ℕ) → start_scan frames s ≡ r → r.1 ≡ none → 2 ^ 64 - 1 ≤ t
      go (u, some w) q h = cc
      go (u, none) q h = elim (chosen frames s (u, none) q) [
        | inl start ↦ omega (arith, least frames s id t c, ap (λ r. r.0) q, ap (λ r. r.0) start)
        | inr c ↦ absurd c
      ]

  pub pick_victim-Member :
      (frames : List (ℕ × PageMeta P)) (s : LruPolicy) (v : ℕ)
      → pick_victim frames s ≡ some v
      → (m : PageMeta P) × Member (v, m) frames × (is_pinned m ≡ false)
  pick_victim-Member frames s v e =
      let (t, c, _) = pick_victim-least frames s v e in (c.meta, c.offered, c.free)

-- The policy as the pool takes it.
abbrev pub lru : (P : Type 0) → EvictionPolicy P
lru P = record {
  State = LruPolicy;
  on_access = on_access;
  on_insert = on_access;
  on_evict = on_evict;
  pick_victim = pick_victim;
}

pub lru-PolicyLaws : (P : Type 0) → PolicyLaws (lru P)
lru-PolicyLaws P = record { victim_lem = pick_victim-Member }
