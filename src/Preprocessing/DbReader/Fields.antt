-- ===== src/Preprocessing/DbReader/Fields.antt =====
-- What a line that parses gives: fields within the widths of their types.
use pocket_data_mining.Base.{
  ℕ, ◌+◌, ◌≤◌, ◌<◌, ◌^◌, ◌≡◌, refl, Option, none, some, List, [], ◌∷◌, length, ltb, ltb→lt, All,
  arith, ◌==◌, Bool-cases, inl, inr,
}
use pocket_data_mining.Base.Io.{IoResult, ok, err, ◌>>=◌}
use pocket_data_mining.Types.{ItemEntry, RawTransaction}
use pocket_data_mining.Preprocessing.DbReader.{
  Text, digits, skip_plus, below, negated, trim, parse_spmf_line, parse_split, parse_after,
  transaction, parse_all, parse_u32, parse_i64, split_whitespace, split_colon, zip_items,
}

abbrev IsBelow : ℕ → IoResult ℕ → Type 0
IsBelow bound (ok n) = n < bound
IsBelow bound (err e) = Unit

below-IsBelow : (bound : ℕ) (o : Option ℕ) → IsBelow bound (below bound o)
below-IsBelow bound none = tt
below-IsBelow bound (some n) = elim (Bool-cases (ltb n bound)) [
  | inl e ↦ rw e (ltb→lt n bound e)
  | inr e ↦ rw e tt
]

IsBelow-weaken : (a b : ℕ) (r : IoResult ℕ) → a ≤ b → IsBelow a r → IsBelow b r
IsBelow-weaken a b (ok n) le h = omega arith
IsBelow-weaken a b (err e) le h = tt

negated-IsBelow : (r : IoResult ℕ) → IsBelow (2 ^ 64) (negated r)
negated-IsBelow (ok n) = omega arith
negated-IsBelow (err e) = tt

parse_u32-IsBelow : (cs : Text) → IsBelow (2 ^ 32) (parse_u32 cs)
unfolding parse_u32
parse_u32-IsBelow cs = below-IsBelow (2 ^ 32) (digits (skip_plus cs))

parse_i64-IsBelow : (cs : Text) → IsBelow (2 ^ 64) (parse_i64 cs)
unfolding parse_i64
parse_i64-IsBelow [] = tt
parse_i64-IsBelow (c ∷ cs) = elim (Bool-cases (c == 45)) [
  | inl e ↦ rw e (negated-IsBelow (below (2 ^ 63 + 1) (digits cs)))
  | inr e ↦ rw e (
      IsBelow-weaken (2 ^ 63) (2 ^ 64) (below (2 ^ 63) (digits (skip_plus (c ∷ cs)))) (omega arith)
        (below-IsBelow (2 ^ 63) (digits (skip_plus (c ∷ cs)))))
]

abbrev AreBelow : ℕ → IoResult (List ℕ) → Type 0
AreBelow bound (ok ns) = All (λ n. n < bound) ns
AreBelow bound (err e) = Unit

parse_all-AreBelow :
    (bound : ℕ) (parse : Text → IoResult ℕ) (ws : List Text)
    → ((w : Text) → IsBelow bound (parse w))
    → AreBelow bound (parse_all parse ws)
unfolding parse_all
parse_all-AreBelow bound parse [] h = tt
parse_all-AreBelow bound parse (w ∷ ws) h =
    go (parse w) (parse_all parse ws) (h w) (parse_all-AreBelow bound parse ws h)
  where
    go :
        (a : IoResult ℕ) (b : IoResult (List ℕ))
        → IsBelow bound a
        → AreBelow bound b
        → AreBelow bound (a >>= λ n. b >>= λ ns. ok (n ∷ ns))
    go (ok n) (ok ns) k ks = (k, ks)
    go (ok n) (err e) k ks = tt
    go (err e) b k ks = tt

abbrev pub ItemFits : ItemEntry → Type 0
ItemFits e = (e.item < 2 ^ 32) × (e.utility < 2 ^ 64)

zip_items-ItemFits :
    (is us : List ℕ)
    → All (λ n. n < 2 ^ 32) is
    → All (λ n. n < 2 ^ 64) us
    → All ItemFits (zip_items is us)
unfolding zip_items
zip_items-ItemFits [] us h k = tt
zip_items-ItemFits (i ∷ is) [] h k = tt
zip_items-ItemFits (i ∷ is) (u ∷ us) (h, hs) (k, ks) = ((h, k), zip_items-ItemFits is us hs ks)

-- The id that it was given, and fields in range.
abbrev pub Fits : ℕ → IoResult RawTransaction → Type 0
Fits tid (ok tx) = (tx.tid ≡ tid) × (tx.transaction_utility < 2 ^ 64) × All ItemFits tx.items
Fits tid (err e) = Unit

transaction-Fits :
    (tid : ℕ) (a : IoResult (List ℕ)) (b : IoResult ℕ) (c : IoResult (List ℕ))
    → AreBelow (2 ^ 32) a
    → IsBelow (2 ^ 64) b
    → AreBelow (2 ^ 64) c
    → Fits tid (a >>= λ is. b >>= λ tu. c >>= λ us. transaction tid is tu us)
transaction-Fits tid (ok is) (ok tu) (ok us) h k l = elim (Bool-cases (length is == length us)) [
  | inl e ↦ rw e (refl, k, zip_items-ItemFits is us h l)
  | inr e ↦ rw e tt
]
transaction-Fits tid (ok is) (ok tu) (err e) h k l = tt
transaction-Fits tid (ok is) (err e) c h k l = tt
transaction-Fits tid (err e) b c h k l = tt

-- A line that parses gives a transaction with the id it was parsed for, whose items are u32 values and
-- whose utilities are 64-bit patterns, whatever the line.
pub parse_spmf_line-Fits : (line : Text) (tid : ℕ) → Fits tid (parse_spmf_line line tid)
unfolding parse_spmf_line
parse_spmf_line-Fits line tid = split (split_colon line)
  where
    after : (items_part : Text) (r : Text × Option Text) → Fits tid (parse_after tid items_part r)
    after items_part (tu_part, none) = tt
    after items_part (tu_part, some utils_part) =
        transaction-Fits tid (parse_all parse_u32 (split_whitespace items_part))
          (parse_i64 (trim tu_part)) (parse_all parse_i64 (split_whitespace utils_part))
          (parse_all-AreBelow (2 ^ 32) parse_u32 (split_whitespace items_part) parse_u32-IsBelow)
          (parse_i64-IsBelow (trim tu_part))
          (parse_all-AreBelow (2 ^ 64) parse_i64 (split_whitespace utils_part) parse_i64-IsBelow)

    split : (r : Text × Option Text) → Fits tid (parse_split tid r)
    split (items_part, none) = tt
    split (items_part, some later) = after items_part (split_colon later)
