-- ===== src/Preprocessing/DbReader/Tids.antt =====
-- The ids that the reader gives, that it reads a file to its end, and what an error that stays does.
use pocket_data_mining.Base.{
  ℕ, zero, suc, ◌+◌, ◌≤◌, ◌<◌, ◌^◌, ◌≡◌, refl, sym, ◌∙◌, ap, Option, none, some, List, [], ◌∷◌,
  length, arith, Bool-cases, inl, inr,
}
use mathlib.Core.Path.{subst}
use pocket_data_mining.Base.Io.{IoError, IoResult, ok, err}
use pocket_data_mining.Base.Words.{add_u32}
use pocket_data_mining.Types.{RawTransaction}
use pocket_data_mining.Preprocessing.DbReader.{
  Text, DbReader, Item, next_from, next, transactions, is_skipped, counted_line, ended, ok_after,
  trim, parse_spmf_line,
}
use pocket_data_mining.Preprocessing.DbReader.Fields.{Fits, parse_spmf_line-Fits}

-- What one call of next says: the id it gives, the next one, that what comes after the lines stays,
-- and that it reads a line, if it does not meet an error that stays.
abbrev After : ℕ → ℕ → Option IoError → Item → Type 0
After tid n at_end (none, r) = Unit
After tid n at_end (some (ok tx), r) =
    (tx.tid ≡ tid) × (r.current_tid ≡ add_u32 tid 1) × (r.at_end ≡ at_end) × (length r.reader < n)
After tid n at_end (some (err e), r) =
    (r.current_tid ≡ tid)
    × (r.at_end ≡ at_end)
    × (length r.reader ≤ n)
    × (at_end ≡ none → length r.reader < n)

After-more :
    (tid n m : ℕ) (at_end : Option IoError) (i : Item)
    → n ≤ m
    → After tid n at_end i
    → After tid m at_end i
After-more tid n m at_end (none, r) le h = tt
After-more tid n m at_end (some (ok tx), r) le (a, b, s, c) = (a, b, s, omega arith)
After-more tid n m at_end (some (err e), r) le (a, s, c, d) =
    (a, s, omega arith, λ q. omega (arith, d q))

ended-After : (at_end : Option IoError) (tid : ℕ) → After tid 0 at_end (ended at_end tid)
ended-After none tid = tt
ended-After (some e) tid = (refl, refl, omega arith, λ q. absurd (cc q))

next_from-After :
    (at_end : Option IoError) (lines : List (IoResult Text)) (tid : ℕ)
    → After tid (length lines) at_end (next_from at_end lines tid)
unfolding next_from
next_from-After at_end [] tid = ended-After at_end tid
next_from-After at_end (err e ∷ lines) tid = (refl, refl, omega arith, λ q. omega arith)
next_from-After at_end (ok line ∷ lines) tid = elim (Bool-cases (is_skipped (trim line))) [
  | inl e ↦ rw e (
      After-more tid (length lines) (suc (length lines)) at_end (next_from at_end lines tid)
        (omega arith) (next_from-After at_end lines tid))
  | inr e ↦ rw e (go (parse_spmf_line (trim line) tid) (parse_spmf_line-Fits (trim line) tid))
]
  where
    go :
        (r : IoResult RawTransaction)
        → Fits tid r
        → After tid (suc (length lines)) at_end (counted_line at_end lines tid r)
    go (ok tx) (a, b, c) = (a, refl, refl, omega arith)
    go (err e) h = (refl, refl, omega arith, λ q. omega arith)

-- The ids from one number on, with no gap.
abbrev pub Consecutive : ℕ → List RawTransaction → Type 0
Consecutive n [] = Unit
Consecutive n (tx ∷ txs) = (tx.tid ≡ n) × Consecutive (suc n) txs

-- The transactions that a reader gives have the ids from its own on, one after the other, whatever
-- lines are skipped or fail in between, when there are not more lines than ids left.
pub transactions-Consecutive :
    (fuel : ℕ) (r : DbReader)
    → r.current_tid + length r.reader < 2 ^ 32
    → Consecutive r.current_tid (transactions fuel r)
unfolding transactions next
transactions-Consecutive zero r room = tt
transactions-Consecutive (suc fuel) r room =
    go (next_from r.at_end r.reader r.current_tid) (next_from-After r.at_end r.reader r.current_tid)
      (λ q k. transactions-Consecutive fuel q k)
  where
    go :
        (i : Item)
        → After r.current_tid (length r.reader) r.at_end i
        → ((q : DbReader)
            → q.current_tid + length q.reader < 2 ^ 32
            → Consecutive q.current_tid (transactions fuel q))
        → Consecutive r.current_tid (ok_after (transactions fuel) i)
    go (none, q) h ih = tt
    go (some (ok tx), q) (a, b, s, c) ih = (
      a,
      subst (λ n. Consecutive n (transactions fuel q)) (b ∙ omega (arith, room, c))
          (ih q (omega (arith, b, c, room))),
    )
    go (some (err e), q) (a, s, c, d) ih =
        subst (λ n. Consecutive n (transactions fuel q)) a (ih q (omega (arith, a, c, room)))

nothing_left :
    (fuel : ℕ) (r : DbReader) → r.at_end ≡ none → length r.reader ≤ 0 → transactions fuel r ≡ []
unfolding transactions next next_from
nothing_left zero r stops le = refl
nothing_left (suc fuel) r stops le = go r.at_end r.reader stops le
  where
    go :
        (at_end : Option IoError) (lines : List (IoResult Text))
        → at_end ≡ none
        → length lines ≤ 0
        → ok_after (transactions fuel) (next_from at_end lines r.current_tid) ≡ []
    go none [] q k = refl
    go (some e) [] q k = absurd (cc q)
    go at_end (l ∷ lines) q k = absurd (omega arith)

-- A file that ends is read to its end: with as many calls as lines, more make no difference.
transactions_calls :
    (f g : ℕ) (r : DbReader)
    → r.at_end ≡ none
    → length r.reader ≤ f
    → length r.reader ≤ g
    → transactions f r ≡ transactions g r
unfolding transactions next
transactions_calls zero g r stops hf hg = sym (nothing_left g r stops hf)
transactions_calls (suc f) zero r stops hf hg = nothing_left (suc f) r stops hg
transactions_calls (suc f) (suc g) r stops hf hg =
    go (next_from r.at_end r.reader r.current_tid) (next_from-After r.at_end r.reader r.current_tid)
      (λ q e k l. transactions_calls f g q e k l)
  where
    go :
        (i : Item)
        → After r.current_tid (length r.reader) r.at_end i
        → ((q : DbReader)
            → q.at_end ≡ none
            → length q.reader ≤ f
            → length q.reader ≤ g
            → transactions f q ≡ transactions g q)
        → ok_after (transactions f) i ≡ ok_after (transactions g) i
    go (none, q) h ih = refl
    go (some (ok tx), q) (a, b, s, c) ih =
        ap (λ l. tx ∷ l) (ih q (s ∙ stops) (omega (arith, c, hf)) (omega (arith, c, hg)))
    go (some (err e), q) (a, s, c, d) ih =
        ih q (s ∙ stops) (omega (arith, d stops, hf)) (omega (arith, d stops, hg))

-- After an error that stays, no call of next is the last: each gives the error and changes nothing.
next_stuck :
    (e : IoError) (r : DbReader) → r.reader ≡ [] → r.at_end ≡ some e → next r ≡ (some (err e), r)
unfolding next next_from
next_stuck e r empty stays = go r.reader r.at_end empty stays
  where
    go :
        (lines : List (IoResult Text)) (at_end : Option IoError)
        → lines ≡ []
        → at_end ≡ some e
        → next_from at_end lines r.current_tid
          ≡ (some (err e), record { reader = lines; at_end = at_end; current_tid = r.current_tid })
    go [] none p q = absurd (cc q)
    go [] (some x) p q = cc
    go (l ∷ lines) at_end p q = absurd (cc p)
