-- ===== src/Preprocessing/DbReader.antt =====
-- preprocessing/db_reader.rs: the lines of a database in the format of SPMF. A text is the list of its
-- code points; what read_line gives, one result for each line and what comes after
-- the last, is the input.
pub mod Tids
pub mod Fields
use pocket_data_mining.Base.{
  ℕ, zero, suc, ◌+◌, ◌-◌, ◌*◌, ◌%◌, ◌^◌, Bool, true, false, ◌&&◌, ◌||◌, not, Option, none, some,
  List, [], ◌∷◌, ◌++◌, length, ltb, leb, ◌==◌, if◌then◌else◌,
}
use pocket_data_mining.Base.Io.{IoError, IoResult, ok, err, invalid_data, ◌>>=◌}
use pocket_data_mining.Base.Words.{add_u32, u64_mod}
use pocket_data_mining.Types.{ItemEntry, RawTransaction}

abbrev pub Text : Type 0
Text = List ℕ

-- char::is_whitespace: the code points with the property White_Space.
unfoldable pub is_whitespace : ℕ → Bool
is_whitespace c =
    (leb 9 c && leb c 13)
    || (c == 32)
    || (c == 133)
    || (c == 160)
    || (c == 5760)
    || (leb 8192 c && leb c 8202)
    || (c == 8232)
    || (c == 8233)
    || (c == 8239)
    || (c == 8287)
    || (c == 12288)

unfoldable pub trim_start : Text → Text
trim_start [] = []
trim_start (c ∷ cs) = let rest = trim_start cs in if is_whitespace c then rest else c ∷ cs

abbrev pub end_at : Bool → ℕ → Text → Text
end_at true c [] = []
end_at b c cs = c ∷ cs

unfoldable pub trim_end : Text → Text
trim_end [] = []
trim_end (c ∷ cs) = end_at (is_whitespace c) c (trim_end cs)

unfoldable pub trim : Text → Text
trim cs = trim_end (trim_start cs)

abbrev pub word : Text → List Text
word [] = []
word (c ∷ cs) = (c ∷ cs) ∷ []

-- The words, with the one that is being read.
unfoldable pub split_from : Text → Text → List Text
split_from current [] = word current
split_from current (c ∷ cs) =
    (if is_whitespace c then word current else [])
    ++ split_from (if is_whitespace c then [] else current ++ c ∷ []) cs

unfoldable pub split_whitespace : Text → List Text
split_whitespace cs = split_from [] cs

-- What stands before the first colon, and what after it, if there is one.
unfoldable pub split_colon : Text → Text × Option Text
split_colon [] = ([], none)
split_colon (c ∷ cs) =
    let rest = split_colon cs in if c == 58 then ([], some cs) else (c ∷ rest.0, rest.1)

abbrev pub is_digit : ℕ → Bool
is_digit c = leb 48 c && leb c 57

unfoldable pub digits_from : ℕ → Text → Option ℕ
digits_from acc [] = some acc
digits_from acc (c ∷ cs) =
    let rest = digits_from (10 * acc + (c - 48)) cs in if is_digit c then rest else none

-- One digit or more.
abbrev pub digits : Text → Option ℕ
digits [] = none
digits (c ∷ cs) = digits_from 0 (c ∷ cs)

abbrev pub skip_plus : Text → Text
skip_plus [] = []
skip_plus (c ∷ cs) = if c == 43 then cs else c ∷ cs

-- A number out of range is an error.
abbrev pub below : ℕ → Option ℕ → IoResult ℕ
below bound none = err invalid_data
below bound (some n) = if ltb n bound then ok n else err invalid_data

-- `s.parse::<ItemId>()`
unfoldable pub parse_u32 : Text → IoResult ℕ
parse_u32 cs = below (2 ^ 32) (digits (skip_plus cs))

abbrev pub negated : IoResult ℕ → IoResult ℕ
negated (ok n) = ok ((u64_mod - n) % u64_mod)
negated (err e) = err e

-- `s.parse::<Utility>()`
unfoldable pub parse_i64 : Text → IoResult ℕ
parse_i64 [] = err invalid_data
parse_i64 (c ∷ cs) =
    if c == 45
    then negated (below (2 ^ 63 + 1) (digits cs))
    else below (2 ^ 63) (digits (skip_plus (c ∷ cs)))

-- `collect::<io::Result<_>>()`
unfoldable pub parse_all : (Text → IoResult ℕ) → List Text → IoResult (List ℕ)
parse_all parse [] = ok []
parse_all parse (w ∷ ws) = parse w >>= λ n. parse_all parse ws >>= λ ns. ok (n ∷ ns)

unfoldable pub zip_items : List ℕ → List ℕ → List ItemEntry
zip_items (i ∷ is) (u ∷ us) = record { item = i; utility = u } ∷ zip_items is us
zip_items [] us = []
zip_items (i ∷ is) [] = []

abbrev pub transaction : ℕ → List ℕ → ℕ → List ℕ → IoResult RawTransaction
transaction tid item_ids transaction_utility utilities =
    if length item_ids == length utilities
    then ok (record {
      tid = tid;
      transaction_utility = transaction_utility;
      items = zip_items item_ids utilities;
    })
    else err invalid_data

abbrev pub parse_parts : ℕ → Text → Text → Text → IoResult RawTransaction
parse_parts tid items_part tu_part utils_part =
    parse_all parse_u32 (split_whitespace items_part) >>= λ item_ids.
    parse_i64 (trim tu_part) >>= λ transaction_utility.
    parse_all parse_i64 (split_whitespace utils_part) >>= λ utilities.
    transaction tid item_ids transaction_utility utilities

abbrev pub parse_after : ℕ → Text → Text × Option Text → IoResult RawTransaction
parse_after tid items_part (tu_part, none) = err invalid_data
parse_after tid items_part (tu_part, some utils_part) =
    parse_parts tid items_part tu_part utils_part

abbrev pub parse_split : ℕ → Text × Option Text → IoResult RawTransaction
parse_split tid (items_part, none) = err invalid_data
parse_split tid (items_part, some later) = parse_after tid items_part (split_colon later)

unfoldable pub parse_spmf_line : Text → ℕ → IoResult RawTransaction
parse_spmf_line line tid = parse_split tid (split_colon line)

-- `at_end` is what read_line gives after these lines: the end of the file, or an error that every
-- further call gives again, as it does on a directory.
pub record DbReader : Type 0 where
  pub reader : List (IoResult Text)
  pub at_end : Option IoError
  pub current_tid : ℕ

abbrev pub reader_new : List (IoResult Text) → Option IoError → DbReader
reader_new lines at_end = record { reader = lines; at_end = at_end; current_tid = 0 }

-- `line.is_empty() || line.starts_with('#')`
abbrev pub is_skipped : Text → Bool
is_skipped [] = true
is_skipped (c ∷ cs) = c == 35

abbrev pub Item : Type 0
Item = Option (IoResult RawTransaction) × DbReader

-- Only a line that parses takes an id.
abbrev pub counted_line : Option IoError → List (IoResult Text) → ℕ → IoResult RawTransaction → Item
counted_line at_end lines tid (ok tx) =
    (some (ok tx), record { reader = lines; at_end = at_end; current_tid = add_u32 tid 1 })
counted_line at_end lines tid (err e) =
    (some (err e), record { reader = lines; at_end = at_end; current_tid = tid })

abbrev pub ended : Option IoError → ℕ → Item
ended none tid = (none, record { reader = []; at_end = none; current_tid = tid })
ended (some e) tid = (some (err e), record { reader = []; at_end = some e; current_tid = tid })

unfoldable pub next_from : Option IoError → List (IoResult Text) → ℕ → Item
next_from at_end [] tid = ended at_end tid
next_from at_end (err e ∷ lines) tid =
    (some (err e), record { reader = lines; at_end = at_end; current_tid = tid })
next_from at_end (ok line ∷ lines) tid =
    let later = next_from at_end lines tid in
    if is_skipped (trim line)
    then later
    else counted_line at_end lines tid (parse_spmf_line (trim line) tid)

unfoldable pub next : DbReader → Item
next r = next_from r.at_end r.reader r.current_tid

abbrev pub ok_after : (DbReader → List RawTransaction) → Item → List RawTransaction
ok_after later (none, r) = []
ok_after later (some (ok tx), r) = tx ∷ later r
ok_after later (some (err e), r) = later r

-- What `db_reader.filter_map(Result::ok)` gives within so many calls of next.
unfoldable pub transactions : ℕ → DbReader → List RawTransaction
transactions zero r = []
transactions (suc fuel) r = ok_after (transactions fuel) (next r)
