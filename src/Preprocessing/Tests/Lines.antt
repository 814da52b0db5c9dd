-- ===== src/Preprocessing/Tests/Lines.antt =====
-- The reader on a few lines: a comment, a blank line, one that parses, one with too few utilities, and
-- another that parses.
use pocket_data_mining.Base.{◌≡◌, refl, none, List, [], ◌∷◌, arith, ◌^◌, ◌-◌}
use pocket_data_mining.Base.Io.{ok}
use pocket_data_mining.Types.{RawTransaction}
use pocket_data_mining.Preprocessing.DbReader.{
  Text, DbReader, reader_new, transactions, next, next_from, trim, trim_start, trim_end,
  is_whitespace, parse_spmf_line, split_colon, split_whitespace, split_from, digits_from, parse_u32,
  parse_i64, parse_all, zip_items,
}
use pocket_data_mining.Preprocessing.DbReader.Tids.{Consecutive, transactions-Consecutive}

-- `1 3:40:30 10`
abbrev first_line : Text
first_line = 49 ∷ 32 ∷ 51 ∷ 58 ∷ 52 ∷ 48 ∷ 58 ∷ 51 ∷ 48 ∷ 32 ∷ 49 ∷ 48 ∷ 10 ∷ []

-- `1 2:10:5`
abbrev short_line : Text
short_line = 49 ∷ 32 ∷ 50 ∷ 58 ∷ 49 ∷ 48 ∷ 58 ∷ 53 ∷ 10 ∷ []

-- `2:-7:-7`
abbrev last_line : Text
last_line = 50 ∷ 58 ∷ 45 ∷ 55 ∷ 58 ∷ 45 ∷ 55 ∷ []

-- `# a`
abbrev comment : Text
comment = 35 ∷ 32 ∷ 97 ∷ 10 ∷ []

abbrev five_lines : DbReader
five_lines =
    reader_new (ok comment ∷ ok first_line ∷ ok (10 ∷ []) ∷ ok short_line ∷ ok last_line ∷ []) none

abbrev two_read : List RawTransaction
two_read =
    record {
      tid = 0;
      transaction_utility = 40;
      items = record { item = 1; utility = 30 } ∷ record { item = 3; utility = 10 } ∷ [];
    }
    ∷ record {
      tid = 1;
      transaction_utility = 2 ^ 64 - 7;
      items = record { item = 2; utility = 2 ^ 64 - 7 } ∷ [];
    }
    ∷ []

transactions-five : transactions 5 five_lines ≡ two_read
unfolding transactions next next_from trim trim_start trim_end is_whitespace parse_spmf_line
    split_colon split_whitespace split_from digits_from parse_u32 parse_i64 parse_all zip_items
transactions-five = refl

transactions-Consecutive_example : Consecutive 0 (transactions 5 five_lines)
transactions-Consecutive_example = transactions-Consecutive 5 five_lines (omega arith)
