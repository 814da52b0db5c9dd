-- ===== src/Mining/Core/ResultWriter.antt =====
-- mining/core/result_writer.rs: one line of text for each result. The file is a parameter.
use pocket_data_mining.Base.{
  ℕ, zero, suc, ◌+◌, ◌-◌, ◌/◌, ◌%◌, ◌^◌, List, [], ◌∷◌, ◌++◌, ltb, if◌then◌else◌,
}
use pocket_data_mining.Base.Io.{IoResult, ok, err}
use pocket_data_mining.Base.Exec.{Exec, settle}
use pocket_data_mining.Base.Words.{add_u64}

-- What is used of BufWriter<File>.
pub record TextFile : Type 1 where
  pub State : Type 0
  pub write_all : List ℕ → Exec State (Unit {0})
  pub flush : Exec State (Unit {0})

-- The decimal digits in ASCII; 20 are enough for a u64.
abbrev pub digits : ℕ → ℕ → List ℕ
digits zero n = []
digits (suc fuel) n =
    let leading = digits fuel (n / 10) in
    if ltb n 10 then (48 + n) ∷ [] else leading ++ (48 + n % 10) ∷ []

abbrev pub unsigned_text : ℕ → List ℕ
unsigned_text n = digits 20 n

-- An i64, with its sign.
abbrev pub signed_text : ℕ → List ℕ
signed_text n = if ltb n (2 ^ 63) then unsigned_text n else 45 ∷ unsigned_text (2 ^ 64 - n)

-- `items_str.join(" ")`
abbrev pub items_text : List ℕ → List ℕ
items_text [] = []
items_text (x ∷ []) = unsigned_text x
items_text (x ∷ y ∷ ys) = unsigned_text x ++ 32 ∷ items_text (y ∷ ys)

-- "{} #UTIL: {}" and the end of the line.
unfoldable pub result_line : List ℕ → ℕ → List ℕ
result_line itemset utility =
    items_text itemset
    ++ (32 ∷ 35 ∷ 85 ∷ 84 ∷ 73 ∷ 76 ∷ 58 ∷ 32 ∷ [])
    ++ signed_text utility
    ++ 10 ∷ []

module _ (F : TextFile) where
  pub record ResultWriter : Type 0 where
    pub writer : F.State
    pub count : ℕ

  abbrev pub writer_new : F.State → ResultWriter
  writer_new file = record { writer = file; count = 0 }

  abbrev counted_line :
      ResultWriter → IoResult (Unit {0}) × F.State → IoResult (Unit {0}) × ResultWriter
  counted_line w (ok _, file) = (ok tt, record { writer = file; count = add_u64 w.count 1 })
  counted_line w (err e, file) = (err e, record w { writer = file })

  unfoldable pub write_hui : List ℕ → ℕ → Exec ResultWriter (Unit {0})
  unfolding result_line
  write_hui itemset utility w = counted_line w (F.write_all (result_line itemset utility) w.writer)

  unfoldable pub finalize : ResultWriter → IoResult ℕ × F.State
  finalize w = settle (λ _ file. (ok w.count, file)) (F.flush w.writer)
