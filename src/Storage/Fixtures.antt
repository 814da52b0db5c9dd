-- ===== src/Storage/Fixtures.antt =====
-- What the tests of the page store share: flags as three bits, a codec that shortens runs of zeros,
-- and a disk that is a function from paths to bytes.
use pocket_data_mining.Base.{
  ℕ, zero, suc, ◌+◌, ◌*◌, ◌/◌, ◌%◌, ◌<◌, ◌^◌, ◌≡◌, ◌≢◌, refl, ap, Bool, true, false, ◌&&◌, ◌||◌,
  not, Option, none, some, List, [], ◌∷◌, ◌++◌, length, replicate, arith, ltb, ◌==◌, if◌then◌else◌,
  Bool-cases, inl, inr,
}
use pocket_data_mining.Base.Io.{IoResult, ok, err, invalid_data, not_found}
use pocket_data_mining.Base.Exec.{Exec, WhenOk, Ends, Answers}
use pocket_data_mining.Storage.PageLayout.{PageFlags}
use pocket_data_mining.Storage.Disk.{FileSystem, FilePath}
use pocket_data_mining.Storage.FileChunkStore.{Codec}
use pocket_data_mining.Storage.PageIds.{OwnErrors}

abbrev pub ThreeFlags : Type 0
ThreeFlags = Bool × (Bool × Bool)

abbrev bit : Bool → ℕ
bit true = 1
bit false = 0

abbrev flag_bits : ThreeFlags → ℕ
flag_bits (a, (b, c)) = bit a + 2 * bit b + 4 * bit c

abbrev flags_of_bits : ℕ → Option ThreeFlags
flags_of_bits n = if ltb n 8 then some (n % 2 == 1, (n / 2 % 2 == 1, n / 4 % 2 == 1)) else none

pub flags_of_bits-flag_bits : (f : ThreeFlags) → flags_of_bits (flag_bits f) ≡ some f
flags_of_bits-flag_bits (true, (true, true)) = refl
flags_of_bits-flag_bits (true, (true, false)) = refl
flags_of_bits-flag_bits (true, (false, true)) = refl
flags_of_bits-flag_bits (true, (false, false)) = refl
flags_of_bits-flag_bits (false, (true, true)) = refl
flags_of_bits-flag_bits (false, (true, false)) = refl
flags_of_bits-flag_bits (false, (false, true)) = refl
flags_of_bits-flag_bits (false, (false, false)) = refl

abbrev has_flags : ThreeFlags → ThreeFlags → Bool
has_flags (a, (b, c)) (x, (y, z)) = (a || not x) && ((b || not y) && (c || not z))

abbrev all_flags : ThreeFlags → ThreeFlags → ThreeFlags
all_flags (a, (b, c)) (x, (y, z)) = (a || x, (b || y, c || z))

pub flag_bits-lt : (f : ThreeFlags) → flag_bits f < 256
flag_bits-lt (a, (b, c)) = ground arith

pub has_flags-union : (f g : ThreeFlags) → has_flags (all_flags f g) g ≡ true
has_flags-union (a, (b, c)) (x, (y, z)) = ground arith

abbrev pub three_flags : PageFlags
three_flags = record {
  Flags = ThreeFlags;
  empty = (false, (false, false));
  compressed = (true, (false, false));
  ul_body = (false, (true, false));
  tx_chunk = (false, (false, true));
  bits = flag_bits;
  from_bits = flags_of_bits;
  union = all_flags;
  contains = has_flags;
  bits-lt = flag_bits-lt;
  from_bits-bits = flags_of_bits-flag_bits;
  contains-empty = refl;
  contains-tx_chunk = refl;
  contains-union_right = has_flags-union;
}

abbrev all_zero : List ℕ → Bool
all_zero [] = true
all_zero (x ∷ xs) = (x == 0) && all_zero xs

pub replicate-zero : (xs : List ℕ) → all_zero xs ≡ true → replicate (length xs) 0 ≡ xs
replicate-zero [] e = refl
replicate-zero (x ∷ xs) e = ground (arith, replicate-zero xs)

abbrev shorten : List ℕ → List ℕ
shorten xs = if all_zero xs then 0 ∷ length xs ∷ [] else 1 ∷ xs

abbrev lengthen : List ℕ → IoResult (List ℕ)
lengthen [] = err invalid_data
lengthen (zero ∷ n ∷ []) = ok (replicate n 0)
lengthen (zero ∷ _) = err invalid_data
lengthen (suc _ ∷ xs) = ok xs

pub lengthen-shorten : (xs : List ℕ) → lengthen (shorten xs) ≡ ok xs
lengthen-shorten xs = elim (Bool-cases (all_zero xs)) [
  | inl e ↦ rw e (ap ok (replicate-zero xs e))
  | inr e ↦ rw e refl
]

abbrev pub zeros_codec : Codec
zeros_codec = record {
  hash = λ bytes. length bytes % 2 ^ 32;
  compress = shorten;
  decompress = lengthen;
  hash-lt = λ bytes. omega arith;
  decompress-compress = lengthen-shorten;
}

abbrev same_path : FilePath → FilePath → Bool
same_path p q = (p.0 == q.0) && (p.1 == q.1)

abbrev Files : Type 0
Files = FilePath → Option (List ℕ)

abbrev set_file : FilePath → Option (List ℕ) → Files → Files
set_file p bytes d q = if same_path p q then bytes else d q

abbrev append_to : FilePath → List ℕ → Option (List ℕ) → Exec Files (Unit {0})
append_to p bytes none d = (err not_found, d)
append_to p bytes (some old) d = (ok tt, set_file p (some (old ++ bytes)) d)

abbrev opened : Option (List ℕ) → IoResult (List ℕ)
opened none = err not_found
opened (some bytes) = ok bytes

abbrev removed : FilePath → Option (List ℕ) → Exec Files (Unit {0})
removed p none d = (err not_found, d)
removed p (some _) d = (ok tt, set_file p none d)

abbrev is_some : Option (List ℕ) → Bool
is_some none = false
is_some (some _) = true

abbrev len_of : Option (List ℕ) → Option ℕ
len_of none = none
len_of (some bytes) = some (length bytes)

pub set_file_self : (p : FilePath) (o : Option (List ℕ)) (d : Files) → set_file p o d p ≡ o
set_file_self p o d = ground arith

pub set_file_other :
    (p : FilePath) (o : Option (List ℕ)) (d : Files) (q : FilePath) → p ≢ q → set_file p o d q ≡ d q
set_file_other (a, b) o d (x, y) ne = ground (arith, ne)

pub append_to_lem :
    (p : FilePath) (bytes : List ℕ) (d : Files) (old : List ℕ)
    → d p ≡ some old
    → WhenOk (λ _ e. e p ≡ some (old ++ bytes)) (append_to p bytes (d p) d)
append_to_lem p bytes d old e = rw e (set_file_self p (some (old ++ bytes)) d)

pub append_to-keeps :
    (p : FilePath) (bytes : List ℕ) (o : Option (List ℕ)) (d : Files) (q : FilePath)
    → p ≢ q
    → (append_to p bytes o d).1 q ≡ d q
append_to-keeps p bytes none d q ne = refl
append_to-keeps p bytes (some old) d q ne = set_file_other p (some (old ++ bytes)) d q ne

abbrev pub files : FileSystem
files = record {
  Disk = Files;
  contents = λ d p. d p;
  create_dir_all = λ n d. (ok tt, d);
  create = λ p d. (ok tt, set_file p (some []) d);
  write_all = λ p bytes d. append_to p bytes (d p) d;
  flush = λ p d. (ok tt, d);
  remove_file = λ p d. removed p (d p) d;
  open_file = λ p d. opened (d p);
  exists = λ p d. is_some (d p);
  file_len = λ p d. len_of (d p);
  open_file_lem = λ p d bytes e. ap opened e;
  create_dir_all-keeps = λ n d q. refl;
  create_lem = λ p d. set_file_self p (some []) d;
  create-keeps = λ p d q ne. set_file_other p (some []) d q ne;
  write_all_lem = append_to_lem;
  write_all-keeps = λ p bytes d q ne. append_to-keeps p bytes (d p) d q ne;
  flush-keeps = λ p d q. refl;
  open_file-keeps = λ p d e h. ap opened h;
}

append_to-Ends :
    (p : FilePath) (bytes : List ℕ) (o : Option (List ℕ)) (d : Files)
    → Ends (λ _ _. Unit {0}) (append_to p bytes o d)
append_to-Ends p bytes none d = λ q. cc
append_to-Ends p bytes (some old) d = tt

opened-Answers : (o : Option (List ℕ)) → Answers (opened o)
opened-Answers none = λ q. cc
opened-Answers (some bytes) = tt

lengthen-Answers : (bytes : List ℕ) → Answers (lengthen bytes)
lengthen-Answers [] = λ q. cc
lengthen-Answers (zero ∷ []) = λ q. cc
lengthen-Answers (zero ∷ n ∷ []) = tt
lengthen-Answers (zero ∷ n ∷ m ∷ xs) = λ q. cc
lengthen-Answers (suc k ∷ xs) = tt

pub files-OwnErrors : OwnErrors zeros_codec files
files-OwnErrors = record {
  create_dir_all-Ends = λ n d. tt;
  create-Ends = λ p d. tt;
  write_all-Ends = λ p bytes d. append_to-Ends p bytes (d p) d;
  flush-Ends = λ p d. tt;
  open_file-Answers = λ p d. opened-Answers (d p);
  decompress-Answers = lengthen-Answers;
}
