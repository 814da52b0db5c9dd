-- ===== src/Storage/Disk.antt =====
-- The part of std::fs that the store uses. A chunk's path is its shard directory and its number.
-- `contents` is what the file holds; the laws are those of create, write_all, flush and remove_file.
use pocket_data_mining.Base.{ℕ, ◌≡◌, ◌≢◌, Bool, Option, some, List, [], ◌++◌}
use pocket_data_mining.Base.Io.{IoResult, ok}
use pocket_data_mining.Base.Exec.{Exec, WhenOk}

abbrev pub FilePath : Type 0
FilePath = ℕ × ℕ

pub record FileSystem : Type 1 where
  pub Disk : Type 0
  pub contents : Disk → FilePath → Option (List ℕ)
  pub create_dir_all : ℕ → Exec Disk (Unit {0})
  pub create : FilePath → Exec Disk (Unit {0})
  pub write_all : FilePath → List ℕ → Exec Disk (Unit {0})
  pub flush : FilePath → Exec Disk (Unit {0})
  pub remove_file : FilePath → Exec Disk (Unit {0})
  pub open_file : FilePath → Disk → IoResult (List ℕ)
  pub exists : FilePath → Disk → Bool
  pub file_len : FilePath → Disk → Option ℕ
  pub open_file_lem :
      (p : FilePath) (d : Disk) (bytes : List ℕ)
      → contents d p ≡ some bytes
      → open_file p d ≡ ok bytes
  pub create_dir_all-keeps :
      (n : ℕ) (d : Disk) (q : FilePath) → contents (create_dir_all n d).1 q ≡ contents d q
  pub create_lem : (p : FilePath) (d : Disk) → WhenOk (λ _ e. contents e p ≡ some []) (create p d)
  pub create-keeps :
      (p : FilePath) (d : Disk) (q : FilePath) → p ≢ q → contents (create p d).1 q ≡ contents d q
  pub write_all_lem :
      (p : FilePath) (bytes : List ℕ) (d : Disk) (old : List ℕ)
      → contents d p ≡ some old
      → WhenOk (λ _ e. contents e p ≡ some (old ++ bytes)) (write_all p bytes d)
  pub write_all-keeps :
      (p : FilePath) (bytes : List ℕ) (d : Disk) (q : FilePath)
      → p ≢ q
      → contents (write_all p bytes d).1 q ≡ contents d q
  pub flush-keeps :
      (p : FilePath) (d : Disk) (q : FilePath) → contents (flush p d).1 q ≡ contents d q
  pub open_file-keeps :
      (p : FilePath) (d e : Disk) → contents d p ≡ contents e p → open_file p d ≡ open_file p e
