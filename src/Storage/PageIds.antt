-- ===== src/Storage/PageIds.antt =====
-- The ids that next_page_id of storage/chunk_store.rs gives out: a counter that only it moves.
use pocket_data_mining.Base.{
  ℕ, ◌^◌, ◌/◌, refl, List, Option, none, some, arith, Bool, true, false, length, get_or, ◌==◌, ltb,
  Bool-cases, inl, inr, if◌then◌else◌,
}
use pocket_data_mining.Base.Io.{IoError, IoResult, ok, err, diverged, invalid_data}
use pocket_data_mining.Base.Io
use pocket_data_mining.Base.Exec.{Ends, Ends-then, Answers}
use pocket_data_mining.Storage.PageLayout.{PageFlags}
use pocket_data_mining.Storage.Disk.{FileSystem, FilePath}
use pocket_data_mining.Storage.ChunkStore.{PageIdLaws}
use pocket_data_mining.Storage.FileChunkStore.{
  Codec, FileChunkStore, write_file, write_page, read_page, decode_page, next_page_id, read_exact,
  ensure, page_path, final_page,
}
use pocket_data_mining.Storage.PageLayout.{from_bytes, PageHeader, page_magic, page_header_size}
use pocket_data_mining.Storage.WriteRead.{file_chunk_store}

-- The calls of std::fs and of the codec return errors of their own: none is the mark of the model for
-- a loop without fuel.
pub record OwnErrors (X : Codec) (S : FileSystem) : Type 0 where
  pub create_dir_all-Ends : (n : ℕ) (d : S.Disk) → Ends (λ _ _. Unit {0}) (S.create_dir_all n d)
  pub create-Ends : (p : FilePath) (d : S.Disk) → Ends (λ _ _. Unit {0}) (S.create p d)
  pub write_all-Ends :
      (p : FilePath) (bytes : List ℕ) (d : S.Disk) → Ends (λ _ _. Unit {0}) (S.write_all p bytes d)
  pub flush-Ends : (p : FilePath) (d : S.Disk) → Ends (λ _ _. Unit {0}) (S.flush p d)
  pub open_file-Answers : (p : FilePath) (d : S.Disk) → Answers (S.open_file p d)
  pub decompress-Answers : (bytes : List ℕ) → Answers (X.decompress bytes)

Answers-then :
    {A B : Type 0} (r : IoResult A) (f : A → IoResult B)
    → Answers r
    → ((a : A) → Answers (f a))
    → Answers (Io.◌>>=◌ r f)
Answers-then (ok a) f h next = next a
Answers-then (err e) f h next = h

read_exact-Answers : (n : ℕ) (bytes : List ℕ) → Answers (read_exact n bytes)
read_exact-Answers n bytes = elim (Bool-cases (ltb (length bytes) n)) [
  | inl short ↦ rw short (λ q. cc)
  | inr enough ↦ rw enough tt
]

module _ (F : PageFlags) (X : Codec) (S : FileSystem) (own : OwnErrors X S) where
  found_flags-Answers :
      (o : Option F.Flags) (h : F.Flags → PageHeader F)
      → Answers {A = PageHeader F} (elim o [ none ↦ err invalid_data | some flags ↦ ok (h flags) ])
  found_flags-Answers none h = λ q. cc
  found_flags-Answers (some flags) h = tt

  from_bytes-Answers : (bytes : List ℕ) → Answers (from_bytes F bytes)
  unfolding from_bytes
  from_bytes-Answers bytes = found_flags-Answers (F.from_bits (get_or bytes 20 0)) _

  unpacked-Answers :
      (b : Bool) (bytes : List ℕ) (flags : F.Flags)
      → Answers {A = List ℕ × F.Flags} (
          if b
          then (Io.◌>>=◌ (X.decompress bytes) λ payload. ok (payload, flags))
          else ok (bytes, flags))
  unpacked-Answers true bytes flags =
      Answers-then (X.decompress bytes) (λ payload. ok (payload, flags))
        (own.decompress-Answers bytes) (λ _. tt)
  unpacked-Answers false bytes flags = tt

  abbrev payload_of : PageHeader F → List ℕ → IoResult (List ℕ × F.Flags)
  payload_of header bytes =
      if F.contains header.flags F.compressed
      then (Io.◌>>=◌ (X.decompress bytes) λ payload. ok (payload, header.flags))
      else ok (bytes, header.flags)

  abbrev checked_crc : PageHeader F → List ℕ × List ℕ → IoResult (List ℕ × F.Flags)
  checked_crc header body =
      Io.◌>>◌ (ensure (X.hash body.0 == header.payload_crc32) invalid_data)
        (payload_of header body.0)

  checked_crc-Answers :
      (header : PageHeader F) (body : List ℕ × List ℕ) → Answers (checked_crc header body)
  checked_crc-Answers header body = elim (Bool-cases (X.hash body.0 == header.payload_crc32)) [
    | inl e ↦ rw e (unpacked-Answers (F.contains header.flags F.compressed) body.0 header.flags)
    | inr e ↦ rw e (λ q. cc)
  ]

  abbrev checked_header : ℕ → List ℕ → PageHeader F → IoResult (List ℕ × F.Flags)
  checked_header id rest header = Io.◌>>◌ (ensure (header.magic == page_magic) invalid_data) (
      Io.◌>>◌ (ensure (header.page_id == id) invalid_data)
        (Io.◌>>=◌ (read_exact header.payload_len rest) (checked_crc header)))

  checked_header-Answers :
      (id : ℕ) (rest : List ℕ) (header : PageHeader F) → Answers (checked_header id rest header)
  checked_header-Answers id rest header = elim (Bool-cases (header.magic == page_magic)) [
    | inl magic ↦ elim (Bool-cases (header.page_id == id)) [
      | inl same ↦
          rw (magic, same)
            (Answers-then (read_exact header.payload_len rest) (checked_crc header)
              (read_exact-Answers header.payload_len rest) (checked_crc-Answers header))
      | inr other ↦ rw (magic, other) (λ q. cc)
    ]
    | inr wrong ↦ rw wrong (λ q. cc)
  ]

  abbrev decode_rest : ℕ → List ℕ × List ℕ → IoResult (List ℕ × F.Flags)
  decode_rest id head = Io.◌>>=◌ (from_bytes F head.0) (checked_header id head.1)

  decode_page-Answers : (id : ℕ) (bytes : List ℕ) → Answers (decode_page F X S id bytes)
  unfolding decode_page
  decode_page-Answers id bytes =
      Answers-then (read_exact page_header_size bytes) (decode_rest id)
        (read_exact-Answers page_header_size bytes)
        λ head.
          Answers-then (from_bytes F head.0) (checked_header id head.1) (from_bytes-Answers head.0)
            (checked_header-Answers id head.1)

  pub read_page-Answers : (id : ℕ) (s : FileChunkStore F X S) → Answers (read_page F X S id s)
  unfolding read_page
  read_page-Answers id s =
      Answers-then (S.open_file (page_path id) s.disk) (decode_page F X S id)
        (own.open_file-Answers (page_path id) s.disk) (decode_page-Answers id)

  write_file-Ends :
      (id : ℕ) (page : List ℕ × F.Flags) (d : S.Disk)
      → Ends (λ _ _. Unit {0}) (write_file F X S id page d)
  unfolding write_file
  write_file-Ends id page d =
      Ends-then _ (S.create_dir_all (id / 2 ^ 16) d) (own.create_dir_all-Ends (id / 2 ^ 16) d)
        λ _ d1. Ends-then _ (S.create (page_path id) d1) (own.create-Ends (page_path id) d1) λ _ d2.
          Ends-then _ (S.write_all (page_path id) _ d2) (own.write_all-Ends (page_path id) _ d2)
            λ _ d3.
              Ends-then _ (S.write_all (page_path id) _ d3) (own.write_all-Ends (page_path id) _ d3)
                λ _ d4. own.flush-Ends (page_path id) d4

  beside-Ends :
      (r : IoResult (Unit {0}) × S.Disk) (f : S.Disk → FileChunkStore F X S)
      → Ends (λ _ _. Unit {0}) r
      → Ends (λ _ _. Unit {0}) (r.0, f r.1)
  beside-Ends (ok a, d) f h = h
  beside-Ends (err e, d) f h = h

  pub write_page-Ends :
      (id : ℕ) (bytes : List ℕ) (flags : F.Flags) (s : FileChunkStore F X S)
      → Ends (λ _ _. Unit {0}) (write_page F X S id bytes flags s)
  unfolding write_page
  write_page-Ends id bytes flags s =
      beside-Ends (write_file F X S id (final_page F X S s.compress bytes flags) s.disk)
        (λ d. record s { disk = d })
        (write_file-Ends id (final_page F X S s.compress bytes flags) s.disk)

  -- The file store gives out the values of its counter.
  unfoldable pub file_chunk_store-ids : PageIdLaws (file_chunk_store F X S)
  unfolding file_chunk_store next_page_id write_page
  file_chunk_store-ids = record {
    counter = λ s. s.counter;
    id_lem = λ s. refl;
    counter-next_page_id = λ s h. omega arith;
    counter-write_page = λ id bytes flags s. refl;
    write_page-Ends = λ id bytes flags s. write_page-Ends id bytes flags s;
    read_page-Answers = λ id s. read_page-Answers id s;
  }
