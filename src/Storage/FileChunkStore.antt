-- ===== src/Storage/FileChunkStore.antt =====
-- storage/chunk_store.rs and storage/compression.rs: one file per page, with a header, a CRC-32 and
-- optional compression. The crates crc32fast and lz4_flex are parameters.
use pocket_data_mining.Base.{
  ℕ, ◌*◌, ◌/◌, ◌%◌, ◌^◌, ◌<◌, ◌≡◌, Bool, true, false, Option, List, length, take, drop, ltb, ◌==◌,
  if◌then◌else◌,
}
use pocket_data_mining.Base.Io.{IoResult, ok, err, IoError, invalid_data, unexpected_eof}
use pocket_data_mining.Base.Io
use pocket_data_mining.Base.Exec.{Exec, ◌>>◌}
use pocket_data_mining.Base.Words.{add_u64, u32_mod}
use pocket_data_mining.Storage.PageLayout.{
  PageFlags, PageHeader, to_bytes, from_bytes, page_magic, page_header_size,
}
use pocket_data_mining.Storage.Disk.{FileSystem, FilePath}

-- crc32fast::hash, and lz4_flex behind compress and decompress.
pub record Codec : Type 0 where
  pub hash : List ℕ → ℕ
  pub compress : List ℕ → List ℕ
  pub decompress : List ℕ → IoResult (List ℕ)
  pub hash-lt : (bytes : List ℕ) → hash bytes < 2 ^ 32
  pub decompress-compress : (bytes : List ℕ) → decompress (compress bytes) ≡ ok bytes

-- compression.rs without the feature `compress`: both are the identity.
unfoldable pub identity_compress : List ℕ → List ℕ
identity_compress bytes = bytes

unfoldable pub identity_decompress : List ℕ → IoResult (List ℕ)
identity_decompress bytes = ok bytes

-- Read::read_exact: the bytes asked for and the rest, or UnexpectedEof.
abbrev pub read_exact : ℕ → List ℕ → IoResult (List ℕ × List ℕ)
read_exact n bytes =
    if ltb (length bytes) n then err unexpected_eof else ok (take n bytes, drop n bytes)

abbrev pub ensure : Bool → IoError → IoResult (Unit {0})
ensure true e = ok tt
ensure false e = err e

-- `page_id >> 16` names the directory.
unfoldable pub page_path : ℕ → FilePath
page_path id = (id / 2 ^ 16, id)

module _ (F : PageFlags) (X : Codec) (S : FileSystem) where
  pub record FileChunkStore : Type 0 where
    pub counter : ℕ
    pub compress : Bool
    pub disk : S.Disk

  -- The payload and the flags that go to the file.
  unfoldable pub final_page : Bool → List ℕ → F.Flags → List ℕ × F.Flags
  final_page compress payload flags =
      let compressed = X.compress payload in
      if compress
      then (if ltb (length compressed) (length payload * 85 / 100)
          then (compressed, F.union flags F.compressed)
          else (payload, flags))
      else (payload, flags)

  unfoldable pub page_header : ℕ → List ℕ × F.Flags → PageHeader F
  page_header id page = record {
    magic = page_magic;
    page_id = id;
    payload_len = length page.0 % u32_mod;
    payload_crc32 = X.hash page.0;
    flags = page.1;
  }

  unfoldable pub write_file : ℕ → List ℕ × F.Flags → Exec S.Disk (Unit {0})
  unfolding page_path page_header
  write_file id page = do
    S.create_dir_all (id / 2 ^ 16)
    S.create (page_path id)
    S.write_all (page_path id) (to_bytes F (page_header id page))
    S.write_all (page_path id) page.0
    S.flush (page_path id)

  unfoldable pub write_page : ℕ → List ℕ → F.Flags → Exec FileChunkStore (Unit {0})
  unfolding write_file final_page
  write_page id payload flags s =
      let (r, disk) = write_file id (final_page s.compress payload flags) s.disk in
      (r, record s { disk = disk })

  unfoldable pub decode_page : ℕ → List ℕ → IoResult (List ℕ × F.Flags)
  decode_page id bytes = Io.◌>>=◌ (read_exact page_header_size bytes) λ head.
      Io.◌>>=◌ (from_bytes F head.0) λ header.
        Io.◌>>◌ (ensure (header.magic == page_magic) invalid_data) (
          Io.◌>>◌ (ensure (header.page_id == id) invalid_data) (
            Io.◌>>=◌ (read_exact header.payload_len head.1) λ body.
              Io.◌>>◌ (ensure (X.hash body.0 == header.payload_crc32) invalid_data) (
                if F.contains header.flags F.compressed
                then (Io.◌>>=◌ (X.decompress body.0) λ payload. ok (payload, header.flags))
                else ok (body.0, header.flags))))

  unfoldable pub read_page : ℕ → FileChunkStore → IoResult (List ℕ × F.Flags)
  unfolding decode_page page_path
  read_page id s = Io.◌>>=◌ (S.open_file (page_path id) s.disk) (decode_page id)

  unfoldable pub delete_page : ℕ → Exec FileChunkStore (Unit {0})
  unfolding page_path
  delete_page id s =
      if S.exists (page_path id) s.disk
      then (let (r, disk) = S.remove_file (page_path id) s.disk in (r, record s { disk = disk }))
      else (ok tt, s)

  unfoldable pub page_exists : ℕ → FileChunkStore → Bool
  unfolding page_path
  page_exists id s = S.exists (page_path id) s.disk

  unfoldable pub page_byte_size : ℕ → FileChunkStore → Option ℕ
  unfolding page_path
  page_byte_size id s = S.file_len (page_path id) s.disk

  unfoldable pub next_page_id : FileChunkStore → ℕ × FileChunkStore
  next_page_id s = (s.counter, record s { counter = add_u64 s.counter 1 })
