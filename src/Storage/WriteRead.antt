-- ===== src/Storage/WriteRead.antt =====
-- The file store keeps the contract of ChunkStore: what a write leaves on disk, and what it leaves
-- alone.
use pocket_data_mining.Base.{
  ℕ, ◌/◌, ◌^◌, ◌<◌, ◌≡◌, ◌≢◌, refl, ap, ◌∙◌, false, some, List, [], ◌++◌, length,
}
use pocket_data_mining.Base.Io.{IoResult, ok, err}
use pocket_data_mining.Base.Io
use pocket_data_mining.Base.Exec.{
  ◌>>◌, WhenOk, WhenOk-settle, WhenOk-mono, WhenOk-all, WhenOk-state, WhenOk-part, settle-keeps,
}
use pocket_data_mining.Storage.PageLayout.{PageFlags, to_bytes}
use pocket_data_mining.Storage.Disk.{FileSystem, FilePath}
use pocket_data_mining.Storage.ChunkStore.{ChunkStore, StoreLaws}
use pocket_data_mining.Storage.FileChunkStore.{
  Codec, FileChunkStore, final_page, page_header, page_path, write_file, write_page, decode_page,
  read_page, delete_page, page_exists, page_byte_size, next_page_id,
}
use pocket_data_mining.Storage.PageFile.{decode-encode, length-final_page-lt, unpack-final_page}

pub page_path-injective : (i j : ℕ) → i ≢ j → page_path i ≢ page_path j
unfolding page_path
page_path-injective i j h e = h (ap (λ (p : FilePath). p.1) e)

module _ (F : PageFlags) (X : Codec) (S : FileSystem) where
  abbrev written : ℕ → List ℕ × F.Flags → List ℕ
  written id page = to_bytes F (page_header F X S id page) ++ page.0

  abbrev Holds : ℕ → List ℕ × F.Flags → Unit {0} → S.Disk → Type 0
  Holds id page _ d = S.contents d (page_path id) ≡ some (written id page)

  -- A write that succeeds leaves the header and the payload in the page's file, and nothing else.
  write_file_lem :
      (id : ℕ) (page : List ℕ × F.Flags) (d : S.Disk)
      → WhenOk (Holds id page) (write_file F X S id page d)
  unfolding write_file
  write_file_lem id page d = WhenOk-settle (Holds id page) _ (S.create_dir_all (id / 2 ^ 16) d) (
      WhenOk-all _ (S.create_dir_all (id / 2 ^ 16) d) (λ _ d1.
        WhenOk-settle (Holds id page) _ (S.create (page_path id) d1) (
          WhenOk-mono _ _ (S.create (page_path id) d1) (λ _ d2 e2. header d2 e2)
            (S.create_lem (page_path id) d1))))
    where
      payload :
          (d : S.Disk)
          → S.contents d (page_path id) ≡ some (to_bytes F (page_header F X S id page))
          → WhenOk (Holds id page) ((S.write_all (page_path id) page.0 >> S.flush (page_path id)) d)
      payload d e = WhenOk-settle (Holds id page) _ (S.write_all (page_path id) page.0 d) (
          WhenOk-mono _ _ (S.write_all (page_path id) page.0 d)
            (λ _ d1 e1.
              WhenOk-state (λ d2. Holds id page tt d2) (S.flush (page_path id) d1)
                (S.flush-keeps (page_path id) d1 (page_path id) ∙ e1))
            (S.write_all_lem (page_path id) page.0 d _ e))

      header :
          (d : S.Disk)
          → S.contents d (page_path id) ≡ some []
          → WhenOk (Holds id page) (
              (S.write_all (page_path id) (to_bytes F (page_header F X S id page))
                  >> (S.write_all (page_path id) page.0 >> S.flush (page_path id)))
                d)
      header d e =
          WhenOk-settle (Holds id page) _
            (S.write_all (page_path id) (to_bytes F (page_header F X S id page)) d)
            (WhenOk-mono _ _ (S.write_all (page_path id) (to_bytes F (page_header F X S id page)) d)
              (λ _ d1 e1. payload d1 e1)
              (S.write_all_lem (page_path id) (to_bytes F (page_header F X S id page)) d _ e))

  -- A write, failing or not, leaves the file of every other page alone.
  write_file-keeps :
      (id j : ℕ) (page : List ℕ × F.Flags) (d : S.Disk)
      → id ≢ j
      → S.contents (write_file F X S id page d).1 (page_path j) ≡ S.contents d (page_path j)
  unfolding write_file
  write_file-keeps id j page d h =
      settle-keeps K _ (S.create_dir_all (id / 2 ^ 16) d)
        (S.create_dir_all-keeps (id / 2 ^ 16) d (page_path j))
        λ _ d1 k1.
          settle-keeps K _ (S.create (page_path id) d1)
            (S.create-keeps (page_path id) d1 (page_path j) apart ∙ k1)
            λ _ d2 k2.
              settle-keeps K _ (S.write_all (page_path id) _ d2)
                (S.write_all-keeps (page_path id) _ d2 (page_path j) apart ∙ k2)
                λ _ d3 k3.
                  settle-keeps K _ (S.write_all (page_path id) _ d3)
                    (S.write_all-keeps (page_path id) _ d3 (page_path j) apart ∙ k3)
                    λ _ d4 k4. S.flush-keeps (page_path id) d4 (page_path j) ∙ k4
    where
      K : S.Disk → Type 0
      K e = S.contents e (page_path j) ≡ S.contents d (page_path j)

      apart : page_path id ≢ page_path j
      apart = page_path-injective id j h

  -- FileChunkStore implements the trait. A caller passes no COMPRESSED flag.
  unfoldable pub file_chunk_store : ChunkStore
  unfolding read_page write_page delete_page page_exists page_byte_size next_page_id
  file_chunk_store = record {
    Store = FileChunkStore F X S;
    Flags = F.Flags;
    no_flags = F.empty;
    Plain = λ f. F.contains f F.compressed ≡ false;
    write_page = write_page F X S;
    read_page = read_page F X S;
    delete_page = delete_page F X S;
    page_exists = page_exists F X S;
    page_byte_size = page_byte_size F X S;
    next_page_id = next_page_id F X S;
  }

  -- A page whose write succeeds is read back with its payload, whether or not it was compressed.
  -- The caller does not pass the flag of compression, and the id and the length are within the
  -- widths of the header.
  pub read_page-write_page :
      (id : ℕ) (payload : List ℕ) (flags : F.Flags) (s : FileChunkStore F X S)
      → F.contains flags F.compressed ≡ false
      → id < 2 ^ 64
      → length payload < 2 ^ 32
      → WhenOk
          (λ _ t. (f : F.Flags) × (read_page F X S id t ≡ ok (payload, f)))
          (write_page F X S id payload flags s)
  unfolding write_page read_page
  read_page-write_page id payload flags s plain hid hlen =
      WhenOk-part _ (λ d. record s { disk = d }) (write_file F X S id page s.disk)
        (WhenOk-mono (Holds id page) _ (write_file F X S id page s.disk)
          (λ _ d e. (
            (unpack-final_page F X S s.compress payload flags plain).0,
            ap (λ r. Io.◌>>=◌ r (decode_page F X S id))
                  (S.open_file_lem (page_path id) d (written id page) e)
                ∙ decode-encode F X S id page hid
                    (length-final_page-lt F X S s.compress payload flags hlen)
                ∙ (unpack-final_page F X S s.compress payload flags plain).1,
          ))
          (write_file_lem id page s.disk))
    where
      page : List ℕ × F.Flags
      page = final_page F X S s.compress payload flags

  -- A write, failing or not, leaves what every other page reads as it was.
  pub read_page-write_page_ne :
      (id j : ℕ) (payload : List ℕ) (flags : F.Flags) (s : FileChunkStore F X S)
      → id ≢ j
      → read_page F X S j (write_page F X S id payload flags s).1 ≡ read_page F X S j s
  unfolding write_page read_page
  read_page-write_page_ne id j payload flags s h = rw (
      S.open_file-keeps (page_path j) _ _
        (write_file-keeps id j (final_page F X S s.compress payload flags) s.disk h))

  pub file_chunk_store-laws : StoreLaws file_chunk_store
  unfolding file_chunk_store
  file_chunk_store-laws = record {
    no_flags-Plain = F.contains-empty;
    read-write =
        λ id payload flags s plain hid hlen. read_page-write_page id payload flags s plain hid hlen;
    read-write_ne = λ id j payload flags s h. read_page-write_page_ne id j payload flags s h;
    read-next_page_id = λ j s. refl;
  }
