-- ===== src/Storage/PageFile.antt =====
-- Reading the bytes of a chunk file back: `decode_page` on a header and its payload.
use mathlib.Core.List.{append-nil}
use pocket_data_mining.Base.{
  ℕ, ◌%◌, ◌^◌, ◌<◌, ◌≡◌, Bool, false, List, [], ◌++◌, length, if◌then◌else◌, arith, ==-self,
  length-append, le→ltb_false,
}
use pocket_data_mining.Base.Bytes.{take-append_of_length, drop-append_of_length}
use pocket_data_mining.Base.Io.{IoResult, ok, err}
use pocket_data_mining.Base.Io
use pocket_data_mining.Storage.PageLayout.{PageFlags, to_bytes, HeaderFits, page_header_size}
use pocket_data_mining.Storage.PageHeaderBytes.{length-to_bytes, from_bytes-to_bytes}
use pocket_data_mining.Storage.Disk.{FileSystem}
use pocket_data_mining.Storage.FileChunkStore.{
  Codec, read_exact, final_page, page_header, decode_page,
}

pub read_exact-append :
    (n : ℕ) (xs ys : List ℕ) → length xs ≡ n → read_exact n (xs ++ ys) ≡ ok (xs, ys)
read_exact-append n xs ys e = simp (
  le→ltb_false (length (xs ++ ys)) n (omega (arith, length-append xs ys)),
  take-append_of_length n xs ys e,
  drop-append_of_length n xs ys e,
)

pub read_exact-all : (n : ℕ) (xs : List ℕ) → length xs ≡ n → read_exact n xs ≡ ok (xs, [])
read_exact-all n xs e = rw append-nil at (read_exact-append n xs [] e)

module _ (F : PageFlags) (X : Codec) (S : FileSystem) where
  page_header-HeaderFits :
      (id : ℕ) (page : List ℕ × F.Flags) → id < 2 ^ 64 → HeaderFits F (page_header F X S id page)
  unfolding page_header
  page_header-HeaderFits id page h = record {
    magic_fits = omega arith;
    page_id_fits = h;
    payload_len_fits = omega arith;
    payload_crc32_fits = X.hash-lt page.0;
  }

  -- What follows the checks: decompression, by the flag.
  abbrev pub unpack : List ℕ × F.Flags → IoResult (List ℕ × F.Flags)
  unpack page =
      if F.contains page.1 F.compressed
      then (Io.◌>>=◌ (X.decompress page.0) λ payload. ok (payload, page.1))
      else ok page

  -- The bytes of a header and its payload pass every check of read_page, whose result is then
  -- that of the decompression, by the flag. The id and the length are within the widths of the
  -- header.
  pub decode-encode :
      (id : ℕ) (page : List ℕ × F.Flags)
      → id < 2 ^ 64
      → length page.0 < 2 ^ 32
      → decode_page F X S id (to_bytes F (page_header F X S id page) ++ page.0) ≡ unpack page
  unfolding decode_page
  decode-encode id page hid hlen =
      simp
        (
          read_exact-append page_header_size (to_bytes F (page_header F X S id page)) page.0
              (length-to_bytes F (page_header F X S id page)),
          from_bytes-to_bytes F (page_header F X S id page) (page_header-HeaderFits id page hid),
        )
        (unfold page_header in
          simp (
            ==-self id,
            read_exact-all (length page.0 % 2 ^ 32) page.0 (omega arith),
            ==-self (X.hash page.0),
          ))

  pub length-final_page-lt :
      (compress : Bool) (payload : List ℕ) (flags : F.Flags)
      → length payload < 2 ^ 32
      → length (final_page F X S compress payload flags).0 < 2 ^ 32
  unfolding final_page
  length-final_page-lt compress payload flags h = ground arith

  pub unpack-final_page :
      (compress : Bool) (payload : List ℕ) (flags : F.Flags)
      → F.contains flags F.compressed ≡ false
      → (f : F.Flags) × (unpack (final_page F X S compress payload flags) ≡ ok (payload, f))
  unfolding final_page
  unpack-final_page compress payload flags plain = (
    (final_page F X S compress payload flags).1,
    ground (arith, X.decompress-compress payload, F.contains-union_right flags F.compressed),
  )
