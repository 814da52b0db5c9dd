-- ===== src/Storage/Tests.antt =====
-- The page store at concrete inputs, over the parameters of Storage/Fixtures.antt.
use pocket_data_mining.Base.{ℕ, ◌≡◌, refl, true, false, none, List, [], ◌∷◌, ◌++◌, replicate, arith}
use pocket_data_mining.Base.Io.{ok}
use pocket_data_mining.Base.Exec.{WhenOk}
use pocket_data_mining.Storage.PageLayout.{PageHeader, HeaderFits, to_bytes, from_bytes, page_magic}
use pocket_data_mining.Storage.FileChunkStore.{
  FileChunkStore, page_header, decode_page, write_page, read_page, write_file, final_page,
  page_path,
}
use pocket_data_mining.Base.Bytes.{to_le_bytes, from_le_bytes}
use pocket_data_mining.Storage.PageFile.{unpack, decode-encode}
use pocket_data_mining.Storage.WriteRead.{read_page-write_page, read_page-write_page_ne}
use pocket_data_mining.Storage.Fixtures.{ThreeFlags, three_flags, zeros_codec, files}

-- Ten zeros, which the codec shortens to two bytes.
abbrev zeros : List ℕ
zeros = replicate 10 0

abbrev compressing : FileChunkStore three_flags zeros_codec files
compressing = record { counter = 1; compress = true; disk = λ _. none }

read_page-write_page_example :
    WhenOk
      (λ _ t. (f : ThreeFlags) × (read_page three_flags zeros_codec files 65_537 t ≡ ok (zeros, f)))
      (write_page three_flags zeros_codec files 65_537 zeros (false, (true, false)) compressing)
read_page-write_page_example =
    read_page-write_page three_flags zeros_codec files 65_537 zeros (false, (true, false))
      compressing refl (omega arith) (omega arith)

read_page-write_page_ne_example :
    read_page three_flags zeros_codec files 2
      (write_page three_flags zeros_codec files 65_537 zeros (false, (true, false)) compressing).1
    ≡ read_page three_flags zeros_codec files 2 compressing
read_page-write_page_ne_example =
    read_page-write_page_ne three_flags zeros_codec files 65_537 2 zeros (false, (true, false))
      compressing (λ e. omega arith)

-- Both calls succeed here, and the page is found compressed.
compressed_page :
    read_page three_flags zeros_codec files 65_537
      (write_page three_flags zeros_codec files 65_537 zeros (false, (true, false)) compressing).1
    ≡ ok (zeros, (true, (true, false)))
unfolding read_page write_page write_file final_page page_header page_path decode_page to_bytes
    from_bytes to_le_bytes from_le_bytes
compressed_page = refl

decode-encode_example :
    decode_page three_flags zeros_codec files 7 (
      to_bytes three_flags
        (page_header three_flags zeros_codec files 7 (5 ∷ 6 ∷ [], (false, (true, false))))
      ++ 5 ∷ 6 ∷ [])
    ≡ unpack three_flags zeros_codec files (5 ∷ 6 ∷ [], (false, (true, false)))
decode-encode_example =
    decode-encode three_flags zeros_codec files 7 (5 ∷ 6 ∷ [], (false, (true, false))) (omega arith)
      (omega arith)

abbrev header_7 : PageHeader three_flags
header_7 = record {
  magic = page_magic;
  page_id = 7;
  payload_len = 300;
  payload_crc32 = 65_536;
  flags = (true, (false, true));
}

header_7-HeaderFits : HeaderFits three_flags header_7
header_7-HeaderFits = record {
  magic_fits = omega arith;
  page_id_fits = omega arith;
  payload_len_fits = omega arith;
  payload_crc32_fits = omega arith;
}
