-- ===== src/Storage/PageHeaderBytes.antt =====
-- The bytes of a page header: their number, and that they are read back as written.
use pocket_data_mining.Base.{◌≡◌, refl, length}
use pocket_data_mining.Base.Bytes.{to_le_bytes, from_le_bytes, from_le_bytes-to_le_bytes}
use pocket_data_mining.Base.Io.{ok}
use pocket_data_mining.Storage.PageLayout.{
  PageFlags, PageHeader, to_bytes, from_bytes, HeaderFits, page_header_size,
}

module _ (F : PageFlags) where
  pub length-to_bytes : (h : PageHeader F) → length (to_bytes F h) ≡ page_header_size
  unfolding to_bytes to_le_bytes
  length-to_bytes h = refl

  -- A header whose fields are within their widths is read back from its bytes, flags included.
  pub from_bytes-to_bytes : (h : PageHeader F) → HeaderFits F h → from_bytes F (to_bytes F h) ≡ ok h
  unfolding to_bytes from_bytes to_le_bytes from_le_bytes
  from_bytes-to_bytes h fits =
      rw (F.from_bits-bits h.flags, from_bytes)
        (cc (
          from_le_bytes-to_le_bytes 4 h.magic fits.magic_fits,
          from_le_bytes-to_le_bytes 8 h.page_id fits.page_id_fits,
          from_le_bytes-to_le_bytes 4 h.payload_len fits.payload_len_fits,
          from_le_bytes-to_le_bytes 4 h.payload_crc32 fits.payload_crc32_fits,
        ))
