-- ===== src/Storage/PageLayout.antt =====
-- storage/page_layout.rs. The type of flags comes from the bitflags crate, a parameter: the
-- constants are the source's, the operations and their documented laws the crate's.
use pocket_data_mining.Base.{
  ℕ, ◌-◌, ◌<◌, ◌^◌, ◌≡◌, Bool, true, false, Option, none, some, List, [], ◌∷◌, ◌++◌, take, drop,
  get_or,
}
use pocket_data_mining.Base.Bytes.{to_le_bytes, from_le_bytes}
use pocket_data_mining.Base.Io.{IoResult, ok, err, invalid_data}

abbrev pub page_magic : ℕ
page_magic = 0xA188_114D

abbrev pub page_header_size : ℕ
page_header_size = 24

-- What the `bitflags!` declaration of PageFlags gives.
pub record PageFlags : Type 1 where
  pub Flags : Type 0
  pub empty : Flags
  pub compressed : Flags
  pub ul_body : Flags
  pub tx_chunk : Flags
  pub bits : Flags → ℕ
  pub from_bits : ℕ → Option Flags
  pub union : Flags → Flags → Flags
  pub contains : Flags → Flags → Bool
  pub bits-lt : (f : Flags) → bits f < 256
  pub from_bits-bits : (f : Flags) → from_bits (bits f) ≡ some f
  pub contains-empty : contains empty compressed ≡ false
  pub contains-tx_chunk : contains tx_chunk compressed ≡ false
  pub contains-union_right : (f g : Flags) → contains (union f g) g ≡ true

abbrev pub slice {ℓ} : {A : Type ℓ} → List A → ℕ → ℕ → List A
slice buf from to = take (to - from) (drop from buf)

module _ (F : PageFlags) where
  open F use {Flags, bits, from_bits}

  pub record PageHeader : Type 0 where
    pub magic : ℕ
    pub page_id : ℕ
    pub payload_len : ℕ
    pub payload_crc32 : ℕ
    pub flags : Flags

  -- The buffer that starts as zeros has its first 21 bytes written, in order.
  unfoldable pub to_bytes : PageHeader → List ℕ
  to_bytes h =
      to_le_bytes 4 h.magic
      ++ (to_le_bytes 8 h.page_id
          ++ (to_le_bytes 4 h.payload_len
              ++ (to_le_bytes 4 h.payload_crc32 ++ (bits h.flags ∷ 0 ∷ 0 ∷ 0 ∷ []))))

  -- `buf` has 24 bytes by its type in the source.
  unfoldable pub from_bytes : List ℕ → IoResult PageHeader
  from_bytes buf = elim (from_bits (get_or buf 20 0)) [
    | none ↦ err invalid_data
    | some flags ↦ ok (record {
      magic = from_le_bytes (slice buf 0 4);
      page_id = from_le_bytes (slice buf 4 12);
      payload_len = from_le_bytes (slice buf 12 16);
      payload_crc32 = from_le_bytes (slice buf 16 20);
      flags = flags;
    })
  ]

  -- The fields that the Rust types keep within their widths.
  pub record HeaderFits (h : PageHeader) : Type 0 where
    pub magic_fits : h.magic < 2 ^ 32
    pub page_id_fits : h.page_id < 2 ^ 64
    pub payload_len_fits : h.payload_len < 2 ^ 32
    pub payload_crc32_fits : h.payload_crc32 < 2 ^ 32
