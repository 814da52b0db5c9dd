-- ===== src/Mining/UlJoin/Bytes.antt =====
-- A utility list written to bytes is read back.
use pocket_data_mining.Base.{
  ℕ, ◌*◌, ◌/◌, ◌%◌, ◌^◌, ◌<◌, ◌≡◌, refl, ap, some, true, ◌==◌, List, [], ◌∷◌, length, length-append,
  arith, All,
}
use pocket_data_mining.Base.Bytes.{
  to_le_bytes, from_le_bytes, from_le_bytes-to_le_bytes, take-append_of_length,
  drop-append_of_length,
}
use pocket_data_mining.Types.{UlEntry}
use pocket_data_mining.Mining.UlJoin.{
  entry_bytes, serialize_ul_body, read_entry, read_entries, deserialize_ul_body,
}

-- The fields of an entry are within the widths of their types.
pub record EntryFits (e : UlEntry) : Type 0 where
  pub tid_fits : e.tid < 2 ^ 32
  pub iutils_fits : e.iutils < 2 ^ 64
  pub rutils_fits : e.rutils < 2 ^ 64

length-entry_bytes : (e : UlEntry) → length (entry_bytes e) ≡ 20
unfolding to_le_bytes
length-entry_bytes e = refl

read_entry-entry_bytes : (e : UlEntry) → EntryFits e → read_entry (entry_bytes e) ≡ e
unfolding to_le_bytes from_le_bytes
read_entry-entry_bytes e fits = cc (
  from_le_bytes-to_le_bytes 4 e.tid fits.tid_fits,
  from_le_bytes-to_le_bytes 8 e.iutils fits.iutils_fits,
  from_le_bytes-to_le_bytes 8 e.rutils fits.rutils_fits,
)

pub length-serialize_ul_body : (es : List UlEntry) → length (serialize_ul_body es) ≡ 20 * length es
unfolding serialize_ul_body
length-serialize_ul_body [] = omega arith
length-serialize_ul_body (e ∷ es) = omega (
  arith,
  length-append (entry_bytes e) (serialize_ul_body es),
  length-entry_bytes e,
  length-serialize_ul_body es,
)

read_entries-serialize :
    (es : List UlEntry) → All EntryFits es → read_entries (length es) (serialize_ul_body es) ≡ es
unfolding read_entries serialize_ul_body
read_entries-serialize [] fits = refl
read_entries-serialize (e ∷ es) fits = simp (
  take-append_of_length 20 (entry_bytes e) (serialize_ul_body es) (length-entry_bytes e),
  drop-append_of_length 20 (entry_bytes e) (serialize_ul_body es) (length-entry_bytes e),
  read_entry-entry_bytes e fits.0,
  read_entries-serialize es fits.1,
)

whole : (n : ℕ) → (20 * n % 20 == 0) ≡ true
whole n = ground arith

rounds : (n : ℕ) → 20 * n / 20 ≡ n
rounds n = omega arith

-- Entries whose fields are within their widths come back from their bytes, and the assertion on
-- the length holds.
pub deserialize-serialize :
    (es : List UlEntry) → All EntryFits es → deserialize_ul_body (serialize_ul_body es) ≡ some es
unfolding deserialize_ul_body
deserialize-serialize es fits =
    rw (length-serialize_ul_body es, whole (length es), rounds (length es))
      (ap some (read_entries-serialize es fits))
