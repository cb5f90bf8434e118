-- ===== src/Key/InternalKey.antt =====
-- crates/engine/src/key/internal_key.rs and `encode_into` of key/mod.rs.
pub mod Laws
pub mod Ordered
use victory_db.Base.{
  ℕ, ◌+◌, ◌≡◌, Bool, true, false, Option, none, some, List, ◌++◌, Bytes, length, take, drop, ltb,
  ◌==◌, if◌then◌else◌, bit_or, bit_and, u8, u64, ◌>>>◌, ◌<<<◌, to_be, from_be,
}
use victory_db.Key.Comparator.{user_part, trailer_part}

pub data OperationType : Type 0 where
  put delete merge max_op : OperationType

-- `op as u8`
unfoldable pub op_code : OperationType → ℕ
op_code put = 1
op_code delete = 2
op_code merge = 3
op_code max_op = 255

-- `OperationType::from(u8)`; `none` is the panic of `unreachable!()`.
unfoldable pub op_from : ℕ → Option OperationType
op_from n =
    if n == 1
    then some put
    else (if n == 2
        then some delete
        else (if n == 3 then some merge else (if n == 255 then some max_op else none)))

-- `(seq_no << 8) | u64::from(op)`
unfoldable pub pack_trailer : ℕ → OperationType → ℕ
unfolding op_code
pack_trailer seq_no op = bit_or (seq_no <<< 8) (op_code op)

unfoldable pub encode_trailer : ℕ → OperationType → Bytes
encode_trailer seq_no op = to_be 8 (pack_trailer seq_no op)

unfoldable pub unpack_trailer_raw : ℕ → ℕ × ℕ
unpack_trailer_raw trailer = (trailer >>> 8, u8 (bit_and trailer 0xff))

unfoldable pub unpack_trailer : ℕ → Option (ℕ × OperationType)
unfolding unpack_trailer_raw
unpack_trailer trailer =
    let (seq_no, op) = unpack_trailer_raw trailer in
    elim (op_from op) [ none ↦ none | some t ↦ some (seq_no, t) ]

unfoldable pub extract_seq_no : ℕ → ℕ
extract_seq_no trailer = trailer >>> 8

unfoldable pub extract_op : ℕ → Option OperationType
extract_op trailer = op_from (u8 (bit_and trailer 0xff))

unfoldable pub extract_op_raw : ℕ → ℕ
extract_op_raw trailer = u8 (bit_and trailer 0xff)

pub record InternalKeyRef : Type 0 where
  pub user_key : Bytes
  pub seq_no : ℕ
  pub op : ℕ

-- `InternalKeyRef::from(&[u8])`; `none` is the panic of `split_at` on a key of less than 8 bytes.
unfoldable pub internal_key_ref : Bytes → Option InternalKeyRef
internal_key_ref key =
    if ltb (length key) 8
    then none
    else (let trailer = from_be (trailer_part key) in
        some (record {
          user_key = user_part key;
          seq_no = (unpack_trailer_raw trailer).0;
          op = (unpack_trailer_raw trailer).1;
        }))

-- The bytes that `encode_into` leaves in a destination of `user_key.len() + 8` bytes or more: the
-- user key, the trailer, and the rest of `dst` as it was. A shorter destination panics.
unfoldable pub encode_into : Bytes → Bytes → ℕ → OperationType → Option Bytes
encode_into dst user_key seq_no op_type =
    let n = length user_key in
    if ltb (length dst) (n + 8)
    then none
    else some (user_key ++ (encode_trailer seq_no op_type ++ drop (n + 8) dst))

-- An internal key: user key and trailer.
abbrev pub internal_key : Bytes → ℕ → OperationType → Bytes
internal_key user_key seq_no op = user_key ++ encode_trailer seq_no op
