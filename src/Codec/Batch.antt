-- ===== src/Codec/Batch.antt =====
-- crates/engine/src/db/write_batch.rs: a batch is a header of twelve bytes and its operations.
pub mod Laws
pub mod RoundTrip
use victory_db.Base.{
  ℕ, zero, suc, ◌+◌, ◌%◌, ◌^◌, ◌++◌, Bool, [], ◌∷◌, Bytes, length, take, drop, replicate, leb, ◌==◌,
  if◌then◌else◌, to_le, u32,
}
use victory_db.Base.Run.{Run, ok, panic, fault, ◌>>=◌}
use victory_db.Codec.Memory.{read_u32_le, write_u32_le}
use victory_db.Codec.VarInt

abbrev pub batch_count_offset : ℕ
batch_count_offset = 8

abbrev pub header_size : ℕ
header_size = 12

abbrev pub max_batch_size : ℕ
max_batch_size = 2 ^ 20

pub data BatchOpType : Type 0 where
  put delete merge : BatchOpType

-- `BatchOpType::into`
unfoldable pub op_byte : BatchOpType → ℕ
op_byte put = 1
op_byte delete = 2
op_byte merge = 3

pub record Batch : Type 0 where
  pub data_bytes : Bytes
  pub max_bytes : ℕ

-- `Batch::new`
unfoldable pub new : Batch
new = record { data_bytes = replicate header_size 0; max_bytes = max_batch_size }

-- `Batch::new_with_capacity`; the capacity shows in no result.
unfoldable pub new_with_capacity : ℕ → Run Batch
unfolding new
new_with_capacity cap = if leb cap max_batch_size then ok new else panic

-- `VarInt::new(bytes.len() as u32).as_slice()` and the bytes
unfoldable pub var_string : Bytes → Run Bytes
unfolding VarInt.as_slice
var_string bytes = do len ← VarInt.new (u32 (length bytes)); ok (VarInt.as_slice len ++ bytes)

-- The count in the header plus one. Slicing `data[8..12]` panics on a shorter buffer.
unfoldable pub increment_count : Bytes → Run Bytes
increment_count bytes =
    if leb (batch_count_offset + 4) (length bytes)
    then (do
      count ← read_u32_le bytes batch_count_offset
      write_u32_le bytes batch_count_offset ((count + 1) % 2 ^ 32))
    else panic

-- `Batch::put_bytes`
unfoldable pub put_bytes : Batch → Bytes → Bytes → Run Batch
unfolding var_string increment_count op_byte
put_bytes b key value = do
  key_bytes ← var_string key
  value_bytes ← var_string value
  let op = op_byte put ∷ (to_le 4 0 ++ (key_bytes ++ value_bytes))
  bytes ← increment_count (b.data_bytes ++ op)
  ok (record b { data_bytes = bytes })

-- `Batch::put`
unfoldable pub put_key : Batch → Bytes → Bytes → Run Batch
unfolding put_bytes
put_key b key value = put_bytes b key value

-- `Batch::batch_count`
unfoldable pub batch_count : Batch → Run ℕ
batch_count b =
    if leb (batch_count_offset + 4) (length b.data_bytes)
    then read_u32_le b.data_bytes batch_count_offset
    else panic

-- `Batch::batch_size`
unfoldable pub batch_size : Batch → ℕ
batch_size b = length b.data_bytes

-- `Batch::is_empty`
unfoldable pub is_empty : Batch → Bool
is_empty b = length b.data_bytes == 0
