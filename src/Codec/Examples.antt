-- ===== src/Codec/Examples.antt =====
-- The encodings of crates/engine/src/utils/ and of the write batch at work.
use victory_db.Base.{
  ◌-◌, ◌^◌, ◌≡◌, refl, false, List, [], ◌∷◌, ◌++◌, Bytes, arith, replicate, length, drop,
  if◌then◌else◌, ltb,
}
use victory_db.Base.Run.{ok, panic}
use victory_db.Codec.VarInt.{VarInt, four, decode, decode_loop, as_slice, new_loop, pack, write_at}
use victory_db.Codec.VarInt
use victory_db.Codec.VarInt.Laws.{groups, new-groups, decode-new}
use victory_db.Codec.Memory.{
  Stores, write_u16_le, read_u16_le, write_u32_le, read_u32_le, write_u32_be, read_u32_be,
  write-read,
}
use victory_db.Codec.Batch.{Batch, header_size, put_bytes, batch_count, is_empty}
use victory_db.Codec.Batch
use victory_db.Codec.Batch.Laws.{Put, new-IsBatch, layout, is_empty-IsBatch}
use victory_db.Codec.Batch.RoundTrip.{put_all, read_puts, put_all-round_trip}

abbrev four_bytes : VarInt
four_bytes = four 255 255 255 127

largest : decode (as_slice four_bytes) ≡ (2 ^ 28 - 1, 4)
unfolding decode decode_loop as_slice
largest = refl

abbrev memory : Bytes
memory = replicate 8 0

abbrev one_put : Put
one_put = (107 ∷ [], 118 ∷ 119 ∷ [])

abbrev two_puts : List Put
two_puts = one_put ∷ ([], replicate 130 7) ∷ []

new-groups_example :
    VarInt.new (2 ^ 28) ≡ (if ltb (2 ^ 28) (2 ^ 28) then ok (groups (2 ^ 28)) else panic)
new-groups_example = new-groups (2 ^ 28) (omega arith)

decode-new_example :
    (w : VarInt) × (VarInt.new 300 ≡ ok w)
    × (decode (as_slice w ++ (9 ∷ [])) ≡ (300, length (as_slice w)))
decode-new_example = decode-new 300 (9 ∷ []) (omega arith)

write-read_example :
    Stores write_u16_le read_u16_le memory 3 513
    × Stores write_u32_le read_u32_le memory 3 16909060
    × Stores write_u32_be read_u32_be memory 3 16909060
write-read_example = write-read memory 3 513 16909060 (omega arith) (omega arith) (omega arith)

put_all-round_trip_example :
    (b : Batch) × (put_all Batch.new two_puts ≡ ok b)
    × (batch_count b ≡ ok 2)
    × (b.data_bytes ≡ layout two_puts)
    × (read_puts 2 (drop header_size b.data_bytes) ≡ two_puts)
put_all-round_trip_example =
    put_all-round_trip two_puts ((omega arith, omega arith), ((omega arith, omega arith), tt))
      (omega arith)

is_empty-IsBatch_example : is_empty Batch.new ≡ false
is_empty-IsBatch_example = is_empty-IsBatch Batch.new [] new-IsBatch
