-- ===== src/Codec/VarInt.antt =====
-- crates/engine/src/utils/var_int.rs: 32-bit integers in one to four bytes, seven bits a byte.
pub mod Laws
use victory_db.Base.{
  ℕ, zero, suc, ◌+◌, ◌*◌, ◌%◌, ◌^◌, [], ◌∷◌, Bytes, length, set, ltb, ◌==◌, if◌then◌else◌, bit_or,
  bit_and, u8, ◌>>>◌,
}
use victory_db.Base.Run.{Run, ok, panic, out_of_fuel, ◌>>=◌}

abbrev msb : ℕ
msb = 0x80

abbrev low_7_bits : ℕ
low_7_bits = 0x7f

abbrev shift_7_bits : ℕ
shift_7_bits = 7

pub data VarInt : Type 0 where
  one : ℕ → VarInt
  two : ℕ → ℕ → VarInt
  three : ℕ → ℕ → ℕ → VarInt
  four : ℕ → ℕ → ℕ → ℕ → VarInt

-- `buf[i] = b`, with the bounds check of an array index
unfoldable pub write_at : Bytes → ℕ → ℕ → Run Bytes
write_at buf i b = if ltb i (length buf) then ok (set buf i b) else panic

-- The `while` loop. Its fifth round writes past the array of four, so five rounds are enough fuel.
unfoldable pub new_loop : ℕ → Bytes → ℕ → ℕ → Run (Bytes × ℕ × ℕ)
unfolding write_at
new_loop zero buf i v = out_of_fuel
new_loop (suc fuel) buf i v =
    if ltb 127 v
    then (write_at buf i (bit_or (u8 (bit_and v low_7_bits)) msb) >>= λ buf'.
        new_loop fuel buf' (i + 1) (v >>> shift_7_bits))
    else ok (buf, i, v)

-- `[buf[0], …]`, by the number of bytes
unfoldable pub pack : Bytes → ℕ → VarInt
pack (a ∷ b ∷ c ∷ d ∷ rest) n =
    if n == 1
    then one a
    else (if n == 2 then two a b else (if n == 3 then three a b c else four a b c d))
pack buf n = one 0

-- `VarInt::new`
unfoldable pub new : ℕ → Run VarInt
unfolding new_loop pack
new value = do
  (buf, i, v) ← new_loop 5 (0 ∷ 0 ∷ 0 ∷ 0 ∷ []) 0 value
  buf' ← write_at buf i (u8 v)
  ok (pack buf' (i + 1))

-- `x << shift` on `u32`: the shift is taken modulo 32.
abbrev shl_u32 : ℕ → ℕ → ℕ
shl_u32 x shift = x * 2 ^ (shift % 32) % 2 ^ 32

unfoldable pub decode_loop : Bytes → ℕ → ℕ → ℕ → ℕ × ℕ
decode_loop [] result shift bytes_read = (result, bytes_read)
decode_loop (byte ∷ buf) result shift bytes_read =
    let result' = bit_or result (shl_u32 (bit_and byte 0x7f) shift) in
    let rest = decode_loop buf result' (shift + 7) (bytes_read + 1) in
    if bit_and byte 0x80 == 0 then (result', bytes_read + 1) else rest

-- `VarInt::decode`
unfoldable pub decode : Bytes → ℕ × ℕ
unfolding decode_loop
decode buf = decode_loop buf 0 0 0

-- `VarInt::as_slice`
unfoldable pub as_slice : VarInt → Bytes
as_slice (one a) = a ∷ []
as_slice (two a b) = a ∷ b ∷ []
as_slice (three a b c) = a ∷ b ∷ c ∷ []
as_slice (four a b c d) = a ∷ b ∷ c ∷ d ∷ []
