-- ===== src/Codec/VarInt/Laws.antt =====
-- The bytes of `VarInt::new`, and `decode` on them (crates/engine/src/utils/var_int.rs).
use victory_db.Base.{
  ℕ, ◌+◌, ◌*◌, ◌/◌, ◌%◌, ◌^◌, ◌≤◌, ◌<◌, ◌≡◌, ◌∷◌, ◌++◌, Bytes, length, arith, ltb, if◌then◌else◌,
  bit_or, bit_and, u8, bit_and-mask, bit_or-low_high, top_bit, set_top_bit,
}
use victory_db.Base.Run.{ok, panic}
use victory_db.Codec.VarInt.{
  VarInt, one, two, three, four, new, decode_loop, decode, as_slice, shl_u32,
}
use native.Mathlib.Nat.{mod-eq_of_lt}

-- A byte that is not the last: seven bits under the top bit.
inner : (v : ℕ) → bit_or (u8 (bit_and v 0x7f)) 0x80 ≡ v % 128 + 128
inner v = ground (arith, bit_and-mask 7 v, set_top_bit (v % 128))

-- The bytes of a number, in plain arithmetic.
unfoldable pub groups : ℕ → VarInt
groups v =
    if ltb v (2 ^ 7)
    then one v
    else (if ltb v (2 ^ 14)
        then two (v % 128 + 128) (v / 128)
        else (if ltb v (2 ^ 21)
            then three (v % 128 + 128) (v / 128 % 128 + 128) (v / 2 ^ 14)
            else four (v % 128 + 128) (v / 128 % 128 + 128) (v / 2 ^ 14 % 128 + 128) (v / 2 ^ 21)))

-- `VarInt::new` returns the groups of seven bits of every number below 2 ^ 28, and panics on all
-- other numbers of 32 bits.
pub new-groups : (v : ℕ) → v < 2 ^ 32 → new v ≡ (if ltb v (2 ^ 28) then ok (groups v) else panic)
unfolding new groups
new-groups v h =
    ground (arith, inner v, inner (v / 128), inner (v / 128 / 128), inner (v / 128 / 128 / 128))

-- One group joins the result above the bits that are there.
join :
    (result g shift : ℕ)
    → result < 2 ^ shift
    → shift < 32
    → g * 2 ^ shift < 2 ^ 32
    → bit_or result (shl_u32 g shift) ≡ g * 2 ^ shift + result
join result g shift r h fits =
    rw (mod-eq_of_lt h, mod-eq_of_lt fits) (bit_or-low_high shift g result r)

module _ (rest : Bytes) (result shift n : ℕ) (r : result < 2 ^ shift) (h : shift < 32) where
  decode_last :
      (b : ℕ)
      → b < 128
      → b * 2 ^ shift < 2 ^ 32
      → decode_loop (b ∷ rest) result shift n ≡ (b * 2 ^ shift + result, n + 1)
  unfolding decode_loop
  decode_last b small fits = ground (arith, top_bit b, bit_and-mask 7 b, join result b shift r h)

  decode_inner :
      (g : ℕ)
      → g < 128
      → g * 2 ^ shift < 2 ^ 32
      → decode_loop ((g + 128) ∷ rest) result shift n
        ≡ decode_loop rest (g * 2 ^ shift + result) (shift + 7) (n + 1)
  unfolding decode_loop
  decode_inner g small fits =
      ground (arith, top_bit (g + 128), bit_and-mask 7 (g + 128), join result g shift r h)

-- Decoding the bytes of a number below 2 ^ 28 gives the number and how many bytes it took,
-- whatever follows.
pub decode-groups :
    (v : ℕ) (rest : Bytes)
    → v < 2 ^ 28
    → decode (as_slice (groups v) ++ rest) ≡ (v, length (as_slice (groups v)))
unfolding decode as_slice groups
decode-groups v rest h =
    let g0 : ℕ = v % 128 in
    let g1 : ℕ = v / 128 % 128 in
    let g2 : ℕ = v / 2 ^ 14 % 128 in
    let g3 : ℕ = v / 2 ^ 21 in
    let three_left = (g1 + 128) ∷ (g2 + 128) ∷ g3 ∷ rest in
    ground (
      arith,
      decode_last rest 0 0 0 (omega arith) (omega arith) v,
      decode_inner ((v / 128) ∷ rest) 0 0 0 (omega arith) (omega arith) g0,
      decode_last rest g0 7 1 (omega arith) (omega arith) (v / 128),
      decode_inner ((g1 + 128) ∷ (v / 2 ^ 14) ∷ rest) 0 0 0 (omega arith) (omega arith) g0,
      decode_inner ((v / 2 ^ 14) ∷ rest) g0 7 1 (omega arith) (omega arith) g1,
      decode_last rest (g1 * 2 ^ 7 + g0) 14 2 (omega arith) (omega arith) (v / 2 ^ 14),
      decode_inner three_left 0 0 0 (omega arith) (omega arith) g0,
      decode_inner ((g2 + 128) ∷ g3 ∷ rest) g0 7 1 (omega arith) (omega arith) g1,
      decode_inner (g3 ∷ rest) (g1 * 2 ^ 7 + g0) 14 2 (omega arith) (omega arith) g2,
      decode_last rest (g2 * 2 ^ 14 + (g1 * 2 ^ 7 + g0)) 21 3 (omega arith) (omega arith) g3,
    )

-- For every number below 2 ^ 28, `VarInt::new` returns, and `VarInt::decode` of its bytes, whatever
-- follows them, gives the number back with the count of those bytes.
pub decode-new :
    (v : ℕ) (rest : Bytes)
    → v < 2 ^ 28
    → (w : VarInt) × (new v ≡ ok w) × (decode (as_slice w ++ rest) ≡ (v, length (as_slice w)))
decode-new v rest h = (groups v, ground (arith, new-groups v), decode-groups v rest h)

-- Every result of `VarInt::new` has one to four bytes.
pub length-as_slice : (w : VarInt) → (1 ≤ length (as_slice w)) × (length (as_slice w) ≤ 4)
unfolding as_slice
length-as_slice (one a) = omega arith
length-as_slice (two a b) = omega arith
length-as_slice (three a b c) = omega arith
length-as_slice (four a b c d) = omega arith
