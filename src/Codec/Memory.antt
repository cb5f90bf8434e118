-- ===== src/Codec/Memory.antt =====
-- crates/engine/src/utils/mod.rs: integers at unaligned addresses. Memory is a byte string and an
-- address an offset in it; an access that does not lie inside is a fault. Reading the native
-- integer and swapping it on the other kind of machine is reading in the named byte order.
use victory_db.Base.{
  ℕ, ◌+◌, ◌^◌, ◌≤◌, ◌<◌, ◌≡◌, ap, ◌++◌, Bytes, length, take, drop, arith, leb, if◌then◌else◌, to_le,
  from_le, to_be, from_be, length-append, length-take, length-drop, length-to_le, length-to_be,
  take-append, drop-append,
}
use victory_db.Base.Run.{Run, ok, fault, ◌>>=◌}
use victory_db.Base.Slices.{from_le-to_le, from_be-to_be}

-- `copy_nonoverlapping(bytes, mem + at, n)`
unfoldable pub splice : Bytes → ℕ → Bytes → Run Bytes
splice mem at bytes =
    if leb (at + length bytes) (length mem)
    then ok (take at mem ++ (bytes ++ drop (at + length bytes) mem))
    else fault

-- `n` bytes at an address
unfoldable pub read_bytes : Bytes → ℕ → ℕ → Run Bytes
read_bytes mem at n = if leb (at + n) (length mem) then ok (take n (drop at mem)) else fault

unfoldable pub read_u16_le : Bytes → ℕ → Run ℕ
unfolding read_bytes
read_u16_le mem at = do bytes ← read_bytes mem at 2; ok (from_le bytes)

unfoldable pub write_u16_le : Bytes → ℕ → ℕ → Run Bytes
unfolding splice
write_u16_le mem at value = splice mem at (to_le 2 value)

unfoldable pub read_u32_le : Bytes → ℕ → Run ℕ
unfolding read_bytes
read_u32_le mem at = do bytes ← read_bytes mem at 4; ok (from_le bytes)

unfoldable pub write_u32_le : Bytes → ℕ → ℕ → Run Bytes
unfolding splice
write_u32_le mem at value = splice mem at (to_le 4 value)

unfoldable pub read_u32_be : Bytes → ℕ → Run ℕ
unfolding read_bytes
read_u32_be mem at = do bytes ← read_bytes mem at 4; ok (from_be bytes)

unfoldable pub write_u32_be : Bytes → ℕ → ℕ → Run Bytes
unfolding splice
write_u32_be mem at value = splice mem at (to_be 4 value)

module _ (mem : Bytes) (at : ℕ) (bytes : Bytes) (fits : at + length bytes ≤ length mem) where
  abbrev pub spliced : Bytes
  spliced = take at mem ++ (bytes ++ drop (at + length bytes) mem)

  pub splice-ok : splice mem at bytes ≡ ok spliced
  unfolding splice
  splice-ok = ground arith

  front_length : length (take at mem) ≡ at
  front_length = omega (arith, length-take at mem)

  pub length-spliced : length spliced ≡ length mem
  length-spliced = omega (
    arith,
    front_length,
    length-append (take at mem) (bytes ++ drop (at + length bytes) mem),
    length-append bytes (drop (at + length bytes) mem),
    length-drop (at + length bytes) mem,
  )

  pub read_bytes-spliced : read_bytes spliced at (length bytes) ≡ ok bytes
  unfolding read_bytes
  read_bytes-spliced = ground (
    arith,
    length-spliced,
    drop-append at (take at mem) (bytes ++ drop (at + length bytes) mem) front_length,
    take-append (length bytes) bytes (drop (at + length bytes) mem),
  )

-- A write that succeeds, keeps the length of the memory, and is read back at its address.
abbrev pub Stores : (Bytes → ℕ → ℕ → Run Bytes) → (Bytes → ℕ → Run ℕ) → Bytes → ℕ → ℕ → Type 0
Stores write read mem at v =
    (m : Bytes) × (write mem at v ≡ ok m) × (length m ≡ length mem) × (read m at ≡ ok v)

read_back :
    (mem : Bytes) (at : ℕ) (bytes : Bytes) (n : ℕ)
    → length bytes ≡ n
    → (fits : at + length bytes ≤ length mem)
    → read_bytes (spliced mem at bytes fits) at n ≡ ok bytes
read_back mem at bytes n e fits = rw (← e) (read_bytes-spliced mem at bytes fits)

-- Where four bytes lie inside the memory, each of the three writes, of a number of its width,
-- succeeds, keeps the length of the memory, and is read back by the read of the same width and byte
-- order.
pub write-read :
    (mem : Bytes) (at w v : ℕ)
    → at + 4 ≤ length mem
    → w < 2 ^ 16
    → v < 2 ^ 32
    → Stores write_u16_le read_u16_le mem at w
      × Stores write_u32_le read_u32_le mem at v
      × Stores write_u32_be read_u32_be mem at v
unfolding write_u16_le read_u16_le write_u32_le read_u32_le write_u32_be read_u32_be
write-read mem at w v fits small h = (
  (let f : at + length (to_le 2 w) ≤ length mem = omega (arith, length-to_le 2 w) in
      (
        spliced mem at (to_le 2 w) f,
        splice-ok mem at (to_le 2 w) f,
        length-spliced mem at (to_le 2 w) f,
        rw (read_back mem at (to_le 2 w) 2 (length-to_le 2 w) f) (ap ok (from_le-to_le 2 w small)),
      )),
  (let f : at + length (to_le 4 v) ≤ length mem = omega (arith, length-to_le 4 v) in
      (
        spliced mem at (to_le 4 v) f,
        splice-ok mem at (to_le 4 v) f,
        length-spliced mem at (to_le 4 v) f,
        rw (read_back mem at (to_le 4 v) 4 (length-to_le 4 v) f) (ap ok (from_le-to_le 4 v h)),
      )),
  (let f : at + length (to_be 4 v) ≤ length mem = omega (arith, length-to_be 4 v) in
      (
        spliced mem at (to_be 4 v) f,
        splice-ok mem at (to_be 4 v) f,
        length-spliced mem at (to_be 4 v) f,
        rw (read_back mem at (to_be 4 v) 4 (length-to_be 4 v) f) (ap ok (from_be-to_be 4 v h)),
      )),
)
