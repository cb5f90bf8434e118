-- ===== src/SkipList/Level.antt =====
-- The heights of towers: `seed_generator` and `generate_random_level` of
-- crates/engine/src/memtable/skip_list.rs, on 64-bit numbers.
use victory_db.Base.{
  ℕ, zero, suc, ◌+◌, ◌-◌, ◌*◌, ◌/◌, ◌%◌, ◌≤◌, ◌≡◌, min, max, arith, ltb, leb, ◌==◌, if◌then◌else◌,
  bit_xor, u64, ◌>>>◌, ◌<<<◌,
}
use victory_db.SkipList.Node.{Ptr, null, slot_address, max_head_height}

unfoldable pub seed_generator : ℕ → ℕ
seed_generator seed =
    let x1 = u64 (seed + 0x9E3779B97F4A7C15) in
    let x2 = u64 (bit_xor x1 (x1 >>> 30) * 0xBF58476D1CE4E5B9) in
    let x3 = u64 (bit_xor x2 (x2 >>> 27) * 0x94D049BB133111EB) in bit_xor x3 (x3 >>> 31)

-- The three xor-shifts.
unfoldable pub next_seed : ℕ → ℕ
next_seed s =
    let s1 = bit_xor s (s <<< 12) in let s2 = bit_xor s1 (s1 >>> 25) in bit_xor s2 (s2 <<< 27)

-- `trailing_zeros` of a number of `n` bits
unfoldable pub trailing_zeros : ℕ → ℕ → ℕ
trailing_zeros zero x = 0
trailing_zeros (suc n) x = let more = trailing_zeros n (x / 2) in if x % 2 == 0 then suc more else 0

-- `while height >= 4 { if head.is_null() { break; } height -= 1; }`
-- The test reads the address of the slot, not what the slot holds.
unfoldable pub lower_height : Ptr → ℕ → ℕ
unfolding slot_address
lower_height head zero = zero
lower_height head (suc h) =
    let lower = lower_height head h in
    if leb 4 (suc h)
    then (if slot_address head (suc h - 2) == null then suc h else lower)
    else suc h

-- The new seed, the new maximum and the height.
unfoldable pub generate_random_level : Ptr → ℕ → ℕ → ℕ × ℕ × ℕ
unfolding next_seed lower_height
generate_random_level head seed max_level =
    let seed' = next_seed seed in
    let height = lower_height head (min max_head_height (trailing_zeros 64 seed' + 1)) in
    (seed', (if ltb max_level height then height else max_level), height)

lower_height_bounds :
    (head : Ptr) (h : ℕ) → 1 ≤ h → (1 ≤ lower_height head h) × (lower_height head h ≤ 3)
unfolding lower_height
lower_height_bounds head zero p = absurd (omega arith)
lower_height_bounds head (suc zero) p = ground arith
lower_height_bounds head (suc (suc h)) p =
    ground (arith, lower_height_bounds head (suc h) (omega arith))

-- Every tower has one to three levels, whatever the seed, although eight are provided for; the new
-- maximum level is the larger of the old one and the height.
pub generate_random_level_bounds :
    (head : Ptr) (seed max_level : ℕ)
    → (1 ≤ (generate_random_level head seed max_level).2)
      × ((generate_random_level head seed max_level).2 ≤ 3)
      × ((generate_random_level head seed max_level).1
          ≡ max max_level (generate_random_level head seed max_level).2)
unfolding generate_random_level
generate_random_level_bounds head seed max_level = ground (
  arith,
  lower_height_bounds head (min max_head_height (trailing_zeros 64 (next_seed seed) + 1))
      (omega arith),
)
