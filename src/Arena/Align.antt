-- ===== src/Arena/Align.antt =====
-- Rounding up to a power of two by a mask (`alignment_check` of crates/mem/src/arena.rs).
use victory_db.Base.{
  ℕ, zero, suc, ◌+◌, ◌-◌, ◌*◌, ◌/◌, ◌%◌, ◌^◌, ◌≤◌, ◌<◌, ◌≡◌, ap, sym, ◌∙◌, arith, bit_and,
  bit_and-mask,
}
use victory_db.Base.Bits.{and_digit, double}
use victory_db.Arena.{align_up}
use native.Mathlib.Nat.{
  pow-suc, one-le-pow, div-div-eq-div-mul, mod-eq_of_lt, div-add-mod', mod-lt, mul-mod_left,
  pow-le-pow_right,
}

-- A mask over the high bits works on the quotient.
and_high : (k x m : ℕ) → bit_and x (m * 2 ^ k) ≡ bit_and (x / 2 ^ k) m * 2 ^ k
and_high zero x m = ground arith
and_high (suc k) x m = ground (
  arith,
  and_digit x (m * 2 ^ suc k),
  double m k,
  double (bit_and (x / 2 ^ suc k) m) k,
  and_high k (x / 2) m,
  div-div-eq-div-mul x 2 (2 ^ k),
  pow-suc 2 k,
)

pow_split : (j k : ℕ) → 2 ^ (j + k) ≡ 2 ^ j * 2 ^ k
pow_split zero k = ground arith
pow_split (suc j) k = ground (
  arith,
  pow_split j k,
  pow-suc 2 (j + k),
  ap (λ (t : ℕ). 2 ^ t) (suc_add j k),
  pow-suc 2 j,
  ap (λ (t : ℕ). t * 2 ^ k) (pow-suc 2 j),
)
  where
    suc_add : (j k : ℕ) → suc j + k ≡ suc (j + k)
    suc_add j k = omega arith

module _ (j k x : ℕ) (small : x < 2 ^ (j + k)) where
  high_mask : 2 ^ (j + k) - 1 - (2 ^ k - 1) ≡ (2 ^ j - 1) * 2 ^ k
  high_mask =
      let one_less : 2 ^ j ≡ 2 ^ j - 1 + 1 = omega (arith, one-le-pow j 2 (omega arith)) in
      omega (
        arith,
        pow_split j k,
        one-le-pow j 2 (omega arith),
        one-le-pow k 2 (omega arith),
        ap (λ (t : ℕ). t * 2 ^ k) one_less,
      )

  below : x / 2 ^ k < 2 ^ j
  below = grind (arith, pow_split j k, div-add-mod' x (2 ^ k), one-le-pow k 2)

  -- Clearing the `k` low bits of a number of `j + k` bits.
  clear_low : bit_and x (2 ^ (j + k) - 1 - (2 ^ k - 1)) ≡ x / 2 ^ k * 2 ^ k
  clear_low =
      ap (bit_and x) high_mask
      ∙ and_high k x (2 ^ j - 1)
      ∙ ap (λ (t : ℕ). t * 2 ^ k) (bit_and-mask j (x / 2 ^ k) ∙ mod-eq_of_lt below)

-- The next multiple of the alignment, if no addition wraps.
align_up-eq :
    (bump k : ℕ)
    → k ≤ 64
    → bump + 2 ^ k ≤ 2 ^ 64
    → align_up bump (2 ^ k) ≡ (bump + (2 ^ k - 1)) / 2 ^ k * 2 ^ k
unfolding align_up
align_up-eq bump k h fits =
    let pos : 1 ≤ 2 ^ k = one-le-pow k 2 (omega arith) in
    let sum : 64 - k + k ≡ 64 = omega arith in
    let small : bump + (2 ^ k - 1) < 2 ^ 64 = omega arith in
    let masked : bit_and (bump + (2 ^ k - 1)) (2 ^ 64 - 1 - (2 ^ k - 1))
        ≡ (bump + (2 ^ k - 1)) / 2 ^ k * 2 ^ k =
      rw sum at (clear_low (64 - k) k (bump + (2 ^ k - 1)) (rw sum small)) in
    ap (λ (t : ℕ). bit_and t (2 ^ 64 - 1 - (2 ^ k - 1))) (mod-eq_of_lt small) ∙ masked

-- For an alignment 2 ^ k, with k up to 64, whose sum with the bump is at most 2 ^ 64, the aligned
-- offset is a multiple of the alignment, not below the bump, and less than the alignment above it.
pub align_up_bounds :
    (bump k : ℕ)
    → k ≤ 64
    → bump + 2 ^ k ≤ 2 ^ 64
    → (bump ≤ align_up bump (2 ^ k))
      × (align_up bump (2 ^ k) < bump + 2 ^ k)
      × (align_up bump (2 ^ k) % 2 ^ k ≡ 0)
align_up_bounds bump k h fits =
    let pos : 0 < 2 ^ k = one-le-pow k 2 (omega arith) in
    let x : ℕ = bump + (2 ^ k - 1) in
    rw (align_up-eq bump k h fits) (
      omega (arith, div-add-mod' x (2 ^ k), mod-lt x pos),
      omega (arith, div-add-mod' x (2 ^ k), mod-lt x pos),
      mul-mod_left (x / 2 ^ k) (2 ^ k),
    )

-- An empty chunk needs no padding.
pub align_up-zero : (k : ℕ) → k ≤ 63 → align_up 0 (2 ^ k) ≡ 0
align_up-zero k h =
    let fits : 0 + 2 ^ k ≤ 2 ^ 64 =
      omega (arith, pow-le-pow_right {n = 2} (omega arith) {i = k} {j = 64} (omega arith)) in
    let (low, high, multiple) = align_up_bounds 0 k (omega arith) fits in
    sym (mod-eq_of_lt {n = align_up 0 (2 ^ k)} {m = 2 ^ k} (omega arith)) ∙ multiple
