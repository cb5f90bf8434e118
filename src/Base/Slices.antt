-- ===== src/Base/Slices.antt =====
-- Byte strings: the order of slices, and integers as big-endian and little-endian bytes.
use Prim.Native.Nat.{ℕ, zero, suc, ◌+◌, ◌*◌, ◌/◌, ◌%◌, ◌^◌, ◌<◌, compare, Ordering}
use mathlib.Core.Path.{◌≡◌, refl, ap, ◌∙◌}
use mathlib.Core.List.{List, [], ◌∷◌}
use native.Mathlib.Omega.{arith}
use native.Mathlib.Nat.{
  pow-suc, one-le-pow, mod-lt, mod-eq_of_lt, div-add-mod', add-mul-mod_self_right,
}
use victory_db.Base.Lists.{length, All}
use victory_db.Base.Bits.{IsU8}

abbrev pub Bytes : Type 0
Bytes = List ℕ

abbrev pub AreBytes : Bytes → Type 0
AreBytes = All IsU8

-- `a.cmp(b)` on `&[u8]`: lexicographic, a prefix is smaller.
unfoldable pub cmp : Bytes → Bytes → Ordering
cmp [] [] = Ordering.eq
cmp [] (y ∷ ys) = Ordering.lt
cmp (x ∷ xs) [] = Ordering.gt
cmp (x ∷ xs) (y ∷ ys) = elim (compare x y) [
  | Ordering.lt ↦ Ordering.lt
  | Ordering.gt ↦ Ordering.gt
  | _ ↦ cmp xs ys
]

abbrev pub reversed : Ordering → Ordering
reversed Ordering.lt = Ordering.gt
reversed Ordering.eq = Ordering.eq
reversed Ordering.gt = Ordering.lt

pub cmp-swap : (a b : Bytes) → cmp b a ≡ reversed (cmp a b)
unfolding cmp
cmp-swap [] [] = refl
cmp-swap [] (y ∷ ys) = refl
cmp-swap (x ∷ xs) [] = refl
cmp-swap (x ∷ xs) (y ∷ ys) = ground (arith, cmp-swap xs ys)

pub cmp_self : (a : Bytes) → cmp a a ≡ Ordering.eq
unfolding cmp
cmp_self [] = refl
cmp_self (x ∷ xs) = ground (arith, cmp_self xs)

-- Slices that compare equal are equal.
pub eq_of_cmp : (a b : Bytes) → cmp a b ≡ Ordering.eq → a ≡ b
unfolding cmp
eq_of_cmp [] [] h = refl
eq_of_cmp [] (y ∷ ys) h = cc
eq_of_cmp (x ∷ xs) [] h = cc
eq_of_cmp (x ∷ xs) (y ∷ ys) h = ground (arith, eq_of_cmp xs ys)

pub cmp-lt_trans :
    (a b c : Bytes) → cmp a b ≡ Ordering.lt → cmp b c ≡ Ordering.lt → cmp a c ≡ Ordering.lt
unfolding cmp
cmp-lt_trans [] [] c h k = cc
cmp-lt_trans [] (y ∷ ys) [] h k = cc
cmp-lt_trans [] (y ∷ ys) (z ∷ zs) h k = refl
cmp-lt_trans (x ∷ xs) [] c h k = cc
cmp-lt_trans (x ∷ xs) (y ∷ ys) [] h k = cc
cmp-lt_trans (x ∷ xs) (y ∷ ys) (z ∷ zs) h k = ground (arith, cmp-lt_trans xs ys zs)

-- `to_be_bytes` of an integer of `n` bytes, and `from_be_bytes`.
unfoldable pub to_be : ℕ → ℕ → Bytes
to_be zero x = []
to_be (suc n) x = (x / 256 ^ n % 256) ∷ to_be n x

unfoldable pub from_be_from : ℕ → Bytes → ℕ
from_be_from acc [] = acc
from_be_from acc (b ∷ bs) = from_be_from (acc * 256 + b) bs

unfoldable pub from_be : Bytes → ℕ
unfolding from_be_from
from_be bs = from_be_from 0 bs

-- `to_le_bytes` and `from_le_bytes`.
unfoldable pub to_le : ℕ → ℕ → Bytes
to_le zero x = []
to_le (suc n) x = (x % 256) ∷ to_le n (x / 256)

unfoldable pub from_le : Bytes → ℕ
from_le [] = 0
from_le (b ∷ bs) = b + 256 * from_le bs

pub length-to_be : (n x : ℕ) → length (to_be n x) ≡ n
unfolding to_be
length-to_be zero x = refl
length-to_be (suc n) x = ap suc (length-to_be n x)

pub length-to_le : (n x : ℕ) → length (to_le n x) ≡ n
unfolding to_le
length-to_le zero x = refl
length-to_le (suc n) x = ap suc (length-to_le n (x / 256))

pub to_be-AreBytes : (n x : ℕ) → AreBytes (to_be n x)
unfolding to_be
to_be-AreBytes zero x = tt
to_be-AreBytes (suc n) x = (omega arith, to_be-AreBytes n x)

pub to_le-AreBytes : (n x : ℕ) → AreBytes (to_le n x)
unfolding to_le
to_le-AreBytes zero x = tt
to_le-AreBytes (suc n) x = (omega arith, to_le-AreBytes n (x / 256))

-- The first of `n + 1` digits and the others.
split_digit : (p x : ℕ) → 0 < p → x % (p * 256) ≡ x / p % 256 * p + x % p
split_digit p x h =
    let r : ℕ = x / p % 256 * p + x % p in
    let small : r < p * 256 = grind (arith, mod-lt x h) in
    let sum : x ≡ r + x / p / 256 * (p * 256) =
      omega (arith, div-add-mod' x p, ap (λ (t : ℕ). t * p) (div-add-mod' (x / p) 256)) in
    ap (λ (t : ℕ). t % (p * 256)) sum
    ∙ add-mul-mod_self_right r (x / p / 256) (p * 256)
    ∙ mod-eq_of_lt small

from_be_from-to_be : (n acc x : ℕ) → from_be_from acc (to_be n x) ≡ acc * 256 ^ n + x % 256 ^ n
unfolding to_be from_be_from
from_be_from-to_be zero acc x = omega arith
from_be_from-to_be (suc n) acc x = omega (
  arith,
  from_be_from-to_be n (acc * 256 + x / 256 ^ n % 256) x,
  split_digit (256 ^ n) x (one-le-pow n 256 (omega arith)),
  pow-suc 256 n,
  ap (λ (t : ℕ). acc * t) (pow-suc 256 n),
  ap (λ (t : ℕ). x % t) (pow-suc 256 n),
)

pub from_be-to_be : (n x : ℕ) → x < 256 ^ n → from_be (to_be n x) ≡ x
unfolding from_be
from_be-to_be n x h = ground (arith, from_be_from-to_be n 0 x, mod-eq_of_lt h)

pub from_le-to_le : (n x : ℕ) → x < 256 ^ n → from_le (to_le n x) ≡ x
unfolding to_le from_le
from_le-to_le zero x h = omega arith
from_le-to_le (suc n) x h =
    omega (arith, pow-suc 256 n, from_le-to_le n (x / 256) (omega (arith, pow-suc 256 n)))

-- The first digit decides, then the others.
digit_lt : (p a b r s : ℕ) → r < p → a < b → a * p + r < b * p + s
digit_lt p a b r s h k = grind arith

compare_digits :
    (p a b r s : ℕ)
    → r < p
    → s < p
    → compare (a * p + r) (b * p + s) ≡ elim (compare a b) [
      | Ordering.lt ↦ Ordering.lt
      | Ordering.gt ↦ Ordering.gt
      | _ ↦ compare r s
    ]
compare_digits p a b r s h k = ground (arith, digit_lt p a b r s h, digit_lt p b a s r k)

-- Big-endian bytes of one width compare as the numbers do.
pub cmp-to_be : (n x y : ℕ) → cmp (to_be n x) (to_be n y) ≡ compare (x % 256 ^ n) (y % 256 ^ n)
unfolding to_be cmp
cmp-to_be zero x y = ground arith
cmp-to_be (suc n) x y =
    let p = one-le-pow n 256 (omega arith) in
    rw
      (
        pow-suc 256 n,
        split_digit (256 ^ n) x p,
        split_digit (256 ^ n) y p,
        compare_digits (256 ^ n) (x / 256 ^ n % 256) (y / 256 ^ n % 256) _ _ (mod-lt x p)
            (mod-lt y p),
      )
      (ground (arith, cmp-to_be n x y))
