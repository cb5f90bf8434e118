-- ===== src/Key/Comparator/Laws.antt =====
-- The comparators of crates/engine/src/key/comparator.rs as orders.
use victory_db.Base.{◌≤◌, ◌≡◌, Bytes, length, arith, cmp}
use victory_db.Base.Slices.{reversed, cmp-swap, eq_of_cmp, cmp-lt_trans}
use victory_db.Key.Comparator.{
  default_compare, default_comparator, internal_order, internal_compare, internal_comparator,
  user_part, trailer_part, IsLawful,
}
use Prim.Native.Nat.{Ordering}

-- The keys of an internal comparator hold a trailer.
abbrev pub HasTrailer : Bytes → Type 0
HasTrailer a = 8 ≤ length a

abbrev pub AnyKey : Bytes → Type 0
AnyKey a = Unit {0}

cmp-le_lt_trans :
    (a b c : Bytes) → (cmp b a ≡ Ordering.lt → ⊥) → cmp b c ≡ Ordering.lt → cmp a c ≡ Ordering.lt
cmp-le_lt_trans a b c h k = ground (arith, cmp-swap a b, eq_of_cmp a b, cmp-lt_trans a b c)

-- The default comparator returns on all slices, is asymmetric, and a slice that is not above one that
-- is less than a third is less than the third as well.
pub default-IsLawful : IsLawful default_comparator AnyKey
unfolding default_compare
default-IsLawful = record {
  returns = λ a b va vb e. cc;
  asym = λ a b va vb h. ground (arith, cmp-swap a b);
  le_lt_trans = λ a b k va vb vk h l. ground (arith, cmp-le_lt_trans a b k);
}

internal_order-swap : (a b : Bytes) → internal_order b a ≡ reversed (internal_order a b)
unfolding internal_order
internal_order-swap a b =
    ground (arith, cmp-swap (user_part a) (user_part b), cmp-swap (trailer_part b) (trailer_part a))

internal_order_trans :
    (a b k : Bytes)
    → (internal_order b a ≡ Ordering.lt → ⊥)
    → internal_order b k ≡ Ordering.lt
    → internal_order a k ≡ Ordering.lt
unfolding internal_order
internal_order_trans a b k h l = ground (
  arith,
  cmp-swap (user_part a) (user_part b),
  eq_of_cmp (user_part a) (user_part b),
  eq_of_cmp (user_part b) (user_part k),
  cmp-lt_trans (user_part a) (user_part b) (user_part k),
  cmp-swap (trailer_part a) (trailer_part b),
  eq_of_cmp (trailer_part a) (trailer_part b),
  cmp-lt_trans (trailer_part k) (trailer_part b) (trailer_part a),
)

-- On slices of at least eight bytes the internal comparator returns, is asymmetric, and a slice
-- that is not above one that is less than a third is less than the third as well.
pub internal-IsLawful : IsLawful internal_comparator HasTrailer
unfolding internal_compare
internal-IsLawful = record {
  returns = λ a b va vb. ground arith;
  asym = λ a b va vb h. ground (arith, internal_order-swap a b);
  le_lt_trans = λ a b k va vb vk h l. ground (arith, internal_order_trans a b k);
}
