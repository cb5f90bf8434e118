-- ===== src/Key/Comparator.antt =====
-- crates/engine/src/key/comparator.rs. A comparison that would panic (`split_at` on a slice of less
-- than eight bytes) is `none`.
pub mod Laws
use victory_db.Base.{
  ℕ, ◌-◌, ◌≡◌, ◌≢◌, Bool, true, false, Option, none, some, Bytes, cmp, length, take, drop, ltb,
  if◌then◌else◌,
}
use Prim.Native.Nat.{Ordering}

-- `trait Comparator`
pub record Comparator : Type 0 where
  pub compare : Bytes → Bytes → Option Ordering

-- `a.split_at(a.len() - 8)`: the user key and the trailer
abbrev pub user_part : Bytes → Bytes
user_part a = take (length a - 8) a

abbrev pub trailer_part : Bytes → Bytes
trailer_part a = drop (length a - 8) a

unfoldable pub default_compare : Bytes → Bytes → Option Ordering
default_compare a b = some (cmp a b)

abbrev pub default_comparator : Comparator
default_comparator = record { compare = default_compare }

-- Equal user keys are ordered by the trailers the other way round.
abbrev pub trailer_order : Ordering → Ordering → Ordering
trailer_order Ordering.eq o = o
trailer_order Ordering.lt o = Ordering.lt
trailer_order Ordering.gt o = Ordering.gt

unfoldable pub internal_order : Bytes → Bytes → Ordering
internal_order a b =
    trailer_order (cmp (user_part a) (user_part b)) (cmp (trailer_part b) (trailer_part a))

unfoldable pub internal_compare : Bytes → Bytes → Option Ordering
internal_compare a b =
    if ltb (length a) 8
    then none
    else (if ltb (length b) 8 then none else some (internal_order a b))

abbrev pub internal_comparator : Comparator
internal_comparator = record { compare = internal_compare }

-- What a sorted container asks of a comparator on the keys it holds: it returns, and the test
-- `compare a b == Less` is asymmetric and carried along by keys that are not greater.
abbrev pub is_less : Option Ordering → Bool
is_less (some Ordering.lt) = true
is_less (some Ordering.eq) = false
is_less (some Ordering.gt) = false
is_less none = false

abbrev pub less : Comparator → Bytes → Bytes → Bool
less c a b = is_less (c.compare a b)

pub record IsLawful (c : Comparator) (Valid : Bytes → Type 0) : Type 0 where
  pub returns : (a b : Bytes) → Valid a → Valid b → c.compare a b ≢ none
  pub asym : (a b : Bytes) → Valid a → Valid b → less c a b ≡ true → less c b a ≡ false
  pub le_lt_trans :
      (a b k : Bytes)
      → Valid a
      → Valid b
      → Valid k
      → less c b a ≡ false
      → less c b k ≡ true
      → less c a k ≡ true
