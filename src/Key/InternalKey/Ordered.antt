-- ===== src/Key/InternalKey/Ordered.antt =====
-- The order of internal keys (crates/engine/src/key/internal_key.rs, comparator.rs) by their parts.
use victory_db.Base.{ℕ, ◌^◌, ◌*◌, ◌+◌, ◌<◌, ◌≡◌, refl, some, Bytes, arith, cmp}
use victory_db.Base.Slices.{eq_of_cmp}
use victory_db.Key.Comparator.{trailer_order, internal_compare}
use victory_db.Key.InternalKey.{OperationType, op_code, internal_key}
use victory_db.Key.InternalKey.Laws.{op_code-lt, internal_compare-trailer_order}
use native.Mathlib.Decide.{dec_lt}
use Prim.Native.Nat.{Ordering, compare}

-- How the key of user key `u`, number `s` and operation `op` stands to that of `v`, `t` and `oq`: by
-- user key, then the larger number first, then the larger operation code first.
pub data Stands (u v : Bytes) (s t : ℕ) (op oq : OperationType) : Ordering → Type 0 where
  key_before : cmp u v ≡ Ordering.lt → Stands u v s t op oq Ordering.lt
  key_after : cmp u v ≡ Ordering.gt → Stands u v s t op oq Ordering.gt
  newer : u ≡ v → t < s → Stands u v s t op oq Ordering.lt
  older : u ≡ v → s < t → Stands u v s t op oq Ordering.gt
  code_above : u ≡ v → s ≡ t → op_code oq < op_code op → Stands u v s t op oq Ordering.lt
  code_below : u ≡ v → s ≡ t → op_code op < op_code oq → Stands u v s t op oq Ordering.gt
  same : u ≡ v → s ≡ t → op_code op ≡ op_code oq → Stands u v s t op oq Ordering.eq

-- The order of the trailers as numbers.
trailer-Stands :
    (u v : Bytes) (s t : ℕ) (op oq : OperationType) (o : Ordering)
    → u ≡ v
    → op_code op < 256
    → op_code oq < 256
    → compare (t * 256 + op_code oq) (s * 256 + op_code op) ≡ o
    → Stands u v s t op oq o
trailer-Stands u v s t op oq Ordering.lt e small small' c = elim (dec_lt t s) [
  | yes l ↦ newer e l
  | no g ↦ code_above e (ground (arith, c)) (ground (arith, c))
]
trailer-Stands u v s t op oq Ordering.gt e small small' c = elim (dec_lt s t) [
  | yes l ↦ older e l
  | no g ↦ code_below e (ground (arith, c)) (ground (arith, c))
]
trailer-Stands u v s t op oq Ordering.eq e small small' c =
    same e (ground (arith, c)) (ground (arith, c))

parts-Stands :
    (u v : Bytes) (s t : ℕ) (op oq : OperationType) (o : Ordering)
    → cmp u v ≡ o
    → op_code op < 256
    → op_code oq < 256
    → Stands u v s t op oq (trailer_order o (compare (t * 256 + op_code oq) (s * 256 + op_code op)))
parts-Stands u v s t op oq Ordering.lt e small small' = key_before e
parts-Stands u v s t op oq Ordering.gt e small small' = key_after e
parts-Stands u v s t op oq Ordering.eq e small small' =
    trailer-Stands u v s t op oq (compare (t * 256 + op_code oq) (s * 256 + op_code op))
      (eq_of_cmp u v e) small small' refl

-- The internal comparator orders encoded keys, with sequence numbers of 56 bits, by user key as
-- slices compare, those of one user key by falling sequence number, and those of one number by
-- falling operation code; they are equal where all three are.
pub internal_compare-internal_key :
    (u v : Bytes) (s t : ℕ) (op oq : OperationType)
    → s < 2 ^ 56
    → t < 2 ^ 56
    → (o : Ordering) × (internal_compare (internal_key u s op) (internal_key v t oq) ≡ some o)
      × Stands u v s t op oq o
internal_compare-internal_key u v s t op oq hs ht = (
  trailer_order (cmp u v) (compare (t * 256 + op_code oq) (s * 256 + op_code op)),
  internal_compare-trailer_order u v s t op oq hs ht,
  parts-Stands u v s t op oq (cmp u v) refl (op_code-lt op) (op_code-lt oq),
)
