-- ===== src/Key/InternalKey/Laws.antt =====
-- The trailer and internal keys of crates/engine/src/key/internal_key.rs, decoded and compared.
use victory_db.Base.{
  ℕ, ◌+◌, ◌-◌, ◌*◌, ◌%◌, ◌^◌, ◌<◌, ◌≡◌, refl, ap, ap₂, ◌∙◌, some, Bytes, length, arith, cmp, u8,
  ◌>>>◌, bit_or, bit_and, bit_or-high_low, bit_and-mask, from_be, length-to_be, append-nil,
}
use victory_db.Base.{length-append, take-append, drop-append, drop-all}
use victory_db.Base.Slices.{from_be-to_be, cmp-to_be, cmp_self}
use victory_db.Key.Comparator.{
  user_part, trailer_part, trailer_order, internal_order, internal_compare,
}
use victory_db.Key.InternalKey.{
  OperationType, op_code, op_from, pack_trailer, encode_trailer, unpack_trailer_raw, unpack_trailer,
  extract_seq_no, extract_op, extract_op_raw, internal_key_ref, encode_into, internal_key,
}
use native.Mathlib.Nat.{mod-eq_of_lt}
use Prim.Native.Nat.{Ordering, compare}

pub op_code-lt : (op : OperationType) → op_code op < 256
unfolding op_code
op_code-lt OperationType.put = omega arith
op_code-lt OperationType.delete = omega arith
op_code-lt OperationType.merge = omega arith
op_code-lt OperationType.max_op = omega arith

op_from-op_code : (op : OperationType) → op_from (op_code op) ≡ some op
unfolding op_code op_from
op_from-op_code OperationType.put = refl
op_from-op_code OperationType.delete = refl
op_from-op_code OperationType.merge = refl
op_from-op_code OperationType.max_op = refl

-- With a sequence number of 56 bits the trailer is a sum.
pub pack_trailer-eq :
    (s : ℕ) (op : OperationType) → s < 2 ^ 56 → pack_trailer s op ≡ s * 256 + op_code op
unfolding pack_trailer
pack_trailer-eq s op h = ground (
  arith,
  bit_or-high_low 8 s (op_code op) (op_code-lt op),
  ap (λ (t : ℕ). bit_or t (op_code op)) (mod-eq_of_lt {n = s * 2 ^ 8} {m = 2 ^ 64} (omega arith)),
)

low_byte : (t : ℕ) → u8 (bit_and t 0xff) ≡ t % 256
low_byte t = omega (arith, bit_and-mask 8 t)

unpack_raw-pack :
    (s : ℕ) (op : OperationType)
    → s < 2 ^ 56
    → unpack_trailer_raw (pack_trailer s op) ≡ (s, op_code op)
unfolding unpack_trailer_raw
unpack_raw-pack s op h =
    ground (arith, pack_trailer-eq s op h, low_byte (pack_trailer s op), op_code-lt op)

-- For a sequence number of 56 bits, `unpack_trailer` and the three `extract` functions give back
-- the number and the operation that `pack_trailer` was given.
pub unpack_trailer-pack_trailer :
    (s : ℕ) (op : OperationType)
    → s < 2 ^ 56
    → (unpack_trailer (pack_trailer s op) ≡ some (s, op))
      × (extract_seq_no (pack_trailer s op) ≡ s)
      × (extract_op (pack_trailer s op) ≡ some op)
      × (extract_op_raw (pack_trailer s op) ≡ op_code op)
unfolding unpack_trailer extract_seq_no extract_op extract_op_raw unpack_trailer_raw
unpack_trailer-pack_trailer s op h =
    let low : u8 (bit_and (pack_trailer s op) 0xff) ≡ op_code op =
      omega (arith, low_byte (pack_trailer s op), pack_trailer-eq s op h, op_code-lt op) in
    let high : pack_trailer s op >>> 8 ≡ s = omega (arith, pack_trailer-eq s op h, op_code-lt op) in
    (ground (arith, op_from-op_code op), high, ap op_from low ∙ op_from-op_code op, low)

pack_trailer-lt : (s : ℕ) (op : OperationType) → s < 2 ^ 56 → pack_trailer s op < 256 ^ 8
pack_trailer-lt s op h = omega (arith, pack_trailer-eq s op h, op_code-lt op)

length-encode_trailer : (s : ℕ) (op : OperationType) → length (encode_trailer s op) ≡ 8
unfolding encode_trailer
length-encode_trailer s op = length-to_be 8 _

pub length-internal_key :
    (u : Bytes) (s : ℕ) (op : OperationType) → length (internal_key u s op) ≡ length u + 8
length-internal_key u s op =
    omega (arith, length-append u (encode_trailer s op), length-encode_trailer s op)

module _ (u : Bytes) (s : ℕ) (op : OperationType) where
  user_len : length u ≡ length (internal_key u s op) - 8
  user_len = omega (arith, length-internal_key u s op)

  pub user_part-internal_key : user_part (internal_key u s op) ≡ u
  user_part-internal_key = take-append _ u (encode_trailer s op) user_len

  pub trailer_part-internal_key : trailer_part (internal_key u s op) ≡ encode_trailer s op
  trailer_part-internal_key = drop-append _ u (encode_trailer s op) user_len

-- Decoding an internal key gives its user key, sequence number and operation code back, for a
-- sequence number of 56 bits.
pub internal_key_ref-internal_key :
    (u : Bytes) (s : ℕ) (op : OperationType)
    → s < 2 ^ 56
    → internal_key_ref (internal_key u s op)
      ≡ some (record { user_key = u; seq_no = s; op = op_code op })
unfolding internal_key_ref
internal_key_ref-internal_key u s op h =
    let decoded : from_be (trailer_part (internal_key u s op)) ≡ pack_trailer s op =
      ap from_be (trailer_part-internal_key u s op)
      ∙ unfold encode_trailer in from_be-to_be 8 _ (pack_trailer-lt s op h) in
    let parts : unpack_trailer_raw (from_be (trailer_part (internal_key u s op)))
        ≡ (s, op_code op) =
      ap unpack_trailer_raw decoded ∙ unpack_raw-pack s op h in
    ground (arith, length-internal_key u s op, user_part-internal_key u s op, parts)

-- `encode_into` fills a destination of the exact length with the internal key.
pub encode_into-exact :
    (dst u : Bytes) (s : ℕ) (op : OperationType)
    → length dst ≡ length u + 8
    → encode_into dst u s op ≡ some (internal_key u s op)
unfolding encode_into
encode_into-exact dst u s op e =
    ground (arith, drop-all (length u + 8) dst (omega arith), append-nil (encode_trailer s op))

-- Trailers compare as bytes the way they do as numbers.
trailer_order-numeric :
    (s t : ℕ) (op oq : OperationType)
    → s < 2 ^ 56
    → t < 2 ^ 56
    → cmp (encode_trailer s op) (encode_trailer t oq)
      ≡ compare (s * 256 + op_code op) (t * 256 + op_code oq)
unfolding encode_trailer
trailer_order-numeric s t op oq hs ht =
    cmp-to_be 8 (pack_trailer s op) (pack_trailer t oq)
    ∙ ap₂ compare (mod-eq_of_lt (pack_trailer-lt s op hs) ∙ pack_trailer-eq s op hs)
        (mod-eq_of_lt (pack_trailer-lt t oq ht) ∙ pack_trailer-eq t oq ht)

-- By the parts of the keys, with the order of the code for them.
pub internal_compare-trailer_order :
    (u v : Bytes) (s t : ℕ) (op oq : OperationType)
    → s < 2 ^ 56
    → t < 2 ^ 56
    → internal_compare (internal_key u s op) (internal_key v t oq)
      ≡ some (trailer_order (cmp u v) (compare (t * 256 + op_code oq) (s * 256 + op_code op)))
unfolding internal_compare internal_order
internal_compare-trailer_order u v s t op oq hs ht =
    let order : cmp (encode_trailer t oq) (encode_trailer s op)
        ≡ compare (t * 256 + op_code oq) (s * 256 + op_code op) =
      trailer_order-numeric t s oq op ht hs in
    ground (
      arith,
      length-internal_key u s op,
      length-internal_key v t oq,
      user_part-internal_key u s op,
      user_part-internal_key v t oq,
      trailer_part-internal_key u s op,
      trailer_part-internal_key v t oq,
      order,
    )

-- Of two encoded versions of one user key, with sequence numbers of 56 bits, the one with the larger
-- sequence number sorts first, whatever the operations.
pub internal_compare-newer :
    (u : Bytes) (s t : ℕ) (op oq : OperationType)
    → s < t
    → t < 2 ^ 56
    → internal_compare (internal_key u t op) (internal_key u s oq) ≡ some Ordering.lt
internal_compare-newer u s t op oq lt h =
    ground (
      arith,
      internal_compare-trailer_order u u t s op oq,
      cmp_self u,
      op_code-lt op,
      op_code-lt oq,
    )
