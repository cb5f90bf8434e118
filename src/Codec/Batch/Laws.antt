-- ===== src/Codec/Batch/Laws.antt =====
-- A batch (crates/engine/src/db/write_batch.rs) against the list of the puts that it was given.
use victory_db.Base.{
  ℕ, ◌+◌, ◌^◌, ◌<◌, ◌≡◌, refl, sym, ap, ap₂, ◌∙◌, false, List, [], ◌∷◌, ◌++◌, append_assoc,
  append-nil, Bytes, length, replicate, arith, to_le, length-append, length-to_le, take-append,
  drop-append,
}
use victory_db.Base.Run.{ok}
use victory_db.Base.Slices.{from_le-to_le}
use victory_db.Codec.Memory.{read_u32_le, write_u32_le}
use victory_db.Codec.VarInt
use victory_db.Codec.VarInt.Laws.{groups, new-groups}
use victory_db.Codec.Batch.{
  Batch, new, max_batch_size, var_string, increment_count, put_bytes, batch_count, is_empty,
}
use native.Mathlib.Nat.{mod-eq_of_lt}

abbrev pub Put : Type 0
Put = Bytes × Bytes

-- Keys and values whose length a variable-length integer can hold.
abbrev pub Fits : Put → Type 0
Fits (key, value) = (length key < 2 ^ 28) × (length value < 2 ^ 28)

abbrev pub string_bytes : Bytes → Bytes
string_bytes bytes = VarInt.as_slice (groups (length bytes)) ++ bytes

-- One operation as the file's header describes it: type, column family, key and value.
abbrev pub put_encoding : Put → Bytes
put_encoding (key, value) = 1 ∷ (to_le 4 0 ++ (string_bytes key ++ string_bytes value))

abbrev pub encodings : List Put → Bytes
encodings [] = []
encodings (p ∷ ps) = put_encoding p ++ encodings ps

encodings-append : (ps qs : List Put) → encodings (ps ++ qs) ≡ encodings ps ++ encodings qs
encodings-append [] qs = refl
encodings-append (p ∷ ps) qs = rw (encodings-append ps qs) (sym (append_assoc (put_encoding p) _ _))

-- A sequence number of zero, the count, and the operations in order.
abbrev pub layout : List Put → Bytes
layout ps = replicate 8 0 ++ (to_le 4 (length ps) ++ encodings ps)

pub record IsBatch (b : Batch) (ps : List Put) : Type 0 where
  pub bytes : b.data_bytes ≡ layout ps
  pub limit : b.max_bytes ≡ max_batch_size
  pub few : length ps < 2 ^ 32

pub new-IsBatch : IsBatch new []
unfolding new to_le
new-IsBatch = record { bytes = refl; limit = refl; few = omega arith }

var_string-ok : (s : Bytes) → length s < 2 ^ 28 → var_string s ≡ ok (string_bytes s)
unfolding var_string
var_string-ok s h =
    ground (arith, new-groups (length s), mod-eq_of_lt {n = length s} {m = 2 ^ 32} (omega arith))

abbrev counted : Bytes → Bytes → ℕ → Bytes
counted header rest k = header ++ (to_le 4 k ++ rest)

module _ (header rest : Bytes) (n : ℕ) (eight : length header ≡ 8) where
  length-counted : (k : ℕ) → length (counted header rest k) ≡ 12 + length rest
  length-counted k = omega (
    arith,
    length-append header (to_le 4 k ++ rest),
    length-append (to_le 4 k) rest,
    length-to_le 4 k,
  )

  pub read_count : n < 2 ^ 32 → read_u32_le (counted header rest n) 8 ≡ ok n
  unfolding read_u32_le
  read_count small = ground (
    arith,
    length-counted n,
    drop-append 8 header (to_le 4 n ++ rest) eight,
    take-append 4 (to_le 4 n) rest (length-to_le 4 n),
    from_le-to_le 4 n small,
  )

  write_count : write_u32_le (counted header rest n) 8 (n + 1) ≡ ok (counted header rest (n + 1))
  unfolding write_u32_le
  write_count = ground (
    arith,
    length-counted n,
    length-to_le 4 (n + 1),
    take-append 8 header (to_le 4 n ++ rest) eight,
    append_assoc header (to_le 4 n) rest,
    drop-append 12 (header ++ to_le 4 n) rest
        (omega (arith, length-append header (to_le 4 n), length-to_le 4 n)),
  )

  increment_count-ok :
      n + 1 < 2 ^ 32 → increment_count (counted header rest n) ≡ ok (counted header rest (n + 1))
  unfolding increment_count
  increment_count-ok small =
      ground (arith, length-counted n, read_count (omega arith), write_count, mod-eq_of_lt small)

abbrev zeros : Bytes
zeros = replicate 8 0

layout-append :
    (ps : List Put) (op : Bytes) → layout ps ++ op ≡ counted zeros (encodings ps ++ op) (length ps)
layout-append ps op =
    append_assoc zeros _ op
    ∙ ap (λ t. zeros ++ t) (append_assoc (to_le 4 (length ps)) (encodings ps) op)

layout_snoc :
    (ps : List Put) (p : Put)
    → layout (ps ++ (p ∷ [])) ≡ counted zeros (encodings ps ++ put_encoding p) (length ps + 1)
layout_snoc ps p =
    ap₂ (λ (k : ℕ) (t : Bytes). counted zeros t k) (length-append ps (p ∷ []))
      (encodings-append ps (p ∷ []) ∙ ap (λ t. encodings ps ++ t) (append-nil (put_encoding p)))

put_bytes_steps :
    (b : Batch) (p : Put)
    → Fits p
    → (bytes : Bytes) → increment_count (b.data_bytes ++ put_encoding p) ≡ ok bytes
    → put_bytes b p.0 p.1 ≡ ok (record b { data_bytes = bytes })
unfolding put_bytes
put_bytes_steps b p fits bytes e = rw (var_string-ok p.0 fits.0, var_string-ok p.1 fits.1) (rw e)

-- `Batch::put` on a batch of the puts `ps`, with a key and a value below 2 ^ 28 bytes and room in
-- the count, returns the batch of `ps` followed by the new put.
pub put_bytes-IsBatch :
    (b : Batch) (ps : List Put) (p : Put)
    → IsBatch b ps
    → Fits p
    → length ps + 1 < 2 ^ 32
    → (b' : Batch) × (put_bytes b p.0 p.1 ≡ ok b') × IsBatch b' (ps ++ (p ∷ []))
put_bytes-IsBatch b ps p is fits small =
    let op = put_encoding p in
    let grown : b.data_bytes ++ op ≡ counted zeros (encodings ps ++ op) (length ps) =
      ap (λ t. t ++ op) is.bytes ∙ layout-append ps op in
    let more : counted zeros (encodings ps ++ op) (length ps + 1) ≡ layout (ps ++ (p ∷ [])) =
      sym (layout_snoc ps p) in
    (
      record b { data_bytes = layout (ps ++ (p ∷ [])) },
      put_bytes_steps b p fits (layout (ps ++ (p ∷ []))) (
          ap increment_count grown
          ∙ increment_count-ok zeros (encodings ps ++ op) (length ps) refl small
          ∙ ap ok more),
      record { bytes = refl; limit = is.limit; few = omega (arith, length-append ps (p ∷ [])) },
    )

-- `Batch::batch_count` of a batch of fewer than 2 ^ 32 puts is the number of its puts.
pub batch_count-IsBatch :
    (b : Batch) (ps : List Put) → IsBatch b ps → batch_count b ≡ ok (length ps)
unfolding batch_count
batch_count-IsBatch b ps is = rw is.bytes (
    ground (
      arith,
      length-counted zeros (encodings ps) (length ps) refl (length ps),
      read_count zeros (encodings ps) (length ps) refl is.few,
    ))

-- `Batch::is_empty` is false of every batch of puts, also of the batch of none.
pub is_empty-IsBatch : (b : Batch) (ps : List Put) → IsBatch b ps → is_empty b ≡ false
unfolding is_empty
is_empty-IsBatch b ps is = rw is.bytes (ground arith)
