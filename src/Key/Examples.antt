-- ===== src/Key/Examples.antt =====
-- The keys of crates/engine/src/key/ at work.
use victory_db.Base.{ℕ, ◌≡◌, inl, refl, none, some, [], ◌∷◌, Bytes, arith, replicate, to_be}
use victory_db.Base.Run.{ok, fault}
use victory_db.Key.Comparator.{internal_compare}
use victory_db.Key.InternalKey.Ordered.{Stands, internal_compare-internal_key}
use victory_db.Key.InternalKey.{
  put, delete, op_code, pack_trailer, unpack_trailer, extract_seq_no, extract_op, extract_op_raw,
  internal_key_ref, internal_key, encode_trailer,
}
use victory_db.Key.InternalKey.Laws.{
  unpack_trailer-pack_trailer, internal_key_ref-internal_key, internal_compare-newer,
}
use victory_db.Key.Buffers.{Block, IterKey, iter_set}
use victory_db.Key.Buffers.Laws.{IsIter, Holds, iter_set-Holds, iter_set-overflow}
use Prim.Native.Nat.{Ordering}

abbrev user_key : Bytes
user_key = 107 ∷ 101 ∷ 121 ∷ []

abbrev long_key : Bytes
long_key = replicate 40 7

abbrev block : Block
block = record { addr = 4096; mem = replicate 40 0 }

abbrev iter_key : IterKey
iter_key = record {
  inner = record { inline = replicate 39 0; len = 0; external = none };
  heap = block;
}

abbrev never_moves : ℕ → ℕ → Block
never_moves old size = block

iter_key-IsIter : IsIter 39 iter_key
iter_key-IsIter = record { array = refl; not_null = omega arith }

encode_trailer_works : encode_trailer 5 delete ≡ 0 ∷ 0 ∷ 0 ∷ 0 ∷ 0 ∷ 0 ∷ 5 ∷ 2 ∷ []
unfolding encode_trailer pack_trailer op_code to_be
encode_trailer_works = refl

-- A slice below the trailer's length is refused.
short_slice : internal_key_ref user_key ≡ none
unfolding internal_key_ref
short_slice = refl

unpack_trailer-pack_trailer_example :
    (unpack_trailer (pack_trailer 42 delete) ≡ some (42, delete))
    × (extract_seq_no (pack_trailer 42 delete) ≡ 42)
    × (extract_op (pack_trailer 42 delete) ≡ some delete)
    × (extract_op_raw (pack_trailer 42 delete) ≡ op_code delete)
unpack_trailer-pack_trailer_example = unpack_trailer-pack_trailer 42 delete (omega arith)

internal_key_ref-internal_key_example :
    internal_key_ref (internal_key user_key 42 put)
    ≡ some (record { user_key = user_key; seq_no = 42; op = op_code put })
internal_key_ref-internal_key_example = internal_key_ref-internal_key user_key 42 put (omega arith)

internal_compare-internal_key_example :
    (o : Ordering) × (internal_compare
        (internal_key user_key 7 put)
        (internal_key long_key 9 delete)
      ≡ some o)
    × Stands user_key long_key 7 9 put delete o
internal_compare-internal_key_example =
    internal_compare-internal_key user_key long_key 7 9 put delete (omega arith) (omega arith)

internal_compare-newer_example :
    internal_compare (internal_key user_key 8 delete) (internal_key user_key 7 put)
    ≡ some Ordering.lt
internal_compare-newer_example =
    internal_compare-newer user_key 7 8 delete put (omega arith) (omega arith)

iter_set-Holds_example :
    (k' : IterKey) × (iter_set never_moves 39 iter_key user_key 42 put ≡ ok k')
    × Holds 39 (internal_key user_key 42 put) k'
iter_set-Holds_example =
    iter_set-Holds never_moves 39 iter_key iter_key-IsIter user_key 42 put (inl (omega arith))

-- The array has 39 bytes, the heap 40, and the key takes 48.
iter_set-overflow_example : iter_set never_moves 39 iter_key long_key 42 put ≡ fault
iter_set-overflow_example =
    iter_set-overflow never_moves 39 iter_key iter_key-IsIter long_key 42 put (omega arith)
      (omega arith) (omega arith)
