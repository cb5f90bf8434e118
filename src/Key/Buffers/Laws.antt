-- ===== src/Key/Buffers/Laws.antt =====
-- Setting and reading the key buffers of crates/engine/src/key/{iter_key, lookup_key}.rs.
use victory_db.Base.{
  ℕ, ◌+◌, ◌*◌, ◌≤◌, ◌<◌, ◌≡◌, ◌≢◌, ◌⊎◌, none, some, ◌++◌, Bytes, length, take, drop, arith,
  length-append, take-append, length-take, length-drop, length-replicate, ◌∙◌, replicate, [],
  append-nil,
}
use native.Mathlib.Decide.{dec_le}
use victory_db.Base.Run.{ok, fault}
use victory_db.Key.InternalKey.{OperationType, internal_key}
use victory_db.Key.InternalKey.Laws.{encode_into-exact, length-internal_key}
use victory_db.Key.Buffers.{
  Block, capacity, encode_prefix, write_prefix, IterKey, iter_set, iter_as_slice, LookUpKey,
  lookup_new, lookup_as_slice,
}

-- Writing as many bytes as the buffer has, or fewer, keeps the buffer's length and is read back.
write_prefix-ok :
    (dst bytes : Bytes)
    → length bytes ≤ length dst
    → write_prefix dst (length bytes) bytes ≡ ok (bytes ++ drop (length bytes) dst)
unfolding write_prefix
write_prefix-ok dst bytes h = ground arith

written_length :
    (dst bytes : Bytes)
    → length bytes ≤ length dst
    → length (bytes ++ drop (length bytes) dst) ≡ length dst
written_length dst bytes h =
    omega (arith, length-append bytes (drop (length bytes) dst), length-drop (length bytes) dst)

module _ (dst u : Bytes) (s : ℕ) (op : OperationType) (fits : length u + 8 ≤ length dst) where
  encode_prefix-ok :
      encode_prefix dst (length u + 8) u s op ≡ ok (internal_key u s op ++ drop (length u + 8) dst)
  unfolding encode_prefix
  encode_prefix-ok = ground (
    arith,
    encode_into-exact (take (length u + 8) dst) u s op
        (omega (arith, length-take (length u + 8) dst)),
    length-internal_key u s op,
    write_prefix-ok dst (internal_key u s op) (omega (arith, length-internal_key u s op)),
  )

-- An iterator key whose array has `n` bytes and whose heap block is not null.
pub record IsIter (n : ℕ) (k : IterKey) : Type 0 where
  pub array : length k.inner.inline ≡ n
  pub not_null : k.heap.addr ≢ 0

-- `k` reads as `bytes`, and can be set again.
pub record Holds (n : ℕ) (bytes : Bytes) (k : IterKey) : Type 0 where
  pub valid : IsIter n k
  pub reads : iter_as_slice k ≡ ok bytes

-- Reading back what stands in front of a buffer.
front : (n : ℕ) (bytes rest : Bytes) → length bytes ≡ n → take n (bytes ++ rest) ≡ bytes
front n bytes rest e = take-append n bytes rest e

module _ (alloc : ℕ → ℕ → Block) (n : ℕ) (k : IterKey) (is : IsIter n k) where
  module _ (u : Bytes) (s : ℕ) (op : OperationType) where
    abbrev key : Bytes
    key = internal_key u s op

    abbrev inline_result : IterKey
    inline_result = record k {
      inner = record {
        inline = key ++ drop (length u + 8) k.inner.inline;
        len = length u + 8;
        external = none;
      };
    }

    abbrev heap_result : IterKey
    heap_result = record {
      inner = record k.inner { len = length u + 8; external = some k.heap.addr };
      heap = record k.heap { mem = key ++ drop (length u + 8) k.heap.mem };
    }

    still :
        (dst : Bytes)
        → length u + 8 ≤ length dst
        → length (key ++ drop (length u + 8) dst) ≡ length dst
    still dst h = omega (
      arith,
      length-append key (drop (length u + 8) dst),
      length-drop (length u + 8) dst,
      length-internal_key u s op,
    )

    set-inline : length u + 8 ≤ n → iter_set alloc n k u s op ≡ ok inline_result
    unfolding iter_set
    set-inline h = ground (arith, is.array, encode_prefix-ok k.inner.inline u s op)

    inline-Holds : length u + 8 ≤ n → Holds n key inline_result
    unfolding iter_as_slice
    inline-Holds h = record {
      valid = record {
        array = still k.inner.inline (omega (arith, is.array)) ∙ is.array;
        not_null = is.not_null;
      };
      reads = ground (
        arith,
        is.array,
        still k.inner.inline,
        front (length u + 8) key (drop (length u + 8) k.inner.inline) (length-internal_key u s op),
      );
    }

    set-heap :
        n < length u + 8
        → length u + 8 ≤ capacity k.heap
        → iter_set alloc n k u s op ≡ ok heap_result
    unfolding iter_set
    set-heap h c = ground (arith, is.not_null, encode_prefix-ok k.heap.mem u s op)

    heap-Holds : length u + 8 ≤ capacity k.heap → Holds n key heap_result
    unfolding iter_as_slice
    heap-Holds c = record {
      valid = record { array = is.array; not_null = is.not_null };
      reads = ground (
        arith,
        still k.heap.mem,
        front (length u + 8) key (drop (length u + 8) k.heap.mem) (length-internal_key u s op),
      );
    }

  -- On an iterator key with an array of `n` bytes and a heap block that is not at null,
  -- `IterKey::set` with a key that fits the array, or the capacity of the heap buffer, succeeds;
  -- the key then reads as the encoded internal key and can be set again.
  pub iter_set-Holds :
      (u : Bytes) (s : ℕ) (op : OperationType)
      → (length u + 8 ≤ n) ⊎ (length u + 8 ≤ capacity k.heap)
      → (k' : IterKey) × (iter_set alloc n k u s op ≡ ok k') × Holds n (internal_key u s op) k'
  iter_set-Holds u s op fits = elim (dec_le (length u + 8) n) [
    | yes small ↦ (inline_result u s op, set-inline u s op small, inline-Holds u s op small)
    | no large ↦
        let roomy : length u + 8 ≤ capacity k.heap = omega arith in
        (heap_result u s op, set-heap u s op (omega arith) roomy, heap-Holds u s op roomy)
  ]

  -- On such an iterator key (an array of `n` bytes, a heap block not at null), a key that with its
  -- trailer does not fit the array and is longer than the heap buffer, by no more than the
  -- buffer's capacity, is written past the end of the buffer, whatever the allocator does.
  pub iter_set-overflow :
      (u : Bytes) (s : ℕ) (op : OperationType)
      → n < length u + 8
      → capacity k.heap < length u + 8
      → length u + 8 ≤ 2 * capacity k.heap
      → iter_set alloc n k u s op ≡ fault
  unfolding iter_set
  iter_set-overflow u s op h p q = ground arith

-- `LookUpKey::new` succeeds on every key, for a buffer that is not at null, and the key reads as
-- the encoded internal key.
pub lookup_new-reads :
    (addr n : ℕ) (u : Bytes) (s : ℕ) (op : OperationType)
    → addr ≢ 0
    → (k : LookUpKey) × (lookup_new addr n u s op ≡ ok k)
      × (lookup_as_slice k ≡ ok (internal_key u s op))
unfolding lookup_new lookup_as_slice
lookup_new-reads addr n u s op ne = elim (dec_le (length u + 8) n) [
  | yes small ↦ (
    record {
      inner = record {
        inline = internal_key u s op ++ drop (length u + 8) (replicate n 0);
        len = length u + 8;
        external = none;
      };
      buffer = none;
    },
    ground (arith, length-replicate {A = ℕ} n 0, encode_prefix-ok (replicate n 0) u s op),
    ground (
      arith,
      length-internal_key u s op,
      length-append (internal_key u s op) (drop (length u + 8) (replicate n 0)),
      front (length u + 8) (internal_key u s op) (drop (length u + 8) (replicate n 0)),
    ),
  )
  | no large ↦ (
    record {
      inner = record { inline = replicate n 0; len = length u + 8; external = some addr };
      buffer = some (record { addr = addr; mem = internal_key u s op });
    },
    ground arith,
    ground (
      arith,
      length-internal_key u s op,
      take-append (length u + 8) (internal_key u s op) [],
      append-nil (internal_key u s op),
    ),
  )
]
