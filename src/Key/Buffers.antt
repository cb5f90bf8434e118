-- ===== src/Key/Buffers.antt =====
-- crates/engine/src/key/{inner_key, iter_key, lookup_key}.rs: keys held inline or on the heap.
-- Heap memory is a block at an address. What the allocator returns is an argument: `alloc c n` is
-- the block that replaces one of capacity `c` when `n` bytes are required.
pub mod Laws
use victory_db.Base.{
  ℕ, ◌+◌, ◌-◌, ◌*◌, ◌≤◌, ◌≡◌, Option, none, some, ◌++◌, Bytes, length, take, drop, replicate, leb,
  ltb, ◌==◌, if◌then◌else◌,
}
use victory_db.Base.Run.{Run, ok, panic, fault, ◌>>=◌}
use victory_db.Key.InternalKey.{OperationType, encode_into, internal_key, encode_trailer}

pub record Block : Type 0 where
  pub addr : ℕ
  pub mem : Bytes

abbrev pub capacity : Block → ℕ
capacity b = length b.mem

-- `Vec::reserve` on a vector of length `len`: nothing to do if `additional` more bytes fit.
unfoldable pub reserve : (ℕ → ℕ → Block) → Block → ℕ → ℕ → Block
reserve alloc b len additional =
    if leb (len + additional) (capacity b) then b else alloc (capacity b) (len + additional)

-- `InnerKey<N>`: the array has `N` bytes; `external` is a raw pointer to a buffer of the owner.
pub record InnerKey : Type 0 where
  pub inline : Bytes
  pub len : ℕ
  pub external : Option ℕ

unfoldable pub inner_new : ℕ → InnerKey
inner_new n = record { inline = replicate n 0; len = 0; external = none }

unfoldable pub set_inline : InnerKey → ℕ → InnerKey
set_inline k n = record k { len = n; external = none }

-- `NonNull::new(ptr).unwrap()`: null is address 0.
unfoldable pub set_external : InnerKey → ℕ → ℕ → Run InnerKey
set_external k n ptr = if ptr == 0 then panic else ok (record k { len = n; external = some ptr })

-- The slice `&mut dst[..n]` is written in place; a length beyond the buffer panics.
unfoldable pub write_prefix : Bytes → ℕ → Bytes → Run Bytes
write_prefix dst n bytes =
    if ltb (length dst) n
    then panic
    else (if length bytes == n then ok (bytes ++ drop n dst) else panic)

unfoldable pub encode_prefix : Bytes → ℕ → Bytes → ℕ → OperationType → Run Bytes
encode_prefix dst n user_key seq_no op =
    if ltb (length dst) n then panic else elim (encode_into (take n dst) user_key seq_no op) [
      | none ↦ panic
      | some bytes ↦ write_prefix dst n bytes
    ]

unfoldable pub encode_inline : InnerKey → Bytes → ℕ → OperationType → Run InnerKey
unfolding encode_prefix write_prefix set_inline
encode_inline k user_key seq_no op = do
  let total = length user_key + 8
  let k' = set_inline k total
  bytes ← encode_prefix k'.inline total user_key seq_no op
  ok (record k' { inline = bytes })

unfoldable pub encode_inline_from_slice : InnerKey → Bytes → Run InnerKey
unfolding write_prefix set_inline
encode_inline_from_slice k slice = do
  let k' = set_inline k (length slice)
  bytes ← write_prefix k'.inline (length slice) slice
  ok (record k' { inline = bytes })

-- A raw pointer reads the block that stands at its address; any other address is dangling.
unfoldable pub as_slice : InnerKey → Block → Run Bytes
as_slice k owned = elim k.external [
  | some ptr ↦
      if ptr == owned.addr
      then (if leb k.len (capacity owned) then ok (take k.len owned.mem) else fault)
      else fault
  | none ↦ if leb k.len (length k.inline) then ok (take k.len k.inline) else panic
]

-- `IterKey<N>`: the capacity of `heap` is that of its block, its length plays no part in reads.
pub record IterKey : Type 0 where
  pub inner : InnerKey
  pub heap : Block

unfoldable pub iter_new : ℕ → Block → IterKey
unfolding inner_new
iter_new n heap = record { inner = inner_new n; heap = heap }

-- `heap.clear()`, then `heap.reserve(total - heap.capacity())` if the capacity is below `total`.
unfoldable pub grow_heap : (ℕ → ℕ → Block) → Block → ℕ → Block
unfolding reserve
grow_heap alloc heap total =
    if ltb (capacity heap) total then reserve alloc heap 0 (total - capacity heap) else heap

-- `heap.set_len(total)` with `total` above the capacity is undefined behaviour.
unfoldable pub iter_set : (ℕ → ℕ → Block) → ℕ → IterKey → Bytes → ℕ → OperationType → Run IterKey
unfolding encode_inline grow_heap set_external encode_prefix write_prefix
iter_set alloc n k user_key seq_no op =
    let total = length user_key + 8 in
    let heap = grow_heap alloc k.heap total in
    if leb total n
    then (do inner ← encode_inline k.inner user_key seq_no op; ok (record k { inner = inner }))
    else (if ltb (capacity heap) total then fault else (do
      inner ← set_external k.inner total heap.addr
      bytes ← encode_prefix heap.mem total user_key seq_no op
      ok (record { inner = inner; heap = record heap { mem = bytes } })))

unfoldable pub iter_set_from_slice : (ℕ → ℕ → Block) → ℕ → IterKey → Bytes → Run IterKey
unfolding encode_inline_from_slice grow_heap set_external write_prefix
iter_set_from_slice alloc n k slice =
    let heap = grow_heap alloc k.heap (length slice) in
    if leb (length slice) n
    then (do inner ← encode_inline_from_slice k.inner slice; ok (record k { inner = inner }))
    else (if ltb (capacity heap) (length slice) then fault else (do
      inner ← set_external k.inner (length slice) heap.addr
      bytes ← write_prefix heap.mem (length slice) slice
      ok (record { inner = inner; heap = record heap { mem = bytes } })))

unfoldable pub iter_as_slice : IterKey → Run Bytes
unfolding as_slice
iter_as_slice k = as_slice k.inner k.heap

-- `LookUpKey<N>`
pub record LookUpKey : Type 0 where
  pub inner : InnerKey
  pub buffer : Option Block

-- The boxed buffer holds the user key and the trailer; `addr` is where the allocator put it.
unfoldable pub lookup_new : ℕ → ℕ → Bytes → ℕ → OperationType → Run LookUpKey
unfolding encode_inline set_external inner_new
lookup_new addr n user_key seq_no op =
    let total = length user_key + 8 in
    if leb total n
    then (do
      inner ← encode_inline (inner_new n) user_key seq_no op
      ok (record { inner = inner; buffer = none }))
    else (do
      inner ← set_external (inner_new n) total addr
      ok (record {
        inner = inner;
        buffer = some (record { addr = addr; mem = user_key ++ encode_trailer seq_no op });
      }))

-- With no buffer no address is live.
abbrev pub no_block : Block
no_block = record { addr = 0; mem = replicate 0 0 }

unfoldable pub lookup_as_slice : LookUpKey → Run Bytes
unfolding as_slice
lookup_as_slice k = elim k.buffer [ some b ↦ as_slice k.inner b | none ↦ as_slice k.inner no_block ]
