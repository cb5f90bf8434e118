-- ===== src/Memtable/Flow.antt =====
-- A memtable from its creation over three insertions to lookups
-- (crates/engine/src/memtable/memtable.rs), run through the arena and the skip list.
use victory_db.Base.{ℕ, ◌+◌, ◌*◌, ◌≡◌, refl, Bytes, [], ◌∷◌, cmp, to_be, from_be}
use victory_db.Base.Slices.{from_be_from}
use victory_db.Base.Run.{Run, ok, ◌>>=◌}
use victory_db.Arena.{
  ArenaPolicy, system, allocate, alloc_raw, alloc_raw_fallback, or_panic, alignment_check, align_up,
  try_new_chunk, push_chunk, take_region, get_chunk,
}
use victory_db.Arena as Chunks
use victory_db.Key.Comparator.{internal_comparator, internal_compare, internal_order}
use victory_db.Key.InternalKey.{
  put, delete, max_op, internal_key, internal_key_ref, unpack_trailer_raw, op_from, op_code,
  pack_trailer, encode_trailer,
}
use victory_db.SkipList.Node.{
  node_size, deref, load_next, slot_address, store_next, get_key_bytes, get_value_bytes, alloc_node,
}
use victory_db.SkipList.Level.{
  seed_generator, next_seed, trailing_zeros, lower_height, generate_random_level,
}
use victory_db.SkipList.Search.{search, search_levels, walk, node_less, start_level}
use victory_db.SkipList.Search as Sl
use victory_db.SkipList.Insert.{
  next_height, insert_with, link_node, link_base, link_levels, link_level, link_successor,
  compare_exchange, search_again,
}
use victory_db.Memtable.{
  MemReturn, not_found, value, deleted, MemtableInner, memtable_new, place_node, insert_direct, get,
  first_ge, mem_return, entry_return,
}

abbrev policy : ArenaPolicy
policy = record { block_size = 256; cap = 1024 }

abbrev address : ℕ → ℕ → ℕ
address chunk offset = 4096 + chunk * 256 + offset

abbrev put_one : MemtableInner → Bytes → ℕ → Bytes → Run MemtableInner
put_one m user_key seq_no bytes =
    insert_direct address 20 0 internal_comparator m user_key seq_no put bytes

-- One key is put and deleted, a smaller one put.
abbrev filled : Run MemtableInner
filled = memtable_new address 20 0 1 policy system >>= λ m0.
    put_one m0 (1 ∷ []) 3 (9 ∷ []) >>= λ m1.
    insert_direct address 20 0 internal_comparator m1 (1 ∷ []) 7 delete [] >>= λ m2.
    put_one m2 (0 ∷ []) 8 (5 ∷ [])

abbrev look_up : Bytes → ℕ → Run MemReturn
look_up user_key seq_no =
    filled >>= λ m. get internal_comparator 20 m (internal_key user_key seq_no max_op)

-- Before the deletion the value is seen, after it the deletion, and before its own number nothing.
look_ups :
    (look_up (1 ∷ []) 5 ≡ ok (value (9 ∷ [])))
    × (look_up (1 ∷ []) 8 ≡ ok deleted)
    × (look_up (0 ∷ []) 7 ≡ ok not_found)
unfolding memtable_new place_node insert_direct get first_ge mem_return entry_return Chunks.new
    allocate alloc_raw alloc_raw_fallback or_panic alignment_check align_up try_new_chunk push_chunk
    take_region get_chunk Sl.new seed_generator next_seed trailing_zeros lower_height
    generate_random_level slot_address next_height insert_with link_node link_base link_levels
    link_level link_successor compare_exchange search_again store_next load_next deref alloc_node
    node_size get_key_bytes get_value_bytes search search_levels walk node_less start_level
    internal_compare internal_order cmp internal_key_ref unpack_trailer_raw op_from op_code
    pack_trailer encode_trailer to_be from_be from_be_from
look_ups = (refl, refl, refl)
