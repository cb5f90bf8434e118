-- ===== src/SkipList/Node.antt =====
-- Nodes of crates/engine/src/memtable/skip_list.rs on a heap of their own. An address stands for a
-- node; 0 is null. The tower, key and value of a node are the parts of its allocation.
use victory_db.Base.{
  ℕ, ◌+◌, ◌*◌, Option, none, some, Bytes, length, ltb, leb, ◌==◌, if◌then◌else◌, u16, u32,
}
use victory_db.Base.Run.{Run, ok, fault, ◌>>=◌}

abbrev pub Ptr : Type 0
Ptr = ℕ

abbrev pub null : Ptr
null = 0

abbrev pub max_head_height : ℕ
max_head_height = 8

-- `tower.add(level)` is `next level`, for a level below the height.
pub record Node : Type 0 where
  pub height : ℕ
  pub key : Bytes
  pub value : Bytes
  pub next : ℕ → Ptr

abbrev pub Heap : Type 0
Heap = Ptr → Option Node

-- `Node::build_layout`: a header of eight bytes, eight bytes for each level, the key and the value.
unfoldable pub node_size : ℕ → ℕ → ℕ → ℕ
node_size height key_len value_len = 8 + 8 * height + key_len + value_len

-- `*node`: a fault at null and where no node stands
unfoldable pub deref : Heap → Ptr → Run Node
deref h p = if p == null then fault else elim (h p) [ none ↦ fault | some n ↦ ok n ]

-- `Node::load_next`: a level at or above the height reads beyond the tower.
unfoldable pub load_next : Heap → Ptr → ℕ → Run Ptr
unfolding deref
load_next h p level = do n ← deref h p; (if ltb level n.height then ok (n.next level) else fault)

abbrev pub update : Heap → Ptr → Node → Heap
update h p n q = if q == p then some n else h q

abbrev pub set_level : (ℕ → Ptr) → ℕ → Ptr → ℕ → Ptr
set_level f level p i = if i == level then p else f i

-- `Node::next`: the address of a slot of the tower, behind the header of eight bytes. An allocation
-- does not wrap round the address space.
unfoldable pub slot_address : Ptr → ℕ → ℕ
slot_address node level = node + 8 + 8 * level

-- A store into `Node::next(p, level)`.
unfoldable pub store_next : Heap → Ptr → ℕ → Ptr → Run Heap
unfolding deref
store_next h p level q = do
  n ← deref h p
  (if ltb level n.height
      then ok (update h p (record n { next = set_level n.next level q }))
      else fault)

-- `Node::get_key_bytes`, `Node::get_value_bytes`
unfoldable pub get_key_bytes : Heap → Ptr → Run Bytes
unfolding deref
get_key_bytes h p = do n ← deref h p; ok n.key

unfoldable pub get_value_bytes : Heap → Ptr → Run Bytes
unfolding deref
get_value_bytes h p = do n ← deref h p; ok n.value

-- `Node::alloc` and `Node::init_node` at the address that the arena gave, and the copies of key
-- and value. The node has room for `key.len() as u16` and `value.len() as u32` bytes, so a longer
-- key or value is written past its end.
unfoldable pub alloc_node : Heap → Ptr → ℕ → Bytes → Bytes → Run Heap
alloc_node h p height key value =
    if leb (length key) (u16 (length key))
    then (if leb (length value) (u32 (length value))
        then ok (
            update h p (record { height = height; key = key; value = value; next = λ level. null }))
        else fault)
    else fault
