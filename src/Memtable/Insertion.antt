-- ===== src/Memtable/Insertion.antt =====
-- `MemtableInner::insert_direct` of crates/engine/src/memtable/memtable.rs, through the arena and the
-- skip list.
use victory_db.Base.{
  ℕ, ◌+◌, ◌*◌, ◌^◌, ◌∙◌, ◌≤◌, ◌<◌, ◌≡◌, refl, sym, ap, subst, ◌⊎◌, inl, inr, none, List, [], ◌∷◌,
  Bytes, All, Mem, length, arith, u16, u32,
}
use victory_db.Base.Run.{Run, ok, panic}
use victory_db.Arena.{Arena, Layout, alloc_raw}
use victory_db.Arena.Laws.{IsArena, Granted}
use victory_db.Arena.Regions.{HasNoRoom, alloc_raw-RawCases}
use victory_db.Key.Comparator.{internal_comparator}
use victory_db.Key.Comparator.Laws.{HasTrailer, internal-IsLawful}
use victory_db.Key.InternalKey.Laws.{length-internal_key}
use victory_db.SkipList.Node.{Ptr, node_size}
use victory_db.SkipList.Search.{SkipList}
use victory_db.SkipList.Invariant.{key_of, value_of, contents, IsSkipList}
use victory_db.SkipList.Insert.{next_height, insert_with}
use victory_db.SkipList.Insert.Refinement.{insert_with-Inserts}
use victory_db.Memtable.{MemtableInner, node_layout, place_node, insert_direct}
use victory_db.Memtable.Versions.{IsMemtable}
use victory_db.Memtable.Regions.{
  IsAddressing, IsUntouched, IsLaidOut, grant-IsUntouched, grant-IsLaidOut,
}
use victory_db.Memtable.Writes.{
  Write, IsWrite, write_key, Records, Records-insert_entry, Has-contents,
}

-- A memtable that holds the writes `ws`, the newest first.
pub record Holds (address : ℕ → ℕ → Ptr) (m : MemtableInner) (lists : ℕ → List Ptr)
    (ws : List Write) : Type 0 where
  pub arena : IsArena m.arena
  pub untouched : IsUntouched address m.arena m.skiplist.heap
  pub laid_out : IsLaidOut address m.arena m.skiplist.heap
  pub list : IsSkipList internal_comparator HasTrailer m.skiplist lists
  pub counted : m.skiplist.entries ≡ length ws
  pub records : Records (contents m.skiplist.heap (lists 0)) ws
  pub writes : All IsWrite ws

pub All-Mem : (ws : List Write) (w : Write) → All IsWrite ws → Mem w ws → IsWrite w
All-Mem [] w a m = absurd m
All-Mem (v ∷ ws) w a (inl e) = subst IsWrite (sym e) a.0
All-Mem (v ∷ ws) w a (inr m) = All-Mem ws w a.1 m

pub Holds-IsMemtable :
    {address : ℕ → ℕ → Ptr} {m : MemtableInner} {lists : ℕ → List Ptr} {ws : List Write}
    → Holds address m lists ws
    → IsMemtable m lists
Holds-IsMemtable {m} {lists} {ws} holds = record {
  list = holds.list;
  entries = λ p there.
      let (w, there', e) =
        holds.records.only (key_of m.skiplist.heap p, value_of m.skiplist.heap p)
          (Has-contents m.skiplist.heap (lists 0) p there) in
      let is = All-Mem ws w holds.writes there' in
      (
        w.user_key,
        w.seq_no,
        w.op_type,
        record { is = ap (λ t. t.0) e; seq_fits = is.seq_fits; stored = is.stored },
      );
}

module _ (address : ℕ → ℕ → Ptr) (fuel fails : ℕ) where
  abbrev pub insert_write : MemtableInner → Write → Run MemtableInner
  insert_write m w =
      insert_direct address fuel fails internal_comparator m w.user_key w.seq_no w.op_type w.bytes

  -- The height of the next node and its layout.
  abbrev drawn_layout : MemtableInner → Write → Layout
  drawn_layout m w =
      node_layout (next_height m.skiplist).0 (u16 (length w.user_key + 8)) (u32 (length w.bytes))

  module _ (m : MemtableInner) (w : Write) where
    insert_write-panic :
        alloc_raw fuel fails m.arena (drawn_layout m w) ≡ panic → insert_write m w ≡ panic
    unfolding insert_direct place_node
    insert_write-panic e = rw e

    insert_write-ok :
        (c o : ℕ) (a : Arena) (s : SkipList) (place : Ptr)
        → alloc_raw fuel fails m.arena (drawn_layout m w) ≡ ok (c, o, a)
        → insert_with internal_comparator fuel m.skiplist (write_key w) w.bytes (address c o)
          ≡ ok (place, s)
        → insert_write m w ≡ ok (record m { arena = a; skiplist = s })
    unfolding insert_direct place_node
    insert_write-ok c o a s place e f = rw (e, f)

-- The arena has no room for the node of a write.
abbrev pub NoRoom : MemtableInner → Write → Type 0
NoRoom m w =
    HasNoRoom m.arena (8 + 8 * (next_height m.skiplist).0 + length (write_key w) + length w.bytes)

-- The layout that the arena is asked for has the bytes of the node.
drawn_layout-size :
    (address : ℕ → ℕ → Ptr) (fuel fails : ℕ) (m : MemtableInner) (w : Write)
    → IsWrite w
    → (drawn_layout address fuel fails m w).size
      ≡ 8 + 8 * (next_height m.skiplist).0 + length (write_key w) + length w.bytes
unfolding node_size
drawn_layout-size address fuel fails m w is =
    let short = is.short in
    let brief = is.brief in omega (arith, length-internal_key w.user_key w.seq_no w.op_type)

node_size_pos : (height key_len value_len : ℕ) → 8 ≤ node_size height key_len value_len
unfolding node_size
node_size_pos height key_len value_len = omega arith

module _ (address : ℕ → ℕ → Ptr) (fuel fails : ℕ) (m : MemtableInner) (lists : ℕ → List Ptr)
    (ws : List Write) (w : Write) (addressing : IsAddressing m.arena.policy.block_size address)
    (holds : Holds address m lists ws) (is : IsWrite w) where
  -- The arena has no room, or the memtable holds one write more.
  abbrev pub InsertCases : Run MemtableInner → Type 0
  InsertCases r =
      ((r ≡ panic) × NoRoom m w)
      ⊎ ((m' : MemtableInner) × (lists' : ℕ → List Ptr) × (r ≡ ok m')
          × Holds address m' lists' (w ∷ ws)
          × (m'.arena.policy ≡ m.arena.policy))

  Granted-InsertCases :
      (c o : ℕ) (a : Arena)
      → length ws + 1 < fuel
      → length ws + 1 < 2 ^ 64
      → alloc_raw fuel fails m.arena (drawn_layout address fuel fails m w) ≡ ok (c, o, a)
      → Granted m.arena 3 (drawn_layout address fuel fails m w) c o a
      → InsertCases (insert_write address fuel fails m w)
  Granted-InsertCases c o a enough few eq g =
      let counted = holds.counted in
      let pos =
        node_size_pos (next_height m.skiplist).0 (u16 (length w.user_key + 8))
          (u32 (length w.bytes)) in
      let fits = g.inside in
      let start : m.skiplist.heap (address c o) ≡ none =
        holds.untouched c o g.fresh (omega arith) in
      let long = length-internal_key w.user_key w.seq_no w.op_type in
      let short = is.short in
      let (s, lists', run, list, head, more, keeps, size, sizes, sorted) =
        insert_with-Inserts internal_comparator HasTrailer internal-IsLawful fuel m.skiplist lists
          (write_key w) w.bytes (address c o) holds.list (omega arith) (omega arith) (omega arith)
          (addressing.not_null c o) start (omega arith) is.brief in
      inr (
        record m { arena = a; skiplist = s },
        lists',
        insert_write-ok address fuel fails m w c o a s (address c o) eq run,
        record {
          arena = g.valid;
          untouched =
              grant-IsUntouched address m.arena a m.skiplist.heap s.heap 3 c o
                (drawn_layout address fuel fails m w) g (omega arith) addressing keeps
                holds.untouched;
          laid_out =
              grant-IsLaidOut address m.arena a m.skiplist.heap s.heap 3 c o
                (drawn_layout address fuel fails m w) g (omega arith) addressing keeps
                (size ∙ sym (drawn_layout-size address fuel fails m w is)) sizes holds.laid_out;
          list = list;
          counted = omega arith;
          records =
              subst (λ (es : List (Bytes × Bytes)). Records es (w ∷ ws)) (sym sorted)
                (Records-insert_entry internal_comparator (contents m.skiplist.heap (lists 0)) ws w
                  holds.records);
          writes = (is, holds.writes);
        },
        g.policy,
      )

  -- On a memtable that holds some writes, `insert_direct` of one more with a sequence number of 56
  -- bits, a stored operation and a key and value that the length fields of a node hold panics only
  -- where the new node is larger than a block or a further block would exceed the arena's capacity,
  -- and else gives a memtable that holds it as well: its list is well-formed, has the entries of
  -- all the writes and counts them, its arena is well-formed and has the same policy, no node
  -- stands where the arena has handed out nothing, and each node has its own bytes, those of a
  -- header, its tower, its key and its value, in what the arena has handed out of a chunk, apart
  -- from those of every other node. The chunks of the arena are apart and not at null, a block has
  -- at most 2^64 - 8 bytes, the fuel exceeds the spurious failures and the capacity, and the writes
  -- with the new one, which are less than 2^64.
  pub insert_direct-InsertCases :
      m.arena.policy.block_size + 8 ≤ 2 ^ 64
      → fails + m.arena.policy.cap < fuel
      → length ws + 1 < fuel
      → length ws + 1 < 2 ^ 64
      → InsertCases (insert_write address fuel fails m w)
  insert_direct-InsertCases wrap plenty enough few =
      elim (alloc_raw-RawCases fuel fails m.arena 3 (drawn_layout address fuel fails m w)
        holds.arena (record { power = refl; small = omega arith; no_wrap = omega arith })
        (omega arith)) [
          | inl (full, room) ↦ inl (
            insert_write-panic address fuel fails m w full,
            subst (HasNoRoom m.arena) (drawn_layout-size address fuel fails m w is) room,
          )
          | inr (c, o, a, eq, g) ↦ Granted-InsertCases c o a enough few eq g
        ]
