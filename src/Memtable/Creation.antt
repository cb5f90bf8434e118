-- ===== src/Memtable/Creation.antt =====
-- `MemtableInner::new` of crates/engine/src/memtable/memtable.rs: the arena and the head of the list.
use victory_db.Base.{ℕ, ◌+◌, ◌^◌, ◌≤◌, ◌<◌, ◌≡◌, refl, ap, false, arith}
use victory_db.Base.Run.{Run, ok}
use victory_db.Arena.{
  Arena, ArenaPolicy, system, Layout, Allocated, at, alloc_raw, alloc_raw_fallback, or_panic,
}
use victory_db.Arena as Chunks
use victory_db.Arena.Laws.{IsLayout, Granted, Returns, granted, refusal, bump_of}
use victory_db.Arena.Allocation.{alloc_raw_fallback-Returns}
use victory_db.Arena.Regions.{new-IsArena}
use victory_db.SkipList.Node.{Ptr, max_head_height, node_size}
use victory_db.SkipList.Search as Sl
use victory_db.Memtable.{MemtableInner, place_node, memtable_new}

-- The sentinel's node: a header of eight bytes and eight slots.
abbrev pub head_layout : Layout
head_layout = record { size = 72; align = 8 }

Returns-at :
    {a : Arena} {k : ℕ} {l : Layout} {r : Run Allocated}
    → l.size ≤ a.policy.block_size
    → bump_of a.chunks a.current ≡ 0
    → Returns a k l r
    → (c : ℕ) × (o : ℕ) × (a' : Arena) × (r ≡ ok (at c o a')) × Granted a k l c o a'
Returns-at fits unused (granted c o a' g) = (c, o, a', refl, g)
Returns-at fits unused (refusal e a' r) = let u = r.used fits in absurd (omega arith)

module _ (address : ℕ → ℕ → Ptr) (fuel fails : ℕ) where
  place_head :
      (a : Arena) (c o : ℕ) (a' : Arena)
      → alloc_raw_fallback fuel fails a head_layout ≡ ok (at c o a')
      → place_node address fuel fails a max_head_height 0 0 ≡ ok (address c o, a')
  unfolding place_node alloc_raw or_panic node_size
  place_head a c o a' e = rw e

  abbrev pub empty_memtable : ℕ → Arena → Ptr → MemtableInner
  empty_memtable id arena head = record {
    id = id;
    highest_seqno = 0;
    size = 0;
    requested_rotation = false;
    lifecycle = 1;
    arena = arena;
    skiplist = Sl.new head;
  }

  memtable_new-eq :
      (id : ℕ) (p : ArenaPolicy) (a a' : Arena) (head : Ptr)
      → Chunks.new p system ≡ ok a
      → place_node address fuel fails a max_head_height 0 0 ≡ ok (head, a')
      → memtable_new address fuel fails id p system ≡ ok (empty_memtable id a' head)
  unfolding memtable_new
  memtable_new-eq id p a a' head e f = rw (e, f)

  pub memtable_new-Granted :
      (id : ℕ) (p : ArenaPolicy)
      → 72 ≤ p.block_size
      → p.block_size ≤ p.cap
      → p.cap + p.block_size < 2 ^ 64
      → fails + p.cap < fuel
      → (a : Arena) × (c : ℕ) × (o : ℕ) × (a' : Arena) × (memtable_new address fuel fails id p
            system
          ≡ ok (empty_memtable id a' (address c o)))
        × Granted a 3 head_layout c o a'
        × (a.policy ≡ p)
  memtable_new-Granted id p room le small enough =
      let (a, made, is, policy, unused) = new-IsArena p (omega arith) le small in
      let lay : IsLayout a 3 head_layout = record {
        power = refl;
        small = omega arith;
        no_wrap = omega (arith, ap (λ (q : ArenaPolicy). q.block_size) policy);
      } in
      let fits : 72 ≤ a.policy.block_size =
        omega (arith, ap (λ (q : ArenaPolicy). q.block_size) policy) in
      let (c, o, a', got, g) = Returns-at fits (unused a.current) (
        alloc_raw_fallback-Returns fuel fails a 3 head_layout is lay
          (omega (arith, ap (λ (q : ArenaPolicy). q.cap) policy))) in
      (
        a,
        c,
        o,
        a',
        memtable_new-eq id p a a' (address c o) made (place_head a c o a' got),
        g,
        policy,
      )
