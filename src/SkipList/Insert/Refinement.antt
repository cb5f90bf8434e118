-- ===== src/SkipList/Insert/Refinement.antt =====
-- The two insertions of crates/engine/src/memtable/skip_list.rs against insertion into a sorted list
-- of entries.
use victory_db.Base.{
  ℕ, zero, suc, ◌+◌, ◌*◌, sym, ◌^◌, ◌<◌, ◌≡◌, ◌≢◌, refl, ap, ◌∙◌, none, List, Bytes, length, arith,
  max,
}
use native.Mathlib.Nat.{mod-eq_of_lt}
use victory_db.Base.Run.{Run, ok}
use victory_db.Key.Comparator.{Comparator, IsLawful}
use victory_db.SkipList.Node.{Ptr, null, Heap, alloc_node}
use victory_db.SkipList.Level.{generate_random_level, generate_random_level_bounds}
use victory_db.SkipList.Search.{SkipList, TraversalCtx, search}
use victory_db.SkipList.Invariant.{IsSkipList, contents}
use victory_db.SkipList.Found.{search-Cut_all}
use victory_db.SkipList.Insert.{next_height, link_node, insert, insert_with}
use victory_db.SkipList.Insert.Stored.{KeepsFree, extent, alloc_node-Placed}
use victory_db.SkipList.Insert.Entries.{insert_entry, contents-AgreeOn, Cut-AgreeOn}
use victory_db.SkipList.Insert.Linking.{linked_lists, link_node-IsSkipList}
use victory_db.SkipList.Insert.Prepared.{
  prepared, prepared-AgreeOn, prepared-IsSkipList, prepared-IsReady,
}

-- The run `r` returns the node `place` and a well-formed list that holds the entries of `s` and, in
-- its place, the new one; `s'` counts one entry more, has no other new node, and its nodes take as
-- many bytes as in `s`, the new one those of a node of the height that is drawn.
abbrev pub Inserts :
    (c : Comparator) (Valid : Bytes → Type 0) (s : SkipList) (lists : ℕ → List Ptr)
    (key value : Bytes) (place : Ptr) (r : Run (Ptr × SkipList))
    → Type 0
Inserts c Valid s lists key value place r =
    (s' : SkipList) × (lists' : ℕ → List Ptr) × (r ≡ ok (place, s'))
    × IsSkipList c Valid s' lists'
    × (s'.head ≡ s.head)
    × (s'.entries ≡ s.entries + 1)
    × KeepsFree place s.heap s'.heap
    × (extent (s'.heap place) ≡ 8 + 8 * (next_height s).0 + length key + length value)
    × ((p : Ptr) → p ≢ place → extent (s'.heap p) ≡ extent (s.heap p))
    × (contents s'.heap (lists' 0) ≡ insert_entry c key value (contents s.heap (lists 0)))

abbrev height_of : SkipList → ℕ
height_of s = (generate_random_level s.head s.seed s.max_level).2

abbrev seed_of : SkipList → ℕ
seed_of s = (generate_random_level s.head s.seed s.max_level).0

next_height-record :
    (s : SkipList)
    → s.entries + 1 < 2 ^ 64
    → next_height s ≡ (
      height_of s,
      record {
        heap = s.heap;
        head = s.head;
        seed = seed_of s;
        entries = s.entries + 1;
        max_level = max s.max_level (height_of s);
      },
    )
unfolding next_height
next_height-record s small =
    let (low, high, top) = generate_random_level_bounds s.head s.seed s.max_level in
    rw (← top, mod-eq_of_lt {n = s.entries + 1} {m = 2 ^ 64} small) refl

-- What the two insertions do where the search comes back without a node.
module _ (c : Comparator) (fuel : ℕ) (s s1 : SkipList) (key value : Bytes) (place : Ptr)
    (height : ℕ) (h : Heap) (t : TraversalCtx) (r : Run (Ptr × SkipList))
    (unset : t.searched_node ≡ none) (drawn : next_height s ≡ (height, s1))
    (placed : alloc_node s1.heap place height key value ≡ ok h)
    (linked : link_node c fuel s1 key place fuel height h t ≡ r) where
  insert-link_node : search c fuel s key ≡ ok t → insert c fuel s key value place ≡ r
  unfolding insert
  insert-link_node found = ground (arith, found, unset, drawn, placed, linked)

  insert_with-link_node :
      search c fuel (record s1 { heap = h }) key ≡ ok t → insert_with c fuel s key value place ≡ r
  unfolding insert_with
  insert_with-link_node found = ground (arith, found, unset, drawn, placed, linked)

module _ (c : Comparator) (Valid : Bytes → Type 0) (law : IsLawful c Valid) where
  -- On a well-formed list by a lawful comparator, with more fuel than entries, of which there are
  -- less than 2^64 - 1, and for a valid key of less than 2^16 bytes and a value of less than 2^32
  -- bytes, `insert` at an address that is not null and holds no node returns the new node and a
  -- well-formed list with one entry more, the same head and no other new node, whose entries are
  -- those of the list with the new one in front of the first that is not less. The new node takes
  -- the bytes of a header, of a tower of the height that is drawn, of the key and of the value, and
  -- the others take what they did.
  pub insert-Inserts :
      (fuel : ℕ) (s : SkipList) (lists : ℕ → List Ptr) (key value : Bytes) (place : Ptr)
      → IsSkipList c Valid s lists
      → Valid key
      → s.entries < fuel
      → s.entries + 1 < 2 ^ 64
      → place ≢ null
      → s.heap place ≡ none
      → length key < 2 ^ 16
      → length value < 2 ^ 32
      → Inserts c Valid s lists key value place (insert c fuel s key value place)
  insert-Inserts zero s lists key value place list kv enough small ne fresh short brief =
      absurd (omega arith)
  insert-Inserts (suc fuel) s lists key value place list kv enough small ne fresh short brief =
      let (low, high, _) = generate_random_level_bounds s.head s.seed s.max_level in
      let (t, found, unset, cuts) =
        search-Cut_all c Valid law (suc fuel) s lists key list kv enough in
      let (h, eq, placed) = alloc_node-Placed s.heap place (height_of s) key value ne short brief in
      let agree =
        prepared-AgreeOn c Valid law s lists list place fresh key value (height_of s) (seed_of s) h
          placed in
      let ready =
        prepared-IsReady c Valid law s lists list place fresh key value (height_of s) (seed_of s) h
          placed t low (omega arith) kv ne
          (λ j.
            Cut-AgreeOn c s.heap h key s.head (lists j) (t.predecessors j) (t.successors j)
              (agree j) (cuts j)) in
      let sA =
        prepared c Valid law s lists list place fresh key value (height_of s) (seed_of s) h
          placed in
      let (h', linked, is, same, entries) =
        link_node-IsSkipList c Valid law sA lists key value place (height_of s) t ready (suc fuel)
          fuel (record sA { heap = s.heap }) in
      (
        record sA { heap = h' },
        linked_lists c Valid law sA lists key value place (height_of s) t ready,
        insert-link_node c (suc fuel) s (record sA { heap = s.heap }) key value place (height_of s)
            h t (ok (place, record sA { heap = h' })) unset (next_height-record s small) eq linked
            found,
        is,
        refl,
        refl,
        λ p d e. entries.free p (placed.free p d e),
        entries.sizes place
            ∙ placed.size_there
            ∙ ap (λ (d : ℕ × SkipList). 8 + 8 * d.0 + length key + length value)
                (sym (next_height-record s small)),
        λ p d. entries.sizes p ∙ placed.sizes p d,
        same ∙ ap (insert_entry c key value) (contents-AgreeOn s.heap h (lists 0) (agree 0)),
      )

  -- On a well-formed list by a lawful comparator, with fuel for one entry more than it has, of
  -- which there are less than 2^64 - 1, and for a valid key of less than 2^16 bytes and a value of
  -- less than 2^32 bytes, `insert_with`, which allocates before it searches, at an address that is
  -- not null and holds no node returns what `insert` does: the new node and a well-formed list with
  -- one entry more, the same head and no other new node, and the new entry in front of the first
  -- that is not less. The nodes take the bytes that they take after `insert`.
  pub insert_with-Inserts :
      (fuel : ℕ) (s : SkipList) (lists : ℕ → List Ptr) (key value : Bytes) (place : Ptr)
      → IsSkipList c Valid s lists
      → Valid key
      → s.entries + 1 < fuel
      → s.entries + 1 < 2 ^ 64
      → place ≢ null
      → s.heap place ≡ none
      → length key < 2 ^ 16
      → length value < 2 ^ 32
      → Inserts c Valid s lists key value place (insert_with c fuel s key value place)
  insert_with-Inserts zero s lists key value place list kv enough small ne fresh short brief =
      absurd (omega arith)
  insert_with-Inserts (suc fuel) s lists key value place list kv enough small ne fresh short brief =
      let (low, high, _) = generate_random_level_bounds s.head s.seed s.max_level in
      let (h, eq, placed) = alloc_node-Placed s.heap place (height_of s) key value ne short brief in
      let agree =
        prepared-AgreeOn c Valid law s lists list place fresh key value (height_of s) (seed_of s) h
          placed in
      let sA =
        prepared c Valid law s lists list place fresh key value (height_of s) (seed_of s) h
          placed in
      let (t, found, unset, cuts) =
        search-Cut_all c Valid law (suc fuel) sA lists key
          (prepared-IsSkipList c Valid law s lists list place fresh key value (height_of s)
            (seed_of s) h placed (omega arith))
          kv enough in
      let ready =
        prepared-IsReady c Valid law s lists list place fresh key value (height_of s) (seed_of s) h
          placed t low (omega arith) kv ne cuts in
      let (h', linked, is, same, entries) =
        link_node-IsSkipList c Valid law sA lists key value place (height_of s) t ready (suc fuel)
          fuel (record sA { heap = s.heap }) in
      (
        record sA { heap = h' },
        linked_lists c Valid law sA lists key value place (height_of s) t ready,
        insert_with-link_node c (suc fuel) s (record sA { heap = s.heap }) key value place
            (height_of s) h t (ok (place, record sA { heap = h' })) unset
            (next_height-record s small) eq linked found,
        is,
        refl,
        refl,
        λ p d e. entries.free p (placed.free p d e),
        entries.sizes place
            ∙ placed.size_there
            ∙ ap (λ (d : ℕ × SkipList). 8 + 8 * d.0 + length key + length value)
                (sym (next_height-record s small)),
        λ p d. entries.sizes p ∙ placed.sizes p d,
        same ∙ ap (insert_entry c key value) (contents-AgreeOn s.heap h (lists 0) (agree 0)),
      )
