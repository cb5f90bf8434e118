-- ===== src/SkipList/Insert/Linking.antt =====
-- Linking a node into a well-formed skip list (crates/engine/src/memtable/skip_list.rs).
use victory_db.Base.{
  ℕ, suc, ◌+◌, ◌≤◌, ◌<◌, ◌≡◌, ◌≢◌, refl, sym, subst, ◌∙◌, ◌⊎◌, inl, inr, List, ◌∷◌, ◌++◌, Bytes,
  All, length, arith, ltb, if◌then◌else◌,
}
use victory_db.Base.Run.{ok}
use native.Mathlib.Decide.{dec_lt}
use victory_db.Key.Comparator.{Comparator, IsLawful}
use victory_db.SkipList.Node.{Ptr, null, Heap, load_next}
use victory_db.SkipList.Search.{SkipList, TraversalCtx}
use victory_db.SkipList.Chain.{Has, All-of_Has}
use victory_db.SkipList.Invariant.{key_of, value_of, Sorted, Cut, IsSkipList, contents}
use victory_db.SkipList.Found.{to_bottom}
use victory_db.SkipList.Iteration.{NotLess, rest-NotLess, All-right, Sorted-right}
use victory_db.SkipList.Insert.{link_node}
use victory_db.SkipList.Insert.Stored.{SameEntries}
use victory_db.SkipList.Insert.Splice.{Has-insert, Has-inserted, Has-of_inserted, length-inserted}
use victory_db.SkipList.Insert.Links.{Links, IsPlace, link_node-Links}
use victory_db.SkipList.Insert.Entries.{
  insert_entry, AgreeOn, contents-AgreeOn, Sorted-AgreeOn, contents-insert, Sorted-insert,
}

-- The nodes of each level with `x` on the levels below `height`.
abbrev pub inserted : ℕ → Ptr → (ℕ → List Ptr) → (ℕ → List Ptr) → ℕ → List Ptr
inserted height x before after j =
    if ltb j height then before j ++ (x ∷ after j) else before j ++ after j

inserted_low :
    (height : ℕ) (x : Ptr) (before after : ℕ → List Ptr) (j : ℕ)
    → j < height
    → inserted height x before after j ≡ before j ++ (x ∷ after j)
inserted_low height x before after j l = ground arith

inserted_high :
    (height : ℕ) (x : Ptr) (before after : ℕ → List Ptr) (j : ℕ)
    → height ≤ j
    → inserted height x before after j ≡ before j ++ after j
inserted_high height x before after j l = ground arith

-- A list with a node `x` that is allocated and not linked, and the place that a search found for it.
pub record IsReady (c : Comparator) (Valid : Bytes → Type 0) (s : SkipList) (lists : ℕ → List Ptr)
    (key value : Bytes) (x : Ptr) (height : ℕ) (t : TraversalCtx) : Type 0 where
  pub list : IsSkipList c Valid s lists
  pub room : (j : ℕ) → length (lists j) + 1 ≤ s.entries
  pub key_valid : Valid key
  pub tall : 1 ≤ height
  pub fits : height ≤ s.max_level
  pub ne_null : x ≢ null
  pub ne_head : x ≢ s.head
  pub out : (j : ℕ) → Has x (lists j) → ⊥
  pub slots : (j : ℕ) → j < height → load_next s.heap x j ≡ ok null
  pub own_key : key_of s.heap x ≡ key
  pub own_value : value_of s.heap x ≡ value
  pub cuts : (j : ℕ) → Cut c s.heap key s.head (lists j) (t.predecessors j) (t.successors j)

module _ (c : Comparator) (Valid : Bytes → Type 0) (law : IsLawful c Valid) (s : SkipList)
    (lists : ℕ → List Ptr) (key value : Bytes) (x : Ptr) (height : ℕ) (t : TraversalCtx)
    (ready : IsReady c Valid s lists key value x height t) where
  abbrev before : ℕ → List Ptr
  before j = (ready.cuts j).before

  abbrev after : ℕ → List Ptr
  after j = (ready.cuts j).after

  abbrev pub linked_lists : ℕ → List Ptr
  linked_lists = inserted height x before after

  whole : (j : ℕ) → lists j ≡ before j ++ after j
  whole j = (ready.cuts j).whole

  place : IsPlace s.head x before after t
  place = record {
    ne_null = ready.ne_null;
    ne_head = ready.ne_head;
    out = λ j there. ready.out j (subst (λ (l : List Ptr). Has x l) (sym (whole j)) there);
    preds = λ j. (ready.cuts j).pred;
    succs = λ j. (ready.cuts j).succ;
  }

  unlinked : Links s.heap s.head x before after height 0 s.heap
  unlinked = record {
    low = λ j l. absurd (omega arith);
    high = λ j l m. rw (← whole j) (ready.list.chains j m);
    free = λ j l m. ready.slots j m;
    entries = record { free = λ p e. e; keys = λ p. refl; values = λ p. refl; sizes = λ p. refl };
  }

  -- A linked list has the new node, on its levels, and those that were there.
  linked_cases :
      (j : ℕ) (p : Ptr) → Has p (linked_lists j) → ((p ≡ x) × (j < height)) ⊎ Has p (lists j)
  linked_cases j p there = elim (dec_lt j height) [
    | yes low ↦
        elim (Has-of_inserted p x (before j) (after j)
          (rw (← inserted_low height x before after j low) there)) [
            | inl e ↦ inl (e, low)
            | inr old ↦ inr (rw (whole j) old)
          ]
    | no high ↦
        inr (rw (whole j) (rw (← inserted_high height x before after j (omega arith)) there))
  ]

  valid_all : (j : ℕ) → All (λ p. Valid (key_of s.heap p)) (lists j)
  valid_all j =
      All-of_Has (λ p. Valid (key_of s.heap p)) (lists j)
        (λ p there. ready.list.valid p (to_bottom c Valid law s lists ready.list j p there))

  after-NotLess : (j : ℕ) → NotLess c Valid law s.heap key (after j)
  after-NotLess j =
      let whole_sorted : Sorted c s.heap (before j ++ after j) =
        rw (← whole j) (ready.list.sorted j) in
      let whole_valid : All (λ p. Valid (key_of s.heap p)) (before j ++ after j) =
        rw (← whole j) (valid_all j) in
      rest-NotLess c Valid law s.heap key (after j) ready.key_valid
        (Sorted-right c Valid law s.heap (before j) (after j) whole_sorted)
        (All-right c Valid law (λ p. Valid (key_of s.heap p)) (before j) (after j) whole_valid)
        (ready.cuts j).rest

  -- Before the links are made the nodes with the new one among them are in order already.
  linked-Sorted : (j : ℕ) → Sorted c s.heap (linked_lists j)
  linked-Sorted j = elim (dec_lt j height) [
    | yes low ↦ rw (inserted_low height x before after j low) (
        Sorted-insert c s.heap key value x ready.own_key ready.own_value Valid law ready.key_valid
          (before j) (after j) (rw (← whole j) (ready.list.sorted j)) (rw (← whole j) (valid_all j))
          (ready.cuts j).lesser (after-NotLess j))
    | no high ↦
        rw (inserted_high height x before after j (omega arith), ← whole j) (ready.list.sorted j)
  ]

  new_in : (j : ℕ) → j < height → Has x (linked_lists j)
  new_in j l = rw (inserted_low height x before after j l) (Has-inserted x (before j) (after j))

  old_in : (j : ℕ) (p : Ptr) → Has p (lists j) → Has p (linked_lists j)
  old_in j p there = elim (dec_lt j height) [
    | yes low ↦
        rw (inserted_low height x before after j low)
          (Has-insert p x (before j) (after j) (rw (← whole j) there))
    | no high ↦ rw (inserted_high height x before after j (omega arith), ← whole j) there
  ]

  linked-sizes : (j : ℕ) → length (linked_lists j) ≤ s.entries
  linked-sizes j =
      let room : length (before j ++ after j) + 1 ≤ s.entries = rw (← whole j) (ready.room j) in
      elim (dec_lt j height) [
        | yes low ↦
            rw (inserted_low height x before after j low)
              (omega (arith, length-inserted x (before j) (after j)))
        | no high ↦ rw (inserted_high height x before after j (omega arith)) (omega arith)
      ]

  module _ (h : Heap) (links : Links s.heap s.head x before after height height h) where
    agree : (xs : List Ptr) → AgreeOn s.heap h xs
    agree xs =
        All-of_Has (λ p. (key_of h p ≡ key_of s.heap p) × (value_of h p ≡ value_of s.heap p)) xs
          (λ p there. (links.entries.keys p, links.entries.values p))

    Links-IsSkipList : IsSkipList c Valid (record s { heap = h }) linked_lists
    Links-IsSkipList = record {
      chains = λ j l. elim (dec_lt j height) [
        | yes low ↦ rw (inserted_low height x before after j low) (links.low j low)
        | no high ↦
            rw (inserted_high height x before after j (omega arith)) (links.high j (omega arith) l)
      ];
      sorted = λ j.
          Sorted-AgreeOn c s.heap h (linked_lists j) (agree (linked_lists j)) (linked-Sorted j);
      nested = λ j p there. elim (linked_cases (suc j) p there) [
        | inl (e, l) ↦ subst (λ (q : Ptr). Has q (linked_lists j)) (sym e) (new_in j (omega arith))
        | inr old ↦ old_in j p (ready.list.nested j p old)
      ];
      valid = λ p there. elim (linked_cases 0 p there) [
        | inl (e, l) ↦ rw (links.entries.keys p, e, ready.own_key) ready.key_valid
        | inr old ↦ rw (links.entries.keys p) (ready.list.valid p old)
      ];
      empty = λ j l.
          let fits = ready.fits in
          inserted_high height x before after j (omega arith)
          ∙ sym (whole j)
          ∙ ready.list.empty j l;
      top = ready.list.top;
      sizes = linked-sizes;
    }

    Links-contents :
        contents h (linked_lists 0) ≡ insert_entry c key value (contents s.heap (lists 0))
    Links-contents =
        contents-AgreeOn s.heap h (linked_lists 0) (agree (linked_lists 0))
        ∙ rw (inserted_low height x before after 0 ready.tall, whole 0)
            (contents-insert c s.heap key value x ready.own_key ready.own_value (before 0) (after 0)
              (ready.cuts 0).lesser (ready.cuts 0).rest)

  -- A node that is ready is linked without a retry.
  pub link_node-IsSkipList :
      (fuel rounds : ℕ) (s0 : SkipList)
      → (h : Heap) × (link_node c fuel s0 key x (suc rounds) height s.heap t
          ≡ ok (x, record s0 { heap = h }))
        × IsSkipList c Valid (record s { heap = h }) linked_lists
        × (contents h (linked_lists 0) ≡ insert_entry c key value (contents s.heap (lists 0)))
        × SameEntries s.heap h
  link_node-IsSkipList fuel rounds s0 =
      let fits = ready.fits in
      let top = ready.list.top in
      let (h, eq, links) =
        link_node-Links s.heap s.head x before after height t place (omega arith) c fuel rounds s0
          key ready.tall unlinked in
      (h, eq, Links-IsSkipList h links, Links-contents h links, links.entries)
