-- ===== src/SkipList/Insert/Prepared.antt =====
-- A well-formed list with a node allocated for an entry, as the insertions of
-- crates/engine/src/memtable/skip_list.rs have it before they link the node.
use victory_db.Base.{
  ℕ, ◌+◌, ◌≤◌, ◌≡◌, ◌≢◌, sym, subst, ◌∙◌, inl, inr, none, List, Bytes, arith, max,
}
use victory_db.Base.Run.{ok}
use victory_db.Key.Comparator.{Comparator, IsLawful}
use victory_db.SkipList.Node.{Ptr, null, Heap, max_head_height, deref, load_next}
use victory_db.SkipList.Search.{SkipList, TraversalCtx}
use victory_db.SkipList.Chain.{Has, first, load-first, All-of_Has}
use victory_db.SkipList.Invariant.{key_of, value_of, Cut, IsSkipList}
use victory_db.SkipList.Found.{to_bottom}
use victory_db.SkipList.Insert.Stored.{Placed}
use victory_db.SkipList.Insert.Splice.{Chain-agree, Has-load}
use victory_db.SkipList.Insert.Entries.{AgreeOn, Sorted-AgreeOn}
use victory_db.SkipList.Insert.Linking.{IsReady}

not-load_fresh : (h : Heap) (p q : Ptr) (i : ℕ) → h p ≡ none → load_next h p i ≡ ok q → ⊥
unfolding load_next deref
not-load_fresh h p q i fresh e = ground (arith, fresh, e)

module _ (c : Comparator) (Valid : Bytes → Type 0) (law : IsLawful c Valid) (s : SkipList)
    (lists : ℕ → List Ptr) (list : IsSkipList c Valid s lists) (place : Ptr)
    (fresh : s.heap place ≡ none) where
  pub fresh-out : (j : ℕ) → Has place (lists j) → ⊥
  fresh-out j there =
      let (q, e) =
        Has-load s.heap 0 s.head place (lists 0) (list.chains 0 (omega arith))
          (to_bottom c Valid law s lists list j place there) in
      not-load_fresh s.heap place q 0 fresh e

  fresh-ne_head : place ≢ s.head
  fresh-ne_head e = not-load_fresh s.heap place (first (lists 0)) 0 fresh (
      subst (λ p. load_next s.heap p 0 ≡ ok (first (lists 0))) (sym e)
        (load-first s.heap 0 s.head (lists 0) (list.chains 0 (omega arith))))

  apart : (j : ℕ) (p : Ptr) → Has p (lists j) → p ≢ place
  apart j p there e = fresh-out j (subst (λ (q : Ptr). Has q (lists j)) e there)

  module _ (key value : Bytes) (height seed : ℕ) (h : Heap)
      (placed : Placed s.heap place height key value h) where
    abbrev pub prepared : SkipList
    prepared = record {
      heap = h;
      head = s.head;
      seed = seed;
      entries = s.entries + 1;
      max_level = max s.max_level height;
    }

    pub prepared-AgreeOn : (j : ℕ) → AgreeOn s.heap h (lists j)
    prepared-AgreeOn j =
        All-of_Has (λ p. (key_of h p ≡ key_of s.heap p) × (value_of h p ≡ value_of s.heap p))
          (lists j)
          (λ p there. (placed.keys p (apart j p there), placed.values p (apart j p there)))

    pub prepared-IsSkipList : height ≤ max_head_height → IsSkipList c Valid prepared lists
    prepared-IsSkipList few =
        let top = list.top in
        record {
          chains = λ j l.
              Chain-agree s.heap h j s.head (lists j)
                (λ p w. placed.other p j (elim w [
                  | inl here ↦ λ e. fresh-ne_head (sym e ∙ here)
                  | inr there ↦ apart j p there
                ]))
                (list.chains j l);
          sorted = λ j. Sorted-AgreeOn c s.heap h (lists j) (prepared-AgreeOn j) (list.sorted j);
          nested = list.nested;
          valid = λ p there. rw (placed.keys p (apart 0 p there)) (list.valid p there);
          empty = λ j l. list.empty j (omega arith);
          top = omega arith;
          sizes = λ j. let small = list.sizes j in omega arith;
        }

    pub prepared-IsReady :
        (t : TraversalCtx)
        → 1 ≤ height
        → height ≤ max_head_height
        → Valid key
        → place ≢ null
        → ((j : ℕ) → Cut c h key s.head (lists j) (t.predecessors j) (t.successors j))
        → IsReady c Valid prepared lists key value place height t
    prepared-IsReady t tall few key_valid ne cuts = record {
      list = prepared-IsSkipList few;
      room = λ j. let small = list.sizes j in omega arith;
      key_valid = key_valid;
      tall = tall;
      fits = omega arith;
      ne_null = ne;
      ne_head = fresh-ne_head;
      out = fresh-out;
      slots = placed.empty;
      own_key = placed.key_there;
      own_value = placed.value_there;
      cuts = cuts;
    }
