-- ===== src/SkipList/Concurrent/Exchanging.antt =====
-- The compare-and-swap of an insertion (crates/engine/src/memtable/skip_list.rs), while others are
-- at work: where it finds what it expects, it splices the node into the level; where not, nothing
-- changes.
use victory_db.Base.{
  ℕ, ◌≤◌, ◌<◌, ◌≡◌, refl, sym, ap, subst, ◌∙◌, inl, inr, true, List, ◌∷◌, ◌++◌, Bytes, All, arith,
  ◌==◌, Bool-cases,
}
use victory_db.Base.Run.{ok}
use victory_db.Key.Comparator.{Comparator, IsLawful}
use victory_db.SkipList.Node.{Ptr, load_next, max_head_height}
use victory_db.SkipList.Search.{SkipList, TraversalCtx}
use victory_db.SkipList.Chain.{Chain, Has, last, first}
use victory_db.SkipList.Invariant.{key_of, Sorted}
use victory_db.SkipList.Iteration.{rest-NotLess, All-right, Sorted-right}
use victory_db.SkipList.Insert.{compare_exchange}
use victory_db.SkipList.Insert.Stored.{Stored, store_next-Stored}
use victory_db.SkipList.Insert.Splice.{Chain-splice}
use victory_db.SkipList.Insert.Entries.{Sorted-insert}
use victory_db.SkipList.Concurrent.{Task, linking, finding, exchanging, advance, insert_step}
use victory_db.SkipList.Concurrent.Invariant.{Levels, IsBefore, IsBehind, Own, Thread}
use victory_db.SkipList.Concurrent.Reading.{Next}
use victory_db.SkipList.Concurrent.Searching.{quiet}
use victory_db.SkipList.Concurrent.Splitting.{Split, IsBefore-Split, after-FirstNotLess, slot-first}
use victory_db.SkipList.Concurrent.Splicing.{
  spliced, spliced-Moves, spliced-Levels, spliced-Refines, advance-tall, advance-Thread,
}

module _ (c : Comparator) (Valid : Bytes → Type 0) (law : IsLawful c Valid) (head : Ptr)
    (task : Task) (key_valid : Valid task.key) (x : Ptr) (s : SkipList) (lists : ℕ → List Ptr)
    (root : s.head ≡ head) (top : s.max_level ≤ max_head_height)
    (levels : Levels c Valid head s.heap lists) (height k : ℕ) (t : TraversalCtx)
    (is : Thread c head task s.heap lists x (exchanging height k t)) where
  own : Own c head task s.heap lists x k height
  own = is.own height refl

  low : k < max_head_height
  low = let high = own.high in let less = is.knows.0 in omega arith

  abbrev At : Type 0
  At = Split c Valid law head task.key key_valid s.heap lists levels k low (t.predecessors k)

  -- The slot of the node points to what stands behind its place.
  slot :
      (split : At)
      → first split.after ≡ t.successors k
      → load_next s.heap x k ≡ ok (first split.after)
  slot split hit = elim is.knows.2 [
    | inr stored ↦ stored ∙ ap ok (sym hit)
    | inl end ↦
        let (q, load, behind) = own.slots k (omega arith) is.knows.0 in
        load
        ∙ ap ok (
            slot-first c Valid law head task.key key_valid s.heap lists levels k low
              (t.predecessors k) split.before split.after q split.whole split.lesser split.chain
              (hit ∙ end) behind)
  ]

  behind :
      (split : At)
      → first split.after ≡ t.successors k
      → IsBehind c head task.key s.heap lists k (first split.after)
  behind split hit = subst (IsBehind c head task.key s.heap lists k) (sym hit) (is.knows.1 k).1

  sorted :
      (split : At)
      → first split.after ≡ t.successors k
      → Sorted c s.heap (split.before ++ (x ∷ split.after))
  sorted split hit =
      let us = split.before in
      let vs = split.after in
      let old = subst (Sorted c s.heap) split.whole (levels.sorted k) in
      let valid = subst (All (λ q. Valid (key_of s.heap q))) split.whole (levels.valid k) in
      Sorted-insert c s.heap task.key task.value x own.key_there own.value_there Valid law key_valid
        us vs old valid split.lesser
        (rest-NotLess c Valid law s.heap task.key vs key_valid
          (Sorted-right c Valid law s.heap us vs old)
          (All-right c Valid law (λ q. Valid (key_of s.heap q)) us vs valid)
          (after-FirstNotLess c Valid law head task.key key_valid s.heap lists levels k low
            (t.predecessors k) vs split.chain (behind split hit)))

  hit-Next :
      (split : At)
      → (first split.after == t.successors k) ≡ true
      → Next c Valid head task x s lists (exchanging height k t)
  unfolding insert_step compare_exchange
  hit-Next split hit =
      let us = split.before in
      let vs = split.after in
      let same : first vs ≡ t.successors k = ground (arith, hit) in
      let (h', eq, store) = store_next-Stored s.heap (t.predecessors k) k (first vs) x split.load in
      let stored : Stored s.heap (last head us) k x h' =
        subst (λ (p : Ptr). Stored s.heap p k x h') (sym split.ends) store in
      let at = subst (IsBefore c head task.key s.heap lists k) (sym split.ends) (is.knows.1 k).0 in
      let chain =
        Chain-splice s.heap h' k head x us vs
          (subst (Chain s.heap k head) split.whole (levels.chains k low)) (slot split same)
          own.not_null own.not_head
          (λ there. is.without k (omega arith) (subst (Has x) (sym split.whole) there)) stored in
      record {
        list = record s { heap = h' };
        at = advance height k t;
        nodes =
            spliced c Valid law head task key_valid x s lists levels height k t is us vs split.whole
              h' stored;
        runs = rw (split.load, hit, eq) refl;
        root = root;
        top = top;
        levels =
            spliced-Levels c Valid law head task key_valid x s lists levels height k t is us vs
              split.whole h' stored chain (sorted split same);
        moves =
            spliced-Moves c Valid law head task key_valid x s lists levels height k t is us vs
              split.whole h' stored at;
        grown = omega arith;
        tall = λ m e. inl (
            advance-tall c Valid law head task key_valid x s lists levels height k t is us vs
              split.whole h' stored m e);
        refines =
            spliced-Refines c Valid law head task key_valid x s lists levels height k t is us vs
              split.whole h' stored split.lesser
              (after-FirstNotLess c Valid law head task.key key_valid s.heap lists levels k low
                (t.predecessors k) vs split.chain (behind split same));
        thread =
            advance-Thread c Valid law head task key_valid x s lists levels height k t is us vs
              split.whole h' stored;
      }

  pub exchanging-Next : Next c Valid head task x s lists (exchanging height k t)
  unfolding insert_step compare_exchange
  exchanging-Next =
      let split =
        IsBefore-Split c Valid law head task.key key_valid s.heap lists levels k low
          (t.predecessors k) (is.knows.1 k).0 in
      elim (Bool-cases (first split.after == t.successors k)) [
        | inl hit ↦ hit-Next split hit
        | inr miss ↦
            quiet c Valid law head task key_valid x s lists root top levels (exchanging height k t)
              (finding (linking height k)) is (rw (split.load, miss) refl) refl refl is.knows.0
      ]
