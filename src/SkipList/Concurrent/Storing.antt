-- ===== src/SkipList/Concurrent/Storing.antt =====
-- The store of the successor into the tower of a node that is not linked there yet
-- (crates/engine/src/memtable/skip_list.rs), while others are at work.
use victory_db.Base.{
  ℕ, ◌≤◌, ◌≡◌, refl, sym, subst, ◌∙◌, inl, inr, List, Bytes, arith, ◌==◌, Bool-cases,
}
use victory_db.Base.Run.{ok}
use native.Mathlib.Decide.{ℕ_discrete}
use victory_db.Key.Comparator.{Comparator, IsLawful}
use victory_db.SkipList.Node.{Ptr, null, Heap, load_next, max_head_height}
use victory_db.SkipList.Search.{SkipList, TraversalCtx}
use victory_db.SkipList.Chain.{Has}
use victory_db.SkipList.Insert.{link_successor}
use victory_db.SkipList.Insert.Stored.{Stored, store_next-Stored}
use victory_db.SkipList.Insert.Entries.{contents-AgreeOn}
use victory_db.SkipList.Concurrent.{Task, storing, exchanging, insert_step}
use victory_db.SkipList.Concurrent.Invariant.{Levels, IsBehind, Own, Thread}
use victory_db.SkipList.Concurrent.Evolve.{Moves, IsAround-grows, IsBehind-grows}
use victory_db.SkipList.Concurrent.Reading.{Next}
use victory_db.SkipList.Concurrent.Searching.{quiet}
use victory_db.SkipList.Concurrent.Placing.{levels-AgreeOn, Levels-agree, height_inj}

module _ (c : Comparator) (Valid : Bytes → Type 0) (law : IsLawful c Valid) (head : Ptr)
    (task : Task) (key_valid : Valid task.key) (x : Ptr) (s : SkipList) (lists : ℕ → List Ptr)
    (root : s.head ≡ head) (top : s.max_level ≤ max_head_height)
    (levels : Levels c Valid head s.heap lists) (height k : ℕ) (t : TraversalCtx)
    (is : Thread c head task s.heap lists x (storing height k t)) where
  own : Own c head task s.heap lists x k height
  own = is.own height refl

  -- A store into a slot that no chain leads through.
  module _ (q : Ptr) (h' : Heap) (stored : Stored s.heap x k q h') where
    Stored-Moves : Moves head x s.heap h' lists lists
    Stored-Moves = record {
      keys = λ p d. stored.entries.keys p;
      listed = λ j p there. stored.entries.keys p;
      values = λ p d. stored.entries.values p;
      grows = λ j p there. there;
      others = λ j p d there. there;
      slots = λ j p d away out. stored.other p j (inl d);
    }

    Stored-Levels : Levels c Valid head h' lists
    Stored-Levels =
        Levels-agree c Valid head s.heap h' lists
          (λ j p there. (stored.entries.keys p, stored.entries.values p)) levels
          (λ j p low at. stored.other p j (elim (ℕ_discrete j k) [
            | no d ↦ inr d
            | yes e ↦ inl (elim at [
              | inl e' ↦ λ same. own.not_head (sym same ∙ e')
              | inr there ↦ λ same.
                  is.without j (omega (arith, e)) (subst (λ (r : Ptr). Has r (lists j)) same there)
            ])
          ]))

    behind :
        (j : ℕ) (r : Ptr)
        → IsBehind c head task.key s.heap lists j r
        → IsBehind c head task.key h' lists j r
    behind =
        IsBehind-grows c head task.key s.heap h' lists lists Stored-Moves.listed Stored-Moves.grows

    Stored-Own : IsBehind c head task.key s.heap lists k q → Own c head task h' lists x k height
    Stored-Own after = record {
      not_null = own.not_null;
      not_head = own.not_head;
      key_there = stored.entries.keys x ∙ own.key_there;
      value_there = stored.entries.values x ∙ own.value_there;
      low = own.low;
      high = own.high;
      slots = λ j l m. elim (ℕ_discrete j k) [
        | yes e ↦
            subst
              (λ (i : ℕ).
                (r : Ptr) × (load_next h' x i ≡ ok r) × IsBehind c head task.key h' lists i r)
              (sym e) (q, stored.there, behind k q after)
        | no d ↦
            let (r, load, back) = own.slots j l m in
            (r, stored.other x j (inr d) ∙ load, behind j r back)
      ];
    }

  pub storing-Next : Next c Valid head task x s lists (storing height k t)
  unfolding insert_step link_successor
  storing-Next =
      let (low, around) = is.knows in
      let succ = t.successors k in
      elim (Bool-cases (succ == null)) [
        | inl end ↦
            quiet c Valid law head task key_valid x s lists root top levels (storing height k t)
              (exchanging height k t) is (rw (end) refl) refl refl
              (low, around, inl (ground (arith, end)))
        | inr node ↦
            let (r, load, back) = own.slots k (omega arith) low in
            let (h', eq, stored) = store_next-Stored s.heap x k r succ load in
            let moves = Stored-Moves succ h' stored in
            record {
              list = record s { heap = h' };
              at = exchanging height k t;
              nodes = lists;
              runs = rw (node, eq) refl;
              root = root;
              top = top;
              levels = Stored-Levels succ h' stored;
              moves = moves;
              thread = record {
                within = is.within;
                without = is.without;
                own = λ m e.
                    subst (Own c head task h' lists x k) (height_inj height m e)
                      (Stored-Own succ h' stored (around k).1);
                knows = (
                  low,
                  IsAround-grows c head task.key s.heap h' lists lists moves.listed moves.grows t
                      around,
                  inr stored.there,
                );
              };
              grown = omega arith;
              tall = λ m e. inl e;
              refines = inl (
                refl,
                contents-AgreeOn s.heap h' (lists 0) (
                    levels-AgreeOn c Valid head s.heap h' lists
                      (λ j p there. (stored.entries.keys p, stored.entries.values p)) levels 0),
              );
            }
      ]
