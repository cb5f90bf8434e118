-- ===== src/SkipList/Concurrent/Placing.antt =====
-- The height and the node of an insertion (crates/engine/src/memtable/skip_list.rs), made while
-- others are at work.
use victory_db.Base.{
  ℕ, ◌^◌, ◌≤◌, ◌<◌, ◌≡◌, ◌≢◌, refl, sym, ap, subst, ◌∙◌, ◌⊎◌, inl, inr, Option, none, some, true,
  List, Bytes, length, arith, ltb, All,
}
use victory_db.Base.Run.{ok}
use victory_db.Key.Comparator.{Comparator}
use victory_db.SkipList.Node.{Ptr, null, Heap, deref, load_next, max_head_height}
use victory_db.SkipList.Search.{SkipList, TraversalCtx}
use victory_db.SkipList.Level.{generate_random_level_bounds}
use victory_db.SkipList.Chain.{Has, All-Has, All-of_Has}
use victory_db.SkipList.Invariant.{key_of, value_of}
use victory_db.SkipList.Insert.{next_height}
use victory_db.SkipList.Insert.Stored.{Placed, alloc_node-Placed}
use victory_db.SkipList.Insert.Splice.{Chain-agree}
use victory_db.SkipList.Insert.Entries.{contents-AgreeOn, AgreeOn, Sorted-AgreeOn}
use victory_db.SkipList.Concurrent.{
  Task, linking, Pc, starting, finding, placing, storing, insert_step, place_step,
}
use victory_db.SkipList.Concurrent.Invariant.{levels_linked, height_of, Levels, PcOk, Own, Thread}
use victory_db.SkipList.Concurrent.Evolve.{Moves, IsAround-grows}
use victory_db.SkipList.Concurrent.Reading.{Next, IsBefore-Follows}

-- The keys and values of the nodes on the levels are the same in two heaps.
abbrev pub AgreeOnLevels : Heap → Heap → (ℕ → List Ptr) → Type 0
AgreeOnLevels h h' lists =
    (j : ℕ) (p : Ptr)
    → Has p (lists j)
    → (key_of h' p ≡ key_of h p) × (value_of h' p ≡ value_of h p)

module _ (c : Comparator) (Valid : Bytes → Type 0) (head : Ptr) (h h' : Heap) (lists : ℕ → List Ptr)
    (agree : AgreeOnLevels h h' lists) (levels : Levels c Valid head h lists) where
  pub levels-AgreeOn : (j : ℕ) → AgreeOn h h' (lists j)
  levels-AgreeOn j =
      All-of_Has (λ p. (key_of h' p ≡ key_of h p) × (value_of h' p ≡ value_of h p)) (lists j)
        (agree j)

  pub valid_agree : (j : ℕ) → All (λ p. Valid (key_of h' p)) (lists j)
  valid_agree j =
      All-of_Has (λ p. Valid (key_of h' p)) (lists j)
        (λ p there.
          subst Valid (sym (agree j p there).0)
            (All-Has (λ q. Valid (key_of h q)) (lists j) (levels.valid j) p there))

  -- Levels depend on the slots of their own nodes only.
  pub Levels-agree :
      ((j : ℕ) (p : Ptr)
        → j < max_head_height
        → (p ≡ head) ⊎ Has p (lists j)
        → load_next h' p j ≡ load_next h p j)
      → Levels c Valid head h' lists
  Levels-agree same = record {
    chains = λ j low.
        Chain-agree h h' j head (lists j) (λ p there. same j p low there) (levels.chains j low);
    sorted = λ j. Sorted-AgreeOn c h h' (lists j) (levels-AgreeOn j) (levels.sorted j);
    valid = valid_agree;
    nested = levels.nested;
  }

pub height_inj : (m n : ℕ) → ◌≡◌ {A = Option ℕ} (some m) (some n) → m ≡ n
height_inj m n e = cc

load-there : (h : Heap) (p : Ptr) (j : ℕ) (q : Ptr) → load_next h p j ≡ ok q → h p ≢ none
unfolding load_next deref
load-there h p j q e = λ gone. ground arith

-- Only the number of entries, the seed and the maximum level change, and the last stays in bounds.
next_height-ok :
    (s : SkipList)
    → s.max_level ≤ max_head_height
    → ((next_height s).1.heap ≡ s.heap)
      × ((next_height s).1.head ≡ s.head)
      × ((next_height s).1.max_level ≤ max_head_height)
      × (1 ≤ (next_height s).0)
      × ((next_height s).0 ≤ max_head_height)
      × (s.max_level ≤ (next_height s).1.max_level)
      × ((next_height s).0 ≤ (next_height s).1.max_level)
unfolding next_height
next_height-ok s top =
    let (low, high, more) = generate_random_level_bounds s.head s.seed s.max_level in
    (
      refl,
      refl,
      omega (arith, more, high, top),
      low,
      omega (arith, high),
      omega (arith, more),
      omega (arith, more),
    )

module _ (c : Comparator) (Valid : Bytes → Type 0) (head : Ptr) (task : Task)
    (short : length task.key < 2 ^ 16) (small : length task.value < 2 ^ 32) (x : Ptr)
    (not_null : x ≢ null) (s : SkipList) (lists : ℕ → List Ptr) (root : s.head ≡ head)
    (top : s.max_level ≤ max_head_height) (levels : Levels c Valid head s.heap lists)
    (fresh : s.heap x ≡ none) where
  not_head : x ≢ head
  not_head e =
      let (q, load, next) =
        IsBefore-Follows c Valid head s.heap lists levels task.key 0 x (omega arith) (inl e) in
      load-there s.heap x 0 q load fresh

  apart : ((j : ℕ) → Has x (lists j) → ⊥) → (j : ℕ) (p : Ptr) → Has p (lists j) → p ≢ x
  apart out j p there e = out j (subst (λ (q : Ptr). Has q (lists j)) e there)

  Placed-agree :
      (height : ℕ) (h' : Heap)
      → ((j : ℕ) → Has x (lists j) → ⊥)
      → Placed s.heap x height task.key task.value h'
      → AgreeOnLevels s.heap h' lists
  Placed-agree height h' out placed =
      λ j p there. (placed.keys p (apart out j p there), placed.values p (apart out j p there))

  -- A new node changes nothing for the others.
  Placed-Moves :
      (height : ℕ) (h' : Heap)
      → ((j : ℕ) → Has x (lists j) → ⊥)
      → Placed s.heap x height task.key task.value h'
      → Moves head x s.heap h' lists lists
  Placed-Moves height h' out placed = record {
    keys = placed.keys;
    listed = λ j p there. placed.keys p (apart out j p there);
    values = placed.values;
    grows = λ j p there. there;
    others = λ j p d there. there;
    slots = λ j p d e away. placed.other p j d;
  }

  Placed-Levels :
      (height : ℕ) (h' : Heap)
      → ((j : ℕ) → Has x (lists j) → ⊥)
      → Placed s.heap x height task.key task.value h'
      → Levels c Valid head h' lists
  Placed-Levels height h' out placed =
      Levels-agree c Valid head s.heap h' lists (Placed-agree height h' out placed) levels
        (λ j p low at.
          placed.other p j
            (elim at [ inl e ↦ λ same. not_head (sym same ∙ e) | inr there ↦ apart out j p there ]))

  Placed-Own :
      (height : ℕ) (h' : Heap) (linked : ℕ)
      → 1 ≤ height
      → height ≤ max_head_height
      → Placed s.heap x height task.key task.value h'
      → Own c head task h' lists x linked height
  Placed-Own height h' linked low high placed = record {
    not_null = not_null;
    not_head = not_head;
    key_there = placed.key_there;
    value_there = placed.value_there;
    low = low;
    high = high;
    slots = λ j k l. (null, placed.empty j l, inl refl);
  }

  -- The step that makes the node, from where the insertion has none.
  place-Next :
      (pc : Pc) (next : ℕ → Pc)
      → Thread c head task s.heap lists x pc
      → insert_step c x task s pc ≡ place_step c x task s next
      → levels_linked pc ≡ 0
      → ((height : ℕ) → levels_linked (next height) ≡ 0)
      → ((height : ℕ) → height_of (next height) ≡ some height)
      → ((height : ℕ) (h' : Heap)
          → 1 ≤ height
          → Moves head x s.heap h' lists lists
          → PcOk c head task.key h' lists x (next height))
      → Next c Valid head task x s lists pc
  unfolding place_step
  place-Next pc next is runs unlinked still tall knows =
      let (same_heap, same_head, top', low, high, more, fits) = next_height-ok s top in
      let height = (next_height s).0 in
      let (h', eq, placed) =
        alloc_node-Placed s.heap x height task.key task.value not_null short small in
      let out : (j : ℕ) → Has x (lists j) → ⊥ = λ j. is.without j (omega (arith, unlinked)) in
      let moves = Placed-Moves height h' out placed in
      record {
        list = record (next_height s).1 { heap = h' };
        at = next height;
        nodes = lists;
        runs = runs ∙ rw (same_heap, eq) refl;
        root = same_head ∙ root;
        top = top';
        levels = Placed-Levels height h' out placed;
        moves = moves;
        thread = record {
          within = λ j l. absurd (omega (arith, still height));
          without = λ j l. out j;
          own = λ k e.
              subst (Own c head task h' lists x (levels_linked (next height)))
                (height_inj height k (sym (tall height) ∙ e))
                (Placed-Own height h' (levels_linked (next height)) low high placed);
          knows = knows height h' low moves;
        };
        grown = more;
        tall = λ k e. inr (omega (arith, fits, height_inj height k (sym (tall height) ∙ e)));
        refines = inl (
          ap (λ (n : ℕ). ltb 0 n) (still height ∙ sym unlinked),
          contents-AgreeOn s.heap h' (lists 0) (
              levels-AgreeOn c Valid head s.heap h' lists (Placed-agree height h' out placed) levels
                0),
        );
      }

  pub starting-Next :
      Thread c head task s.heap lists x starting
      → task.with_closure ≡ true
      → Next c Valid head task x s lists starting
  unfolding insert_step
  starting-Next is first_node =
      place-Next starting (λ height. finding (linking height 0)) is (rw first_node refl) refl
        (λ height. refl) (λ height. refl) (λ height h' low moves. omega (arith, low))

  pub placing-Next :
      (t : TraversalCtx)
      → Thread c head task s.heap lists x (placing t)
      → Next c Valid head task x s lists (placing t)
  unfolding insert_step
  placing-Next t is =
      place-Next (placing t) (λ height. storing height 0 t) is refl refl (λ height. refl)
        (λ height. refl)
        (λ height h' low moves. (
          omega (arith, low),
          IsAround-grows c head task.key s.heap h' lists lists moves.listed moves.grows t is.knows,
        ))
