-- ===== src/SkipList/Found.antt =====
-- What `search` finds on a well-formed skip list (crates/engine/src/memtable/skip_list.rs).
use victory_db.Base.{
  ℕ, zero, suc, ◌≤◌, ◌<◌, ◌≡◌, refl, subst, ◌∙◌, inl, inr, none, List, [], All, length, Bytes,
  arith,
}
use victory_db.Base.Run.{ok}
use native.Mathlib.Decide.{dec_lt}
use victory_db.Key.Comparator.{Comparator, IsLawful}
use victory_db.SkipList.Node.{Ptr, null, Heap, max_head_height, set_level}
use victory_db.SkipList.Search.{SkipList, TraversalCtx, search_levels, first_ctx, search}
use victory_db.SkipList.Chain.{Chain, Has, All-of_Has}
use victory_db.SkipList.Invariant.{key_of, Sorted, Cut, IsSkipList}
use victory_db.SkipList.Walk.{Spot, level-ok, start_level-ok}

set_level-same : (f : ℕ → Ptr) (level : ℕ) (p : Ptr) → set_level f level p level ≡ p
set_level-same f level p = ground arith

set_level-other :
    (f : ℕ → Ptr) (level : ℕ) (p : Ptr) (i : ℕ) → suc level ≤ i → set_level f level p i ≡ f i
set_level-other f level p i le = ground arith

module _ (c : Comparator) (Valid : Bytes → Type 0) (law : IsLawful c Valid) (key : Bytes)
    (key_valid : Valid key) (h : Heap) (head : Ptr) (lists : ℕ → List Ptr) where
  -- What the search uses of a list.
  pub record Levels (fuel : ℕ) : Type 0 where
    pub chains : (level : ℕ) → level < max_head_height → Chain h level head (lists level)
    pub sorted : (level : ℕ) → Sorted c h (lists level)
    pub nested : (level : ℕ) (p : Ptr) → Has p (lists (suc level)) → Has p (lists level)
    pub valid : (level : ℕ) → All (λ x. Valid (key_of h x)) (lists level)
    pub sizes : (level : ℕ) → level < max_head_height → length (lists level) < fuel

  abbrev pub SpotAt : ℕ → Ptr → Type 0
  SpotAt level p = Spot c Valid law key key_valid h head (lists level) p

  spot_below :
      {fuel : ℕ} (ls : Levels fuel) (level : ℕ) (p : Ptr) → SpotAt (suc level) p → SpotAt level p
  spot_below ls level p (inl e) = inl e
  spot_below ls level p (inr (there, l)) = inr (ls.nested level p there, l)

  abbrev pub CutAt : ℕ → TraversalCtx → Type 0
  CutAt level t = Cut c h key head (lists level) (t.predecessors level) (t.successors level)

  -- From the spot of its first level the loop finds the cut of every level below, and leaves the
  -- levels above as they were.
  pub search_levels-ok :
      (fuel : ℕ) (ls : Levels fuel) (level : ℕ) (p : Ptr) (t : TraversalCtx)
      → level ≤ max_head_height
      → ((below : ℕ) → level ≡ suc below → SpotAt below p)
      → (t' : TraversalCtx) × (search_levels c fuel h key level p t ≡ ok t')
        × (t'.searched_node ≡ t.searched_node)
        × ((i : ℕ) → i < level → CutAt i t')
        × ((i : ℕ)
            → level ≤ i
            → (t'.predecessors i ≡ t.predecessors i) × (t'.successors i ≡ t.successors i))
  unfolding search_levels
  search_levels-ok fuel ls zero p t le spot =
      (t, refl, refl, λ i l. absurd (omega arith), λ i l. (refl, refl))
  search_levels-ok fuel ls (suc level) p t le spot =
      let (first_ptr, pred, succ, e, w, cut, below) =
        level-ok c Valid law key key_valid fuel h level head p (lists level)
          (ls.chains level (omega arith)) (ls.sorted level) (ls.valid level)
          (ls.sizes level (omega arith)) (spot level refl) in
      let t1 : TraversalCtx = record t {
        predecessors = set_level t.predecessors level pred;
        successors = set_level t.successors level succ;
      } in
      let (t', eq, same, cuts, rest) =
        search_levels-ok fuel ls level pred t1 (omega arith)
          (λ b e'. spot_below ls b pred (subst (λ (i : ℕ). SpotAt i pred) e' below)) in
      (
        t',
        rw (e, w) eq,
        same,
        λ i l. elim (dec_lt i level) [
          | yes small ↦ cuts i small
          | no large ↦
              let (a, b) = rest level (omega arith) in
              let same_level : level ≡ i = omega arith in
              subst (λ (j : ℕ). CutAt j t') same_level
                (record {
                  before = cut.before;
                  after = cut.after;
                  whole = cut.whole;
                  lesser = cut.lesser;
                  rest = cut.rest;
                  pred = a ∙ set_level-same t.predecessors level pred ∙ cut.pred;
                  succ = b ∙ set_level-same t.successors level succ ∙ cut.succ;
                })
        ],
        λ i l.
            let (a, b) = rest i (omega arith) in
            (
              a ∙ set_level-other t.predecessors level pred i l,
              b ∙ set_level-other t.successors level succ i l,
            ),
      )

module _ (c : Comparator) (Valid : Bytes → Type 0) (law : IsLawful c Valid) where
  pub to_bottom :
      (s : SkipList) (lists : ℕ → List Ptr) (is : IsSkipList c Valid s lists) (level : ℕ) (p : Ptr)
      → Has p (lists level)
      → Has p (lists 0)
  to_bottom s lists is zero p there = there
  to_bottom s lists is (suc level) p there = to_bottom s lists is level p (is.nested level p there)

  Levels-of :
      (fuel : ℕ) (s : SkipList) (lists : ℕ → List Ptr) (key : Bytes) (key_valid : Valid key)
      → IsSkipList c Valid s lists
      → s.entries < fuel
      → Levels c Valid law key key_valid s.heap s.head lists fuel
  Levels-of fuel s lists key key_valid is enough = record {
    chains = is.chains;
    sorted = is.sorted;
    nested = is.nested;
    valid = λ level.
        All-of_Has (λ p. Valid (key_of s.heap p)) (lists level)
          (λ p there. is.valid p (to_bottom s lists is level p there));
    sizes = λ level l. let b = is.sizes level in omega arith;
  }

  empty-Cut :
      (h : Heap) (key : Bytes) (head : Ptr) (xs : List Ptr) (p q : Ptr)
      → xs ≡ []
      → p ≡ head
      → q ≡ null
      → Cut c h key head xs p q
  empty-Cut h key head xs p q none_there e f = record {
    before = [];
    after = [];
    whole = none_there;
    lesser = tt;
    rest = tt;
    pred = e;
    succ = f;
  }

  -- Above the levels in use the cut is that of the empty list.
  pub search-Cut_all :
      (fuel : ℕ) (s : SkipList) (lists : ℕ → List Ptr) (key : Bytes)
      → IsSkipList c Valid s lists
      → Valid key
      → s.entries < fuel
      → (t : TraversalCtx) × (search c fuel s key ≡ ok t)
        × (t.searched_node ≡ none)
        × ((level : ℕ)
            → Cut c s.heap key s.head (lists level) (t.predecessors level) (t.successors level))
  unfolding search
  search-Cut_all fuel s lists key is key_valid enough =
      let le = is.top in
      let (start, eq, below, none_there) =
        start_level-ok s.heap s.head lists s.max_level (λ level l. is.chains level (omega arith)) in
      let (t, found, same, cuts, rest) =
        search_levels-ok c Valid law key key_valid s.heap s.head lists fuel
          (Levels-of fuel s lists key key_valid is enough) start s.head (first_ctx c s.head)
          (omega arith) (λ b e. inl refl) in
      (
        t,
        rw eq found,
        same,
        λ level. elim (dec_lt level start) [
          | yes inside ↦ cuts level inside
          | no above ↦
              let (a, b) = rest level (omega arith) in
              empty-Cut s.heap key s.head (lists level) (t.predecessors level) (t.successors level)
                (elim (dec_lt level s.max_level) [
                  | yes used ↦ none_there level (omega arith) used
                  | no unused ↦ is.empty level (omega arith)
                ])
                a b
        ],
      )

  -- On a well-formed list, with more fuel than entries, `search` returns, it has set no
  -- `searched_node`, and on each of the eight levels its predecessor and successor are the nodes
  -- between which the keys stop to be less than the key: all nodes up to the predecessor (or the
  -- head) are less, and the successor (or null) is not.
  pub search-Cut :
      (fuel : ℕ) (s : SkipList) (lists : ℕ → List Ptr) (key : Bytes)
      → IsSkipList c Valid s lists
      → Valid key
      → s.entries < fuel
      → (t : TraversalCtx) × (search c fuel s key ≡ ok t)
        × (t.searched_node ≡ none)
        × ((level : ℕ)
            → level < max_head_height
            → Cut c s.heap key s.head (lists level) (t.predecessors level) (t.successors level))
  search-Cut fuel s lists key is key_valid enough =
      let (t, found, unset, cuts) = search-Cut_all fuel s lists key is key_valid enough in
      (t, found, unset, λ level l. cuts level)
