-- ===== src/SkipList/Insert/Links.antt =====
-- The loops that link a new node level by level (crates/engine/src/memtable/skip_list.rs).
use victory_db.Base.{
  ℕ, zero, suc, ◌+◌, ◌-◌, ◌≤◌, ◌<◌, ◌≡◌, ◌≢◌, refl, sym, subst, ◌∙◌, inl, inr, some, List, ◌∷◌,
  ◌++◌, Bytes, arith,
}
use victory_db.Base.Run.{ok}
use native.Mathlib.Decide.{dec_lt}
use victory_db.Key.Comparator.{Comparator}
use victory_db.SkipList.Node.{Ptr, null, Heap, max_head_height, load_next}
use victory_db.SkipList.Search.{SkipList, TraversalCtx}
use victory_db.SkipList.Chain.{Chain, Has, last, first, load-first, Chain-after}
use victory_db.SkipList.Insert.{
  compare_exchange, link_successor, link_base, link_level, link_levels, link_node,
}
use victory_db.SkipList.Insert.Stored.{
  SameEntries, Stored, link_successor-Stored, compare_exchange-Stored,
}
use victory_db.SkipList.Insert.Splice.{Chain-agree, Chain-splice}

pub SameEntries-trans : (g h k : Heap) → SameEntries g h → SameEntries h k → SameEntries g k
SameEntries-trans g h k a b = record {
  free = λ p e. b.free p (a.free p e);
  keys = λ p. b.keys p ∙ a.keys p;
  values = λ p. b.values p ∙ a.values p;
  sizes = λ p. b.sizes p ∙ a.sizes p;
}

-- The node `x` is linked on the levels below `k`, between the nodes before and after it, and not on
-- those from there on; nothing else changed since `h0`.
pub record Links (h0 : Heap) (head x : Ptr) (before after : ℕ → List Ptr) (height k : ℕ) (h : Heap)
    : Type 0 where
  pub low : (j : ℕ) → j < k → Chain h j head (before j ++ (x ∷ after j))
  pub high : (j : ℕ) → k ≤ j → j < max_head_height → Chain h j head (before j ++ after j)
  pub free : (j : ℕ) → k ≤ j → j < height → load_next h x j ≡ ok null
  pub entries : SameEntries h0 h

-- What a search gave for the place of the node `x`, which is on no level yet.
pub record IsPlace (head x : Ptr) (before after : ℕ → List Ptr) (t : TraversalCtx) : Type 0 where
  pub ne_null : x ≢ null
  pub ne_head : x ≢ head
  pub out : (j : ℕ) → Has x (before j ++ after j) → ⊥
  pub preds : (j : ℕ) → t.predecessors j ≡ last head (before j)
  pub succs : (j : ℕ) → t.successors j ≡ first (after j)

module _ (h0 : Heap) (head x : Ptr) (before after : ℕ → List Ptr) (height : ℕ) (t : TraversalCtx)
    (place : IsPlace head x before after t) (few : height ≤ max_head_height) where
  abbrev LinksAt : ℕ → Heap → Type 0
  LinksAt k h = Links h0 head x before after height k h

  -- Two stores at a level leave a chain of another level.
  other_level :
      (h h1 h2 : Heap) (k j : ℕ) (p q r : Ptr) (xs : List Ptr)
      → j ≢ k
      → Stored h x k q h1
      → Stored h1 p k r h2
      → Chain h j head xs
      → Chain h2 j head xs
  other_level h h1 h2 k j p q r xs d a b ch =
      Chain-agree h1 h2 j head xs (λ o w. b.other o j (inr d))
        (Chain-agree h h1 j head xs (λ o w. a.other o j (inr d)) ch)

  own_level :
      (h h1 : Heap) (k : ℕ) (q : Ptr)
      → Stored h x k q h1
      → Chain h k head (before k ++ after k)
      → Chain h1 k head (before k ++ after k)
  own_level h h1 k q a ch =
      Chain-agree h h1 k head (before k ++ after k)
        (λ o w. a.other o k (
          inl (λ e. elim w [
            | inl here ↦ place.ne_head (sym e ∙ here)
            | inr there ↦ place.out k (subst (λ (y : Ptr). Has y (before k ++ after k)) e there)
          ])))
        ch

  -- The two stores of one level.
  link_one :
      (k : ℕ) (h : Heap)
      → k < height
      → LinksAt k h
      → (h1 : Heap) × (h2 : Heap) × (link_successor h x k (t.successors k) ≡ ok h1)
        × (compare_exchange h1 (t.predecessors k) k (t.successors k) x ≡ ok (some h2))
        × LinksAt (suc k) h2
  link_one k h small links =
      let q = first (after k) in
      let p = last head (before k) in
      let (h1, eq1, a) = link_successor-Stored h x k q (links.free k (omega arith) small) in
      let own = own_level h h1 k q a (links.high k (omega arith) (omega arith)) in
      let slot = load-first h1 k p (after k) (Chain-after h1 k head (before k) (after k) own) in
      let (h2, eq2, b) = compare_exchange-Stored h1 p k q x slot in
      (
        h1,
        h2,
        rw (place.succs k) eq1,
        rw (place.succs k, place.preds k) eq2,
        record {
          low = λ j l. elim (dec_lt j k) [
            | yes below ↦
                other_level h h1 h2 k j p q x (before j ++ (x ∷ after j)) (omega arith) a b
                  (links.low j below)
            | no above ↦
                let e : k ≡ j = omega arith in
                subst (λ (i : ℕ). Chain h2 i head (before i ++ (x ∷ after i))) e
                  (Chain-splice h1 h2 k head x (before k) (after k) own a.there place.ne_null
                    place.ne_head (place.out k) b)
          ];
          high = λ j l m.
              other_level h h1 h2 k j p q x (before j ++ after j) (omega arith) a b
                (links.high j (omega arith) m);
          free = λ j l m.
              b.other x j (inr (omega arith))
              ∙ a.other x j (inr (omega arith))
              ∙ links.free j (omega arith) m;
          entries =
              SameEntries-trans h0 h h2 links.entries
                (SameEntries-trans h h1 h2 a.entries b.entries);
        },
      )

  module _ (c : Comparator) (fuel rounds : ℕ) (s : SkipList) (key : Bytes) where
    link_levels-Links :
        (left k : ℕ) (h : Heap)
        → k + left ≡ height
        → LinksAt k h
        → (h' : Heap) × (link_levels c fuel s key x (suc rounds) left k h t ≡ ok h')
          × LinksAt height h'
    unfolding link_levels link_level
    link_levels-Links zero k h e links =
        let same : k ≡ height = omega arith in (h, refl, subst (λ (i : ℕ). LinksAt i h) same links)
    link_levels-Links (suc left) k h e links =
        let (h1, h2, eq1, eq2, links') = link_one k h (omega arith) links in
        let next : suc k ≡ k + 1 = omega arith in
        let (h3, eq3, done) =
          link_levels-Links left (k + 1) h2 (omega arith)
            (subst (λ (i : ℕ). LinksAt i h2) next links') in
        (h3, rw (eq1, eq2) eq3, done)

    -- One thread links the node on all of its levels without a retry.
    pub link_node-Links :
        1 ≤ height
        → LinksAt 0 h0
        → (h : Heap) × (link_node c fuel s key x (suc rounds) height h0 t
            ≡ ok (x, record s { heap = h }))
          × LinksAt height h
    unfolding link_node link_base
    link_node-Links one links =
        let (h1, h2, eq1, eq2, links') = link_one 0 h0 (omega arith) links in
        let (h3, eq3, done) = link_levels-Links (height - 1) 1 h2 (omega arith) links' in
        (h3, rw (eq1, eq2, eq3), done)
