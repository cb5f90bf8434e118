-- ===== src/SkipList/Concurrent/Readers.antt =====
-- A search (crates/engine/src/memtable/skip_list.rs) between the accesses of insertions: it misses
-- nothing that was linked when it began. The first search of `insert`, which `search_node` makes as
-- well, is followed up to its result.
use victory_db.Base.{
  ℕ, zero, suc, ◌≡◌, refl, sym, ap, subst, ◌∙◌, inl, inr, true, false, List, [], ◌∷◌, Bytes, All,
  arith, Bool-cases,
}
use victory_db.Base.Run.{ok, ok_inj}
use victory_db.Key.Comparator.{Comparator, less, IsLawful}
use victory_db.SkipList.Node.{Ptr, null, Heap, load_next}
use victory_db.SkipList.Search.{SkipList}
use victory_db.SkipList.Chain.{Has, first, Has-append, Has-append_right, All-Has}
use victory_db.SkipList.Invariant.{key_of, Sorted}
use victory_db.SkipList.Iteration.{Sorted-right, All-right}
use victory_db.SkipList.Concurrent.{
  Task, before, linking, Pc, starting, finding, descending, row, walking, placing, storing,
  exchanging, done,
}
use victory_db.SkipList.Concurrent.Invariant.{Levels, IsBefore}
use victory_db.SkipList.Concurrent.Splitting.{IsBefore-Split}

module _ (c : Comparator) (key : Bytes) (seen : List Ptr) (h : Heap) (lists : ℕ → List Ptr) where
  -- Of the nodes `seen` none that is not less than the key is in front of `q`.
  abbrev pub Covers : Ptr → Type 0
  Covers q =
      (n : Ptr)
      → Has n seen
      → less c (key_of h n) key ≡ false
      → Has q (lists 0) × (less c (key_of h n) (key_of h q) ≡ false)

  -- What a search has covered.
  abbrev pub SeenOk : Pc → Type 0
  SeenOk starting = Unit {0}
  SeenOk (finding g) = Unit {0}
  SeenOk (descending before zero) = Covers null
  SeenOk (descending before (suc level)) = Unit {0}
  SeenOk (descending (linking height k) level) = Unit {0}
  SeenOk (row before zero pred t) = Covers (t.successors 0)
  SeenOk (row before (suc level) pred t) = Unit {0}
  SeenOk (row (linking height k) level pred t) = Unit {0}
  SeenOk (walking before zero pred curr t) = Covers curr
  SeenOk (walking before (suc level) pred curr t) = Unit {0}
  SeenOk (walking (linking height k) level pred curr t) = Unit {0}
  SeenOk (placing t) = Covers (t.successors 0)
  SeenOk (storing height k t) = Unit {0}
  SeenOk (exchanging height k t) = Unit {0}
  SeenOk (done height) = Unit {0}

module _ (c : Comparator) (key : Bytes) (seen : List Ptr) (h h' : Heap)
    (lists lists' : ℕ → List Ptr) (all : (n : Ptr) → Has n seen → Has n (lists 0))
    (listed : (j : ℕ) (p : Ptr) → Has p (lists j) → key_of h' p ≡ key_of h p)
    (grows : (j : ℕ) (p : Ptr) → Has p (lists j) → Has p (lists' j)) where
  Covers-grows : (q : Ptr) → Covers c key seen h lists q → Covers c key seen h' lists' q
  Covers-grows q covers n there g =
      let same = listed 0 n (all n there) in
      let (has, before_it) = covers n there (ap (λ k. less c k key) (sym same) ∙ g) in
      (
        grows 0 q has,
        ap (λ k. less c k (key_of h' q)) same
            ∙ ap (λ k. less c (key_of h n) k) (listed 0 q has)
            ∙ before_it,
      )

  pub SeenOk-grows : (pc : Pc) → SeenOk c key seen h lists pc → SeenOk c key seen h' lists' pc
  SeenOk-grows starting k = tt
  SeenOk-grows (finding g) k = tt
  SeenOk-grows (descending before zero) k = Covers-grows null k
  SeenOk-grows (descending before (suc level)) k = tt
  SeenOk-grows (descending (linking height l) level) k = tt
  SeenOk-grows (row before zero pred t) k = Covers-grows (t.successors 0) k
  SeenOk-grows (row before (suc level) pred t) k = tt
  SeenOk-grows (row (linking height l) level pred t) k = tt
  SeenOk-grows (walking before zero pred curr t) k = Covers-grows curr k
  SeenOk-grows (walking before (suc level) pred curr t) k = tt
  SeenOk-grows (walking (linking height l) level pred curr t) k = tt
  SeenOk-grows (placing t) k = Covers-grows (t.successors 0) k
  SeenOk-grows (storing height l t) k = tt
  SeenOk-grows (exchanging height l t) k = tt
  SeenOk-grows (done height) k = tt

module _ (c : Comparator) (Valid : Bytes → Type 0) (law : IsLawful c Valid) (head : Ptr)
    (task : Task) (key_valid : Valid task.key) (x : Ptr) (s : SkipList) (lists : ℕ → List Ptr)
    (root : s.head ≡ head) (levels : Levels c Valid head s.heap lists) (seen : List Ptr)
    (all : (n : Ptr) → Has n seen → Has n (lists 0)) where
  not_less_self : (a : Bytes) → Valid a → less c a a ≡ false
  not_less_self a v = elim (Bool-cases (less c a a)) [ inl l ↦ law.asym a a v v l | inr g ↦ g ]

  after-Covers :
      (n : Ptr) (vs : List Ptr)
      → Sorted c s.heap vs
      → All (λ p. Valid (key_of s.heap p)) vs
      → Has n vs
      → Has (first vs) vs × (less c (key_of s.heap n) (key_of s.heap (first vs)) ≡ false)
  after-Covers n [] sorted valid there = absurd there
  after-Covers n (v ∷ vs) sorted valid (inl e) =
      (inl refl, rw e (not_less_self (key_of s.heap v) valid.0))
  after-Covers n (v ∷ vs) sorted valid (inr there) = (
    inl refl,
    All-Has (λ y. less c (key_of s.heap y) (key_of s.heap v) ≡ false) vs sorted.0 n there,
  )

  -- The pointer behind a node in front of the key covers all that is there.
  pub load-Covers :
      (p q : Ptr)
      → IsBefore c head task.key s.heap lists 0 p
      → load_next s.heap p 0 ≡ ok q
      → Covers c task.key seen s.heap lists q
  load-Covers p q at load n there g =
      let split =
        IsBefore-Split c Valid law head task.key key_valid s.heap lists levels 0 (omega arith) p
          at in
      let us = split.before in
      let vs = split.after in
      let same : first vs ≡ q = ok_inj (first vs) q (sym split.load ∙ load) in
      elim (Has-append n us vs (subst (Has n) split.whole (all n there))) [
        | inl front ↦ absurd (
            cc (All-Has (λ p. less c (key_of s.heap p) task.key ≡ true) us split.lesser n front, g))
        | inr behind ↦
            let (has, least) =
              after-Covers n vs
                (Sorted-right c Valid law s.heap us vs
                  (subst (Sorted c s.heap) split.whole (levels.sorted 0)))
                (All-right c Valid law (λ p. Valid (key_of s.heap p)) us vs
                  (subst (All (λ p. Valid (key_of s.heap p))) split.whole (levels.valid 0)))
                behind in
            subst
              (λ (r : Ptr). Has r (lists 0) × (less c (key_of s.heap n) (key_of s.heap r) ≡ false))
              same
              (
                subst (Has (first vs)) (sym split.whole) (Has-append_right (first vs) us vs has),
                least,
              )
      ]
