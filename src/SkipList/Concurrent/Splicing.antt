-- ===== src/SkipList/Concurrent/Splicing.antt =====
-- The levels of a skip list with the node of an insertion in its place on one more of them, as the
-- compare-and-swap of crates/engine/src/memtable/skip_list.rs leaves them.
use victory_db.Base.{
  ℕ, suc, ◌+◌, ◌≡◌, ◌≢◌, refl, sym, ap, subst, ◌∙◌, ◌⊎◌, inl, inr, some, Bool, List, ◌∷◌, ◌++◌,
  Bytes, All, arith, ◌==◌, ltb, if◌then◌else◌, Bool-cases,
}
use native.Mathlib.Decide.{ℕ_discrete}
use victory_db.Key.Comparator.{Comparator, IsLawful}
use victory_db.SkipList.Node.{Ptr, Heap}
use victory_db.SkipList.Search.{SkipList, TraversalCtx}
use victory_db.SkipList.Chain.{Chain, Has, last, All-Has, All-of_Has}
use victory_db.SkipList.Invariant.{key_of, value_of, Sorted, AllLess, FirstNotLess, contents}
use victory_db.SkipList.Insert.Stored.{Stored}
use victory_db.SkipList.Insert.Splice.{Chain-agree, Has-insert, Has-inserted, Has-of_inserted}
use victory_db.SkipList.Insert.Entries.{
  insert_entry, AgreeOn, contents-AgreeOn, contents-insert, Sorted-AgreeOn,
}
use victory_db.SkipList.Concurrent.{Task, Pc, storing, exchanging, done, advance}
use victory_db.SkipList.Concurrent.Invariant.{
  levels_linked, height_of, Levels, IsBefore, PcOk, Own, Thread,
}
use victory_db.SkipList.Concurrent.Evolve.{Moves, IsAround-grows, IsBehind-grows}
use victory_db.SkipList.Concurrent.Reading.{Refines}
use victory_db.SkipList.Concurrent.Placing.{height_inj}

module _ (c : Comparator) (Valid : Bytes → Type 0) (law : IsLawful c Valid) (head : Ptr)
    (task : Task) (key_valid : Valid task.key) (x : Ptr) (s : SkipList) (lists : ℕ → List Ptr)
    (levels : Levels c Valid head s.heap lists) (height k : ℕ) (t : TraversalCtx)
    (is : Thread c head task s.heap lists x (exchanging height k t)) (us vs : List Ptr)
    (whole : lists k ≡ us ++ vs) (h' : Heap) (stored : Stored s.heap (last head us) k x h') where
  own : Own c head task s.heap lists x k height
  own = is.own height refl

  -- The levels with the node on level `k`.
  abbrev pub spliced : ℕ → List Ptr
  spliced j = if j == k then us ++ (x ∷ vs) else lists j

  spliced_here : spliced k ≡ us ++ (x ∷ vs)
  spliced_here = ground arith

  spliced_other : (j : ℕ) → j ≢ k → spliced j ≡ lists j
  spliced_other j d = ground arith

  spliced_of : (j : ℕ) (p : Ptr) → Has p (spliced j) → ((p ≡ x) × (j ≡ k)) ⊎ Has p (lists j)
  spliced_of j p there = elim (ℕ_discrete j k) [
    | no d ↦ inr (subst (Has p) (spliced_other j d) there)
    | yes e ↦
        elim (Has-of_inserted p x us vs
          (subst (Has p) spliced_here (subst (λ (i : ℕ). Has p (spliced i)) e there))) [
            | inl same ↦ inl (same, e)
            | inr old ↦
                inr (subst (λ (i : ℕ). Has p (lists i)) (sym e) (subst (Has p) (sym whole) old))
          ]
  ]

  spliced_grows : (j : ℕ) (p : Ptr) → Has p (lists j) → Has p (spliced j)
  spliced_grows j p there = elim (ℕ_discrete j k) [
    | no d ↦ subst (Has p) (sym (spliced_other j d)) there
    | yes e ↦
        subst (λ (i : ℕ). Has p (spliced i)) (sym e)
          (subst (Has p) (sym spliced_here) (
            Has-insert p x us vs
              (subst (Has p) whole (subst (λ (i : ℕ). Has p (lists i)) e there))))
  ]

  spliced_there : Has x (spliced k)
  spliced_there = subst (Has x) (sym spliced_here) (Has-inserted x us vs)

  pub spliced-Moves :
      IsBefore c head task.key s.heap lists k (last head us) → Moves head x s.heap h' lists spliced
  spliced-Moves at = record {
    keys = λ p d. stored.entries.keys p;
    listed = λ j p there. stored.entries.keys p;
    values = λ p d. stored.entries.values p;
    grows = spliced_grows;
    others =
        λ j p d there. elim (spliced_of j p there) [ inl same ↦ absurd (d same.0) | inr old ↦ old ];
    slots = λ j p d away out. stored.other p j (elim (ℕ_discrete j k) [
      | no e ↦ inr e
      | yes e ↦ inl (λ same. elim at [
        | inl e' ↦ away (same ∙ e')
        | inr (there, l) ↦ out (
            subst (λ (q : Ptr). Has q (lists j)) (sym same)
              (subst (λ (i : ℕ). Has (last head us) (lists i)) (sym e) there))
      ])
    ]);
  }

  spliced_nested : (j : ℕ) (p : Ptr) → Has p (spliced (suc j)) → Has p (spliced j)
  spliced_nested j p there = spliced_grows j p (elim (spliced_of (suc j) p there) [
    | inl same ↦
        subst (λ (q : Ptr). Has q (lists j)) (sym same.0) (is.within j (omega (arith, same.1)))
    | inr old ↦ levels.nested j p old
  ])

  spliced_valid : (j : ℕ) → All (λ p. Valid (key_of h' p)) (spliced j)
  spliced_valid j =
      All-of_Has (λ p. Valid (key_of h' p)) (spliced j)
        (λ p there. subst Valid (sym (stored.entries.keys p)) (elim (spliced_of j p there) [
          | inl same ↦ subst Valid (sym (ap (key_of s.heap) same.0 ∙ own.key_there)) key_valid
          | inr old ↦ All-Has (λ q. Valid (key_of s.heap q)) (lists j) (levels.valid j) p old
        ]))

  spliced_agree : (j : ℕ) → AgreeOn s.heap h' (spliced j)
  spliced_agree j =
      All-of_Has (λ p. (key_of h' p ≡ key_of s.heap p) × (value_of h' p ≡ value_of s.heap p))
        (spliced j) (λ p there. (stored.entries.keys p, stored.entries.values p))

  pub spliced-Levels :
      Chain h' k head (us ++ (x ∷ vs))
      → Sorted c s.heap (us ++ (x ∷ vs))
      → Levels c Valid head h' spliced
  spliced-Levels ch sorted = record {
    chains = λ j low. elim (ℕ_discrete j k) [
      | no d ↦ subst (Chain h' j head) (sym (spliced_other j d)) (
          Chain-agree s.heap h' j head (lists j) (λ p there. stored.other p j (inr d))
            (levels.chains j low))
      | yes e ↦
          subst (λ (i : ℕ). Chain h' i head (spliced i)) (sym e)
            (subst (Chain h' k head) (sym spliced_here) ch)
    ];
    sorted = λ j. Sorted-AgreeOn c s.heap h' (spliced j) (spliced_agree j) (elim (ℕ_discrete j k) [
      | no d ↦ subst (Sorted c s.heap) (sym (spliced_other j d)) (levels.sorted j)
      | yes e ↦
          subst (λ (i : ℕ). Sorted c s.heap (spliced i)) (sym e)
            (subst (Sorted c s.heap) (sym spliced_here) sorted)
    ]);
    valid = spliced_valid;
    nested = spliced_nested;
  }

  spliced-Own : Own c head task h' spliced x (k + 1) height
  spliced-Own = record {
    not_null = own.not_null;
    not_head = own.not_head;
    key_there = stored.entries.keys x ∙ own.key_there;
    value_there = stored.entries.values x ∙ own.value_there;
    low = own.low;
    high = own.high;
    slots = λ j l m.
        let (q, load, behind) = own.slots j (omega (arith, l)) m in
        (
          q,
          stored.other x j (inr (omega (arith, l))) ∙ load,
          IsBehind-grows c head task.key s.heap h' lists spliced
              (λ i p there. stored.entries.keys p) spliced_grows j q behind,
        );
  }

  spliced-Thread :
      (pc : Pc)
      → levels_linked pc ≡ k + 1
      → height_of pc ≡ some height
      → PcOk c head task.key h' spliced x pc
      → Thread c head task h' spliced x pc
  spliced-Thread pc linked tall knows = record {
    within = λ j l. elim (ℕ_discrete j k) [
      | yes e ↦ subst (λ (i : ℕ). Has x (spliced i)) (sym e) spliced_there
      | no d ↦ spliced_grows j x (is.within j (omega (arith, l, linked)))
    ];
    without = λ j l there. elim (spliced_of j x there) [
      | inl same ↦ omega (arith, l, linked, same.1)
      | inr old ↦ is.without j (omega (arith, l, linked)) old
    ];
    own = λ m e.
        subst (λ (n : ℕ). Own c head task h' spliced x n m) (sym linked)
          (subst (Own c head task h' spliced x (k + 1)) (height_inj height m (sym tall ∙ e))
            spliced-Own);
    knows = knows;
  }

  pub spliced-contents : (j : ℕ) → contents h' (spliced j) ≡ contents s.heap (spliced j)
  spliced-contents j = contents-AgreeOn s.heap h' (spliced j) (spliced_agree j)

  -- On the base level the node is one more entry in its place, and on another the base level is
  -- what it was.
  pub spliced-Refines :
      AllLess c s.heap task.key us
      → FirstNotLess c s.heap task.key vs
      → Refines c task
          (exchanging height k t)
          (advance height k t)
          (contents s.heap (lists 0))
          (contents h' (spliced 0))
  spliced-Refines lesser behind =
      let low = is.knows.0 in
      let now : levels_linked (advance height k t) ≡ k + 1 = ground (arith, low) in
      elim (ℕ_discrete 0 k) [
        | yes e ↦ inr (
          ground (arith, e),
          ground (arith, now),
          spliced-contents 0
              ∙ ap (contents s.heap) (ap spliced e ∙ spliced_here)
              ∙ contents-insert c s.heap task.key task.value x own.key_there own.value_there us vs
                  lesser behind
              ∙ ap (λ (ps : List Ptr). insert_entry c task.key task.value (contents s.heap ps))
                  (sym (ap lists e ∙ whole)),
        )
        | no d ↦
            inl (
              ground (arith, now, d),
              spliced-contents 0 ∙ ap (contents s.heap) (spliced_other 0 d),
            )
      ]

  pub advance-tall :
      (m : ℕ) → height_of (advance height k t) ≡ some m → height_of (exchanging height k t) ≡ some m
  advance-tall m e = elim (Bool-cases (ltb (k + 1) height)) [
    | inl more ↦ ground (arith, more, e)
    | inr all ↦ ground (arith, all, e)
  ]

  pub advance-Thread : Thread c head task h' spliced x (advance height k t)
  advance-Thread =
      let (low, around, slot) = is.knows in
      elim (Bool-cases (ltb (k + 1) height)) [
        | inl more ↦
            subst (Thread c head task h' spliced x)
              (ap (λ (b : Bool). if b then storing height (k + 1) t else done height) (sym more))
              (spliced-Thread (storing height (k + 1) t) refl refl (
                ground (arith, more),
                IsAround-grows c head task.key s.heap h' lists spliced
                    (λ i p there. stored.entries.keys p) spliced_grows t around,
              ))
        | inr all ↦
            subst (Thread c head task h' spliced x)
              (ap (λ (b : Bool). if b then storing height (k + 1) t else done height) (sym all))
              (spliced-Thread (done height) (ground (arith, all, low)) refl tt)
      ]
