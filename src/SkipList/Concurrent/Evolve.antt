-- ===== src/SkipList/Concurrent/Evolve.antt =====
-- What one access of an insertion (crates/engine/src/memtable/skip_list.rs) leaves alone, and that
-- what the other insertions know stays true.
use victory_db.Base.{ℕ, zero, suc, ◌≡◌, ◌≢◌, refl, ap, ◌∙◌, inl, inr, some, List, Bytes, arith}
use victory_db.Key.Comparator.{Comparator, less}
use victory_db.SkipList.Node.{Ptr, Heap, load_next}
use victory_db.SkipList.Search.{TraversalCtx}
use victory_db.SkipList.Chain.{Has}
use victory_db.SkipList.Invariant.{key_of, value_of}
use victory_db.SkipList.Concurrent.{
  Task, Goal, before, linking, Pc, starting, finding, descending, row, walking, placing, storing,
  exchanging, done,
}
use victory_db.SkipList.Concurrent.Invariant.{
  levels_linked, height_of, IsBefore, IsBehind, IsAround, GoalOk, RowOk, PcOk, Thread,
}

-- An access of the insertion of `x` leaves the keys and values, the nodes on the levels and the
-- slots of the nodes that are not there.
pub record Moves (head : Ptr) (x : Ptr) (h h' : Heap) (lists lists' : ℕ → List Ptr) : Type 0 where
  pub keys : (p : Ptr) → p ≢ x → key_of h' p ≡ key_of h p
  pub listed : (j : ℕ) (p : Ptr) → Has p (lists j) → key_of h' p ≡ key_of h p
  pub values : (p : Ptr) → p ≢ x → value_of h' p ≡ value_of h p
  pub grows : (j : ℕ) (p : Ptr) → Has p (lists j) → Has p (lists' j)
  pub others : (j : ℕ) (p : Ptr) → p ≢ x → Has p (lists' j) → Has p (lists j)
  pub slots :
      (j : ℕ) (p : Ptr)
      → p ≢ x
      → p ≢ head
      → (Has p (lists j) → ⊥)
      → load_next h' p j ≡ load_next h p j

pub Moves-refl : (head x : Ptr) (h : Heap) (lists : ℕ → List Ptr) → Moves head x h h lists lists
Moves-refl head x h lists = record {
  keys = λ p d. refl;
  listed = λ j p there. refl;
  values = λ p d. refl;
  grows = λ j p there. there;
  others = λ j p d there. there;
  slots = λ j p d e out. refl;
}

-- What is known of nodes on the levels stays true.
module _ (c : Comparator) (head : Ptr) (key : Bytes) (h h' : Heap) (lists lists' : ℕ → List Ptr)
    (listed : (j : ℕ) (p : Ptr) → Has p (lists j) → key_of h' p ≡ key_of h p)
    (grows : (j : ℕ) (p : Ptr) → Has p (lists j) → Has p (lists' j)) where
  pub IsBefore-grows :
      (j : ℕ) (p : Ptr) → IsBefore c head key h lists j p → IsBefore c head key h' lists' j p
  IsBefore-grows j p (inl e) = inl e
  IsBefore-grows j p (inr (there, l)) =
      inr (grows j p there, ap (λ k. less c k key) (listed j p there) ∙ l)

  pub IsBehind-grows :
      (j : ℕ) (q : Ptr) → IsBehind c head key h lists j q → IsBehind c head key h' lists' j q
  IsBehind-grows j q (inl e) = inl e
  IsBehind-grows j q (inr (there, l)) =
      inr (grows j q there, ap (λ k. less c k key) (listed j q there) ∙ l)

  pub IsAround-grows :
      (t : TraversalCtx) → IsAround c head key h lists t → IsAround c head key h' lists' t
  IsAround-grows t around = λ j. (
    IsBefore-grows j (t.predecessors j) (around j).0,
    IsBehind-grows j (t.successors j) (around j).1,
  )

  RowOk-grows :
      (level : ℕ) (p : Ptr) → RowOk c head key h lists level p → RowOk c head key h' lists' level p
  RowOk-grows zero p ok_before = tt
  RowOk-grows (suc j) p ok_before = IsBefore-grows j p ok_before

  GoalOk-grows : (g : Goal) → GoalOk c head key h lists g → GoalOk c head key h' lists' g
  GoalOk-grows before g = tt
  GoalOk-grows (linking height level) g = g

  PcOk-grows :
      (x : Ptr) (pc : Pc)
      → ((height : ℕ)
          → height_of pc ≡ some height
          → load_next h' x (levels_linked pc) ≡ load_next h x (levels_linked pc))
      → PcOk c head key h lists x pc
      → PcOk c head key h' lists' x pc
  PcOk-grows x starting same k = tt
  PcOk-grows x (finding g) same k = GoalOk-grows g k
  PcOk-grows x (descending g level) same k = (GoalOk-grows g k.0, k.1)
  PcOk-grows x (row g level pred t) same (goal, low, entry, around) =
      (GoalOk-grows g goal, low, RowOk-grows level pred entry, IsAround-grows t around)
  PcOk-grows x (walking g level pred curr t) same (goal, low, at, next, around) = (
    GoalOk-grows g goal,
    low,
    IsBefore-grows level pred at,
    elim next [ inl e ↦ inl e | inr there ↦ inr (grows level curr there) ],
    IsAround-grows t around,
  )
  PcOk-grows x (placing t) same around = IsAround-grows t around
  PcOk-grows x (storing height level t) same (low, around) = (low, IsAround-grows t around)
  PcOk-grows x (exchanging height level t) same (low, around, slot) = (
    low,
    IsAround-grows t around,
    elim slot [ inl e ↦ inl e | inr e ↦ inr (same height refl ∙ e) ],
  )
  PcOk-grows x (done height) same k = tt

-- An access of another insertion keeps all that holds of this one.
pub Thread-Moves :
    (c : Comparator) (head : Ptr) (task : Task) (h h' : Heap) (lists lists' : ℕ → List Ptr)
    (x y : Ptr) (pc : Pc)
    → Moves head x h h' lists lists'
    → y ≢ x
    → Thread c head task h lists y pc
    → Thread c head task h' lists' y pc
Thread-Moves c head task h h' lists lists' x y pc m d is = record {
  within = λ j l. m.grows j y (is.within j l);
  without = λ j l there. is.without j l (m.others j y d there);
  own = λ height e.
      let o = is.own height e in
      record {
        not_null = o.not_null;
        not_head = o.not_head;
        key_there = m.keys y d ∙ o.key_there;
        value_there = m.values y d ∙ o.value_there;
        low = o.low;
        high = o.high;
        slots = λ j k l.
            let (q, load, behind) = o.slots j k l in
            (
              q,
              m.slots j y d o.not_head (is.without j k) ∙ load,
              IsBehind-grows c head task.key h h' lists lists' m.listed m.grows j q behind,
            );
      };
  knows =
      PcOk-grows c head task.key h h' lists lists' m.listed m.grows y pc
        (λ height e.
          m.slots (levels_linked pc) y d (is.own height e).not_head
            (is.without (levels_linked pc) (omega arith)))
        is.knows;
}
