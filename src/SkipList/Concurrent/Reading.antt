-- ===== src/SkipList/Concurrent/Reading.antt =====
-- The accesses of an insertion (crates/engine/src/memtable/skip_list.rs) that write nothing: the
-- search.
use victory_db.Base.{
  ℕ, zero, suc, ◌≤◌, ◌<◌, ◌≡◌, refl, sym, subst, ◌⊎◌, inl, inr, some, Bool, true, false, List, [],
  ◌∷◌, Bytes, arith, ltb,
}
use victory_db.Base.Run.{ok}
use native.Mathlib.Decide.{ℕ_discrete}
use victory_db.Key.Comparator.{Comparator}
use victory_db.SkipList.Node.{Ptr, null, Heap, load_next, max_head_height}
use victory_db.SkipList.Search.{SkipList, TraversalCtx}
use victory_db.SkipList.Chain.{Chain, Has}
use victory_db.SkipList.Invariant.{contents}
use victory_db.SkipList.Insert.Entries.{insert_entry}
use victory_db.SkipList.Concurrent.{Task, Pc, with_level, insert_step}
use victory_db.SkipList.Concurrent.Invariant.{
  levels_linked, height_of, Levels, IsBefore, IsBehind, IsAround, RowOk, Thread,
}
use victory_db.SkipList.Concurrent.Evolve.{Moves}

-- The node is linked on the base level.
abbrev pub is_linked : Pc → Bool
is_linked pc = ltb 0 (levels_linked pc)

-- A step that leaves the entries as they are, and one that inserts an entry and links the base level.
abbrev pub Refines :
    Comparator → Task → (pc pc' : Pc) → List (Bytes × Bytes) → List (Bytes × Bytes) → Type 0
Refines c task pc pc' es es' =
    ((is_linked pc' ≡ is_linked pc) × (es' ≡ es))
    ⊎ ((is_linked pc ≡ false)
        × (is_linked pc' ≡ true)
        × (es' ≡ insert_entry c task.key task.value es))

-- The step of `x` at `pc` returns, and leads to a list with sound levels where what `x` knows is
-- true.
pub record Next (c : Comparator) (Valid : Bytes → Type 0) (head : Ptr) (task : Task) (x : Ptr)
    (s : SkipList) (lists : ℕ → List Ptr) (pc : Pc) : Type 0 where
  pub list : SkipList
  pub at : Pc
  pub nodes : ℕ → List Ptr
  pub runs : insert_step c x task s pc ≡ ok (list, at)
  pub root : list.head ≡ head
  pub top : list.max_level ≤ max_head_height
  pub levels : Levels c Valid head list.heap nodes
  pub moves : Moves head x s.heap list.heap lists nodes
  pub thread : Thread c head task list.heap nodes x at
  pub grown : s.max_level ≤ list.max_level
  pub tall :
      (height : ℕ)
      → height_of at ≡ some height
      → (height_of pc ≡ some height) ⊎ (height ≤ list.max_level)
  pub refines : Refines c task pc at (contents s.heap (lists 0)) (contents list.heap (nodes 0))

-- The pointer behind the start or a node of a chain is null or a node of it.
Chain-first :
    (h : Heap) (j : ℕ) (p : Ptr) (xs : List Ptr)
    → Chain h j p xs
    → (q : Ptr) × (load_next h p j ≡ ok q) × ((q ≡ null) ⊎ Has q xs)
Chain-first h j p [] ch = (null, ch, inl refl)
Chain-first h j p (x ∷ xs) ch = (x, ch.0, inr (inl refl))

Chain-next :
    (h : Heap) (j : ℕ) (a p : Ptr) (xs : List Ptr)
    → Chain h j a xs
    → Has p xs
    → (q : Ptr) × (load_next h p j ≡ ok q) × ((q ≡ null) ⊎ Has q xs)
Chain-next h j a p [] ch there = absurd there
Chain-next h j a p (x ∷ xs) ch (inl e) =
    let (q, load, next) = Chain-first h j x xs ch.2 in
    (q, rw e load, elim next [ inl n ↦ inl n | inr t ↦ inr (inr t) ])
Chain-next h j a p (x ∷ xs) ch (inr there) =
    let (q, load, next) = Chain-next h j x p xs ch.2 there in
    (q, load, elim next [ inl n ↦ inl n | inr t ↦ inr (inr t) ])

module _ (c : Comparator) (Valid : Bytes → Type 0) (head : Ptr) (h : Heap) (lists : ℕ → List Ptr)
    (levels : Levels c Valid head h lists) where
  abbrev Follows : ℕ → Ptr → Type 0
  Follows j p = (q : Ptr) × (load_next h p j ≡ ok q) × ((q ≡ null) ⊎ Has q (lists j))

  pub listed-Follows : (j : ℕ) (p : Ptr) → j < max_head_height → Has p (lists j) → Follows j p
  listed-Follows j p low there = Chain-next h j head p (lists j) (levels.chains j low) there

  pub IsBefore-Follows :
      (key : Bytes) (j : ℕ) (p : Ptr)
      → j < max_head_height
      → IsBefore c head key h lists j p
      → Follows j p
  IsBefore-Follows key j p low (inl e) =
      let (q, load, next) = Chain-first h j head (lists j) (levels.chains j low) in
      (q, rw e load, next)
  IsBefore-Follows key j p low (inr (there, l)) = listed-Follows j p low there

  -- A node in front of the key on a level is so on the level below.
  pub RowOk-below :
      (key : Bytes) (level : ℕ) (p : Ptr)
      → IsBefore c head key h lists level p
      → RowOk c head key h lists level p
  RowOk-below key zero p at = tt
  RowOk-below key (suc j) p (inl e) = inl e
  RowOk-below key (suc j) p (inr (there, l)) = inr (levels.nested j p there, l)

module _ (c : Comparator) (head : Ptr) (key : Bytes) (h : Heap) (lists : ℕ → List Ptr) where
  pub with_level-IsAround :
      (t : TraversalCtx) (level : ℕ) (p q : Ptr)
      → IsAround c head key h lists t
      → IsBefore c head key h lists level p
      → IsBehind c head key h lists level q
      → IsAround c head key h lists (with_level t level p q)
  with_level-IsAround t level p q around at behind = λ j. elim (ℕ_discrete j level) [
    | yes e ↦ (
      subst (λ (r : Ptr). IsBefore c head key h lists j r) (ground (arith, e))
          (subst (λ (i : ℕ). IsBefore c head key h lists i p) (sym e) at),
      subst (λ (r : Ptr). IsBehind c head key h lists j r) (ground (arith, e))
          (subst (λ (i : ℕ). IsBehind c head key h lists i q) (sym e) behind),
    )
    | no d ↦ (
      subst (λ (r : Ptr). IsBefore c head key h lists j r) (ground (arith, d)) (around j).0,
      subst (λ (r : Ptr). IsBehind c head key h lists j r) (ground (arith, d)) (around j).1,
    )
  ]
