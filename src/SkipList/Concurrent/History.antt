-- ===== src/SkipList/Concurrent/History.antt =====
-- Insertions of many threads into one skip list (crates/engine/src/memtable/skip_list.rs) as
-- insertions one after another: in the order of the exchanges on the base level.
use victory_db.Base.{
  ℕ, ◌≡◌, ◌≢◌, refl, sym, ap, subst, ◌∙◌, inl, inr, true, false, List, [], ◌∷◌, ◌++◌, append_assoc,
  Bytes,
}
use victory_db.Base.Run.{ok_inj}
use native.Mathlib.Decide.{ℕ_discrete}
use victory_db.Key.Comparator.{Comparator, IsLawful}
use victory_db.SkipList.Node.{Ptr, null}
use victory_db.SkipList.Search.{SkipList, new}
use victory_db.SkipList.Chain.{Has}
use victory_db.SkipList.Invariant.{contents}
use victory_db.SkipList.Insert.Entries.{insert_entry}
use victory_db.SkipList.Concurrent.{
  Task, Pc, update_pc, System, Step, access, start, Reach, started, later,
}
use victory_db.SkipList.Concurrent.Invariant.{Holds}
use victory_db.SkipList.Concurrent.Reading.{Next, is_linked}
use victory_db.SkipList.Concurrent.Reached.{
  Fits, pc_here, pc_other, pc-Next, Next-Holds, start-Holds,
}

-- The entries after the insertions of `history`, the latest of which is the first.
unfoldable pub replay : Comparator → (Ptr → Task) → List Ptr → List (Bytes × Bytes)
replay c tasks [] = []
replay c tasks (x ∷ xs) = insert_entry c (tasks x).key (tasks x).value (replay c tasks xs)

-- No insertion is there twice.
abbrev pub Distinct : List Ptr → Type 0
Distinct [] = Unit {0}
Distinct (x ∷ xs) = (Has x xs → ⊥) × Distinct xs

-- The entries are those of the history, which holds the insertions that linked the base level, each
-- once.
pub record IsHistory (c : Comparator) (tasks : Ptr → Task) (s : System) (nodes history : List Ptr)
    : Type 0 where
  pub replays : contents s.list.heap nodes ≡ replay c tasks history
  pub once : Distinct history
  pub linked : (x : Ptr) → is_linked (s.pcs x) ≡ true → Has x history
  pub only : (x : Ptr) → Has x history → is_linked (s.pcs x) ≡ true

module _ (pcs : Ptr → Pc) (x : Ptr) (pc : Pc) where
  is_linked_here : (y : Ptr) → y ≡ x → is_linked (update_pc pcs x pc y) ≡ is_linked pc
  is_linked_here y e = ap is_linked (ap (update_pc pcs x pc) e ∙ pc_here pcs x pc)

  is_linked_other : (y : Ptr) → y ≢ x → is_linked (update_pc pcs x pc y) ≡ is_linked (pcs y)
  is_linked_other y d = ap is_linked (pc_other pcs x pc y d)

module _ (c : Comparator) (Valid : Bytes → Type 0) (tasks : Ptr → Task) (head : Ptr) (s : System)
    (lists : ℕ → List Ptr) (history : List Ptr) (is : IsHistory c tasks s (lists 0) history)
    (x : Ptr) (next : Next c Valid head (tasks x) x s.list lists (s.pcs x)) where
  abbrev after : System
  after = record { list = next.list; pcs = update_pc s.pcs x next.at }

  -- A step that leaves the entries as they are.
  keeps-IsHistory :
      is_linked next.at ≡ is_linked (s.pcs x)
      → contents next.list.heap (next.nodes 0) ≡ contents s.list.heap (lists 0)
      → IsHistory c tasks after (next.nodes 0) history
  keeps-IsHistory same keeps =
      let stays : (y : Ptr) → is_linked (after.pcs y) ≡ is_linked (s.pcs y) = λ y.
        elim (ℕ_discrete y x) [
          | yes e ↦
              is_linked_here s.pcs x next.at y e ∙ same ∙ sym (ap (λ z. is_linked (s.pcs z)) e)
          | no d ↦ is_linked_other s.pcs x next.at y d
        ] in
      record {
        replays = keeps ∙ is.replays;
        once = is.once;
        linked = λ y e. is.linked y (sym (stays y) ∙ e);
        only = λ y there. stays y ∙ is.only y there;
      }

  -- The exchange on the base level.
  inserts-IsHistory :
      is_linked (s.pcs x) ≡ false
      → is_linked next.at ≡ true
      → contents next.list.heap (next.nodes 0)
        ≡ insert_entry c (tasks x).key (tasks x).value (contents s.list.heap (lists 0))
      → IsHistory c tasks after (next.nodes 0) (x ∷ history)
  unfolding replay
  inserts-IsHistory was now inserts = record {
    replays = inserts ∙ ap (insert_entry c (tasks x).key (tasks x).value) is.replays;
    once = ((λ there. absurd (cc (is.only x there, was))), is.once);
    linked = λ y e. elim (ℕ_discrete y x) [
      | yes here ↦ inl here
      | no d ↦ inr (is.linked y (sym (is_linked_other s.pcs x next.at y d) ∙ e))
    ];
    only = λ y there. elim (ℕ_discrete y x) [
      | yes here ↦ is_linked_here s.pcs x next.at y here ∙ now
      | no d ↦
          is_linked_other s.pcs x next.at y d
          ∙ is.only y (elim there [ inl e ↦ absurd (d e) | inr old ↦ old ])
    ];
  }

  Next-IsHistory : (more : List Ptr) × IsHistory c tasks after (next.nodes 0) (more ++ history)
  Next-IsHistory = elim next.refines [
    | inl (same, keeps) ↦ ([], keeps-IsHistory same keeps)
    | inr (was, now, inserts) ↦ (x ∷ [], inserts-IsHistory was now inserts)
  ]

module _ (c : Comparator) (Valid : Bytes → Type 0) (law : IsLawful c Valid) (tasks : Ptr → Task)
    (fits : (x : Ptr) → Fits Valid (tasks x)) (head : Ptr) where
  abbrev pub Extends : System → List Ptr → Type 0
  Extends u history =
      (nodes : ℕ → List Ptr) × (more : List Ptr) × Holds c Valid tasks head u nodes
      × IsHistory c tasks u (nodes 0) (more ++ history)

  Step-Extends :
      (s u : System) (lists : ℕ → List Ptr) (history : List Ptr)
      → Holds c Valid tasks head s lists
      → IsHistory c tasks s (lists 0) history
      → Step c tasks s u
      → Extends u history
  Step-Extends s u lists history is past (access x list pc ne fresh e) =
      let next =
        pc-Next c Valid law tasks fits head s.list lists is.root is.top is.levels x (s.pcs x)
          (is.threads x) ne fresh in
      let same : (next.list, next.at) ≡ (list, pc) =
        ok_inj (next.list, next.at) (list, pc) (sym next.runs ∙ e) in
      let (more, longer) = Next-IsHistory c Valid tasks head s lists history past x next in
      subst
        (λ (y : SkipList × Pc).
          Extends (record { list = y.0; pcs = update_pc s.pcs x y.1 }) history)
        same (next.nodes, more, Next-Holds c Valid law tasks fits head s lists x is next, longer)

  pub Reach-Extends :
      (s u : System) (lists : ℕ → List Ptr) (history : List Ptr)
      → Holds c Valid tasks head s lists
      → IsHistory c tasks s (lists 0) history
      → Reach c tasks s u
      → Extends u history
  Reach-Extends s u lists history is past started = (lists, [], is, past)
  Reach-Extends s u lists history is past (later {t = b} r step) =
      let (mid, more, is_b, past_b) = Reach-Extends s b lists history is past r in
      let (nodes, last, is_u, past_u) = Step-Extends b u mid (more ++ history) is_b past_b step in
      (
        nodes,
        last ++ more,
        is_u,
        subst (IsHistory c tasks u (nodes 0)) (sym (append_assoc last more history)) past_u,
      )

  start-IsHistory : IsHistory c tasks (start (new head)) [] []
  unfolding replay
  start-IsHistory = record {
    replays = refl;
    once = tt;
    linked = λ x e. absurd (cc);
    only = λ x there. absurd there;
  }

  pub from_start :
      (s : System)
      → head ≢ null
      → Reach c tasks (start (new head)) s
      → (lists : ℕ → List Ptr) × (history : List Ptr) × Holds c Valid tasks head s lists
        × IsHistory c tasks s (lists 0) history
  from_start s ne r =
      let (lists, more, is, past) =
        Reach-Extends (start (new head)) s (λ j. []) [] (start-Holds c Valid law tasks fits head ne)
          start-IsHistory r in
      (lists, more ++ [], is, past)
