-- ===== src/SkipList/Concurrent/Alone.antt =====
-- An insertion whose accesses no others come between (crates/engine/src/memtable/skip_list.rs):
-- access by access, its search does what `search` does at once.
use victory_db.Base.{
  ℕ, zero, suc, ◌≡◌, refl, sym, ap, subst, ◌∙◌, ◌⊎◌, inl, inr, none, Bool, true, false, ◌==◌,
  Bool-cases, if◌then◌else◌, ◌<◌, List, Bytes, arith,
}
use victory_db.Base.Run.{Run, ok, ◌>>=◌, ok_inj, bind-ok}
use victory_db.Key.Comparator.{Comparator, IsLawful}
use victory_db.SkipList.Invariant.{Cut, IsSkipList}
use victory_db.SkipList.Found.{search-Cut}
use victory_db.SkipList.Node.{Ptr, null, max_head_height, load_next}
use victory_db.SkipList.Search.{
  SkipList, TraversalCtx, start_level, node_less, walk, search_levels, first_ctx, search,
}
use victory_db.SkipList.Concurrent.{
  Task, Goal, Pc, finding, descending, row, walking, found, with_level, insert_step, places,
}

-- Some accesses of the insertion of `x`, one after another.
pub data Alone (c : Comparator) (x : Ptr) (task : Task)
    : SkipList → Pc → SkipList → Pc → Type 0 where
  rest : {s : SkipList} {pc : Pc} → Alone c x task s pc s pc
  more :
      {s t u : SkipList} {pc at end : Pc}
      → (places task pc ≡ false) ⊎ (s.heap x ≡ none)
      → insert_step c x task s pc ≡ ok (t, at)
      → Alone c x task t at u end
      → Alone c x task s pc u end

pub Alone-trans :
    (c : Comparator) (x : Ptr) (task : Task) (s t u : SkipList) (pc at end : Pc)
    → Alone c x task s pc t at
    → Alone c x task t at u end
    → Alone c x task s pc u end
Alone-trans c x task s t u pc at end rest later = later
Alone-trans c x task s t u pc at end (more {t = b} {at = q} guard e steps) later =
    more guard e (Alone-trans c x task b t u q at end steps later)

module _ (c : Comparator) (x : Ptr) (task : Task) (s : SkipList) (g : Goal) where
  -- The loops of the search, access by access.
  abbrev Runs : Pc → Pc → Type 0
  Runs pc end = Alone c x task s pc s end

  -- What the walk does at a node, after the comparison.
  abbrev walk_on : ℕ → ℕ → Ptr → Ptr → Bool → Run (Ptr × Ptr)
  walk_on fuel level pred curr false = ok (pred, curr)
  walk_on fuel level pred curr true =
      load_next s.heap curr level >>= λ next. walk c fuel s.heap level task.key curr next

  walk_node :
      (fuel level : ℕ) (pred curr : Ptr)
      → (curr == null) ≡ false
      → walk c (suc fuel) s.heap level task.key pred curr
        ≡ (node_less c s.heap curr task.key >>= walk_on fuel level pred curr)
  unfolding walk
  walk_node fuel level pred curr node = rw (node) refl

  walk_end :
      (fuel level : ℕ) (pred curr : Ptr)
      → (curr == null) ≡ true
      → walk c (suc fuel) s.heap level task.key pred curr ≡ ok (pred, curr)
  unfolding walk
  walk_end fuel level pred curr end = rw (end) refl

  -- The walk ends here.
  stops :
      (level : ℕ) (pred curr p q : Ptr) (t : TraversalCtx)
      → insert_step c x task s (walking g level pred curr t)
        ≡ ok (s, row g level pred (with_level t level pred curr))
      → ◌≡◌ {A = Ptr × Ptr} (pred, curr) (p, q)
      → Runs (walking g level pred curr t) (row g level p (with_level t level p q))
  stops level pred curr p q t runs same = more (inl refl) runs (
      subst
        (λ (r : Ptr × Ptr).
          Runs (row g level pred (with_level t level pred curr))
            (row g level r.0 (with_level t level r.0 r.1)))
        same rest)

  pub walk-Alone :
      (fuel level : ℕ) (pred curr p q : Ptr) (t : TraversalCtx)
      → walk c fuel s.heap level task.key pred curr ≡ ok (p, q)
      → Runs (walking g level pred curr t) (row g level p (with_level t level p q))
  unfolding walk insert_step
  walk-Alone zero level pred curr p q t e = absurd (cc)
  walk-Alone (suc fuel) level pred curr p q t e = elim (Bool-cases (curr == null)) [
    | inl end ↦
        stops level pred curr p q t (rw (end) refl)
          (ok_inj (pred, curr) (p, q) (sym (walk_end fuel level pred curr end) ∙ e))
    | inr node ↦
        let (smaller, test, e1) =
          bind-ok (node_less c s.heap curr task.key) (walk_on fuel level pred curr) (p, q)
            (sym (walk_node fuel level pred curr node) ∙ e) in
        elim (Bool-cases smaller) [
          | inr no_more ↦
              stops level pred curr p q t (rw (node, test, no_more) refl)
                (ok_inj (pred, curr) (p, q) (ap (walk_on fuel level pred curr) (sym no_more) ∙ e1))
          | inl on ↦
              let (next, load, e2) =
                bind-ok (load_next s.heap curr level)
                  (λ (next : Ptr). walk c fuel s.heap level task.key curr next) (p, q)
                  (ap (walk_on fuel level pred curr) (sym on) ∙ e1) in
              more (inl refl) (rw (node, test, on, load) refl)
                (walk-Alone fuel level curr next p q t e2)
        ]
  ]

  pub search_levels-Alone :
      (fuel level : ℕ) (pred : Ptr) (t t' : TraversalCtx)
      → search_levels c fuel s.heap task.key level pred t ≡ ok t'
      → Runs (row g level pred t) (found g t')
  unfolding search_levels insert_step
  search_levels-Alone fuel zero pred t t' e =
      more (inl refl) refl
        (subst (λ (r : TraversalCtx). Runs (found g t) (found g r)) (ok_inj t t' e) rest)
  search_levels-Alone fuel (suc level) pred t t' e =
      let (curr, load, e1) =
        bind-ok (load_next s.heap pred level)
          (λ (curr : Ptr). walk c fuel s.heap level task.key pred curr >>= λ (p, q).
            search_levels c fuel s.heap task.key level p (with_level t level p q))
          t' e in
      let ((p, q), walks, e2) =
        bind-ok (walk c fuel s.heap level task.key pred curr)
          (λ (r : Ptr × Ptr).
            search_levels c fuel s.heap task.key level r.0 (with_level t level r.0 r.1))
          t' e1 in
      more (inl refl) (rw load refl) (
        Alone-trans c x task s s s (walking g level pred curr t)
          (row g level p (with_level t level p q)) (found g t')
          (walk-Alone fuel level pred curr p q t walks)
          (search_levels-Alone fuel level p (with_level t level p q) t' e2))

  pub start_level-Alone :
      (level start : ℕ)
      → start_level s.heap s.head level ≡ ok start
      → Runs (descending g level) (row g start s.head (first_ctx c s.head))
  unfolding start_level insert_step
  start_level-Alone zero start e = more (inl refl) refl (
      subst
        (λ (l : ℕ).
          Runs (row g 0 s.head (first_ctx c s.head)) (row g l s.head (first_ctx c s.head)))
        (ok_inj 0 start e) rest)
  start_level-Alone (suc level) start e =
      let (p, load, e1) =
        bind-ok (load_next s.heap s.head level)
          (λ (p : Ptr). if p == null then start_level s.heap s.head level else ok (suc level)) start
          e in
      elim (Bool-cases (p == null)) [
        | inl empty ↦ more (inl refl) (rw (load, empty) refl) (
            start_level-Alone level start (
              ap (λ (b : Bool). if b then start_level s.heap s.head level else ok (suc level))
                (sym empty)
              ∙ e1))
        | inr full ↦ more (inl refl) (rw (load, full) refl) (
            subst
              (λ (l : ℕ).
                Runs (row g (suc level) s.head (first_ctx c s.head))
                  (row g l s.head (first_ctx c s.head)))
              (ok_inj (suc level) start (
                ap (λ (b : Bool). if b then start_level s.heap s.head level else ok (suc level))
                  (sym full)
                ∙ e1))
              rest)
      ]

  -- What `search` finds at once.
  pub search-Alone :
      (fuel : ℕ) (t : TraversalCtx) → search c fuel s task.key ≡ ok t → Runs (finding g) (found g t)
  unfolding search insert_step
  search-Alone fuel t e =
      let (start, starts, e1) =
        bind-ok (start_level s.heap s.head s.max_level)
          (λ (level : ℕ). search_levels c fuel s.heap task.key level s.head (first_ctx c s.head)) t
          e in
      more (inl refl) refl (
        Alone-trans c x task s s s (descending g s.max_level)
          (row g start s.head (first_ctx c s.head)) (found g t)
          (start_level-Alone s.max_level start starts)
          (search_levels-Alone fuel start s.head (first_ctx c s.head) t e1))

-- On a well-formed list a search that makes its accesses one by one, and no other thread between
-- them, comes to its end and leaves the list as it is. On each of the eight levels its predecessor
-- and successor are then the nodes between which the keys stop to be less than the key by the
-- comparator: all nodes up to the predecessor (or the head) are less, and the successor (or null)
-- is not.
pub search-Cut-Alone :
    (c : Comparator) (Valid : Bytes → Type 0) (law : IsLawful c Valid) (x : Ptr) (task : Task)
    (s : SkipList) (lists : ℕ → List Ptr) (g : Goal)
    → IsSkipList c Valid s lists
    → Valid task.key
    → (t : TraversalCtx) × Alone c x task s (finding g) s (found g t)
      × ((level : ℕ)
          → level < max_head_height
          → Cut c s.heap task.key s.head (lists level) (t.predecessors level) (t.successors level))
search-Cut-Alone c Valid law x task s lists g is key_valid =
    let (t, finds, unset, cuts) =
      search-Cut c Valid law (suc s.entries) s lists task.key is key_valid (omega arith) in
    (t, search-Alone c x task s g (suc s.entries) t finds, cuts)
