-- ===== src/SkipList/Concurrent/Schedule.antt =====
-- Interleavings of insertions (crates/engine/src/memtable/skip_list.rs) that are given by the order
-- in which the insertions make their accesses.
use victory_db.Base.{
  ◌≡◌, ◌≢◌, refl, sym, ap, subst, ◌∙◌, ◌⊎◌, inl, inr, Option, none, some, Bool, true, false, List,
  [], ◌∷◌, ◌==◌, if◌then◌else◌, arith, Bool-cases, Option-cases,
}
use victory_db.Base.Run.{Run, ok, panic, fault, out_of_fuel}
use victory_db.Key.Comparator.{Comparator}
use victory_db.SkipList.Node.{Ptr, null, Node}
use victory_db.SkipList.Search.{SkipList}
use victory_db.SkipList.Concurrent.{
  Task, Pc, insert_step, places, update_pc, System, Step, access, Reach, started, later,
}

abbrev is_free : Option Node → Bool
is_free none = true
is_free (some n) = false

-- Whether the insertion of `x` may go on: its address is not null, and free where the node is made
-- now.
abbrev pub may_step : (Ptr → Task) → System → Ptr → Bool
may_step tasks s x =
    if x == null
    then false
    else (if places (tasks x) (s.pcs x) then is_free (s.list.heap x) else true)

-- The system after an access of `x`.
abbrev pub after_run : System → Ptr → Run (SkipList × Pc) → Option System
after_run s x (ok next) = some (record { list = next.0; pcs = update_pc s.pcs x next.1 })
after_run s x panic = none
after_run s x fault = none
after_run s x out_of_fuel = none

-- The next access of the insertion of `x`.
unfoldable pub step_of : Comparator → (Ptr → Task) → System → Ptr → Option System
step_of c tasks s x =
    if may_step tasks s x then after_run s x (insert_step c x (tasks x) s.list (s.pcs x)) else none

-- The accesses of the insertions of `order`.
unfoldable pub schedule : Comparator → (Ptr → Task) → List Ptr → System → Option System
schedule c tasks [] s = some s
schedule c tasks (x ∷ xs) s = elim (step_of c tasks s x) [
  | none ↦ none
  | some t ↦ schedule c tasks xs t
]

value_or : System → Option System → System
value_or s none = s
value_or s (some t) = t

some_inj : (s t : System) → ◌≡◌ {A = Option System} (some s) (some t) → s ≡ t
unfolding value_or
some_inj s t e = ap (value_or s) e

module _ (c : Comparator) (tasks : Ptr → Task) where
  may_step-guard :
      (s : System) (x : Ptr)
      → may_step tasks s x ≡ true
      → (x ≢ null) × ((places (tasks x) (s.pcs x) ≡ false) ⊎ (s.list.heap x ≡ none))
  may_step-guard s x e = (
    ground (arith, e),
    elim (Bool-cases (places (tasks x) (s.pcs x))) [
      | inr quiet ↦ inl quiet
      | inl makes ↦ elim (Option-cases (s.list.heap x)) [
        | inl free ↦ inr free
        | inr (n, there) ↦ absurd (ground (arith, e, makes, there))
      ]
    ],
  )

  after_run-Step :
      (s t : System) (x : Ptr) (r : Run (SkipList × Pc))
      → (x ≢ null) × ((places (tasks x) (s.pcs x) ≡ false) ⊎ (s.list.heap x ≡ none))
      → insert_step c x (tasks x) s.list (s.pcs x) ≡ r
      → after_run s x r ≡ some t
      → Step c tasks s t
  after_run-Step s t x (ok (list, pc)) guard e there =
      subst (Step c tasks s) (some_inj (record { list = list; pcs = update_pc s.pcs x pc }) t there)
        (access x list pc guard.0 guard.1 e)
  after_run-Step s t x panic guard e there = absurd (cc)
  after_run-Step s t x fault guard e there = absurd (cc)
  after_run-Step s t x out_of_fuel guard e there = absurd (cc)

  step_of-Step : (s t : System) (x : Ptr) → step_of c tasks s x ≡ some t → Step c tasks s t
  unfolding step_of
  step_of-Step s t x e = elim (Bool-cases (may_step tasks s x)) [
    | inr stuck ↦ absurd (ground (arith, e, stuck))
    | inl goes ↦
        after_run-Step s t x (insert_step c x (tasks x) s.list (s.pcs x)) (may_step-guard s x goes)
          refl
          (ap
              (λ (b : Bool).
                if b then after_run s x (insert_step c x (tasks x) s.list (s.pcs x)) else none)
              (sym goes)
            ∙ e)
  ]

  Reach-from : (s t u : System) → Step c tasks s t → Reach c tasks t u → Reach c tasks s u
  Reach-from s t u step started = later started step
  Reach-from s t u step (later {t = b} r last) = later (Reach-from s t b step r) last

  pub schedule-Reach :
      (order : List Ptr) (s u : System) → schedule c tasks order s ≡ some u → Reach c tasks s u
  unfolding schedule
  schedule-Reach [] s u e = subst (Reach c tasks s) (some_inj s u e) started
  schedule-Reach (x ∷ xs) s u e = elim (Option-cases (step_of c tasks s x)) [
    | inl stuck ↦ absurd (ground (arith, e, stuck))
    | inr (t, goes) ↦
        Reach-from s t u (step_of-Step s t x goes) (schedule-Reach xs t u (ground (arith, e, goes)))
  ]
