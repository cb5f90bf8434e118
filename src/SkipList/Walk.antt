-- ===== src/SkipList/Walk.antt =====
-- One level of a search (crates/engine/src/memtable/skip_list.rs): where it starts, and how far the
-- walk to the right goes.
use victory_db.Base.{
  ℕ, zero, suc, ◌≤◌, ◌<◌, ◌≡◌, refl, sym, ap, subst, ◌∙◌, ◌⊎◌, inl, inr, true, false, List, [], ◌∷◌,
  ◌++◌, append_assoc, All, All-append, length, length-append, Bytes, arith, ◌==◌, Bool-cases,
}
use victory_db.Base.Run.{ok}
use native.Mathlib.Decide.{dec_lt}
use victory_db.Key.Comparator.{Comparator, less, IsLawful}
use victory_db.SkipList.Node.{Ptr, null, Heap, deref, load_next, get_key_bytes}
use victory_db.SkipList.Search.{start_level, node_less, walk}
use victory_db.SkipList.Chain.{
  Chain, Has, last, first, load-first, Chain-after, last-append, Has-split, Has-append_left,
  Has-append_right, Has-last, All-Has,
}
use victory_db.SkipList.Invariant.{key_of, Sorted, AllLess, FirstNotLess, Cut}

abbrev pub Starts : Heap → Ptr → (ℕ → List Ptr) → ℕ → Type 0
Starts h head lists top =
    (start : ℕ) × (start_level h head top ≡ ok start)
    × (start ≤ top)
    × ((level : ℕ) → start ≤ level → level < top → lists level ≡ [])

start_level_step :
    (h : Heap) (head : Ptr) (lists : ℕ → List Ptr) (top : ℕ) (xs : List Ptr)
    → lists top ≡ xs
    → Chain h top head (lists top)
    → Starts h head lists top
    → Starts h head lists (suc top)
unfolding start_level
start_level_step h head lists top [] e here (start, eq, le, none_there) =
    let ch : Chain h top head [] = subst (Chain h top head) e here in
    (
      start,
      rw ch eq,
      omega arith,
      λ level a b. elim (dec_lt level top) [
        | yes l ↦ none_there level a l
        | no l ↦ subst (λ (t : ℕ). lists t ≡ []) (omega arith) e
      ],
    )
start_level_step h head lists top (x ∷ xs) e here below =
    let ch : Chain h top head (x ∷ xs) = subst (Chain h top head) e here in
    (suc top, rw ch.0 (ground (arith, ch.1)), omega arith, λ level a b. absurd (omega arith))

-- The first level from the top that is not empty; those from there to the top are.
pub start_level-ok :
    (h : Heap) (head : Ptr) (lists : ℕ → List Ptr) (top : ℕ)
    → ((level : ℕ) → level < top → Chain h level head (lists level))
    → Starts h head lists top
unfolding start_level
start_level-ok h head lists zero chains =
    (zero, refl, omega arith, λ level a b. absurd (omega arith))
start_level-ok h head lists (suc top) chains =
    start_level_step h head lists top (lists top) refl (chains top (omega arith))
      (start_level-ok h head lists top (λ level l. chains level (omega arith)))

pub All-of_append {κ} : (P : Ptr → Type κ) (xs ys : List Ptr) → All P (xs ++ ys) → All P ys
All-of_append P [] ys a = a
All-of_append P (x ∷ xs) ys a = All-of_append P xs ys a.1

module _ (c : Comparator) (Valid : Bytes → Type 0) (law : IsLawful c Valid) (key : Bytes)
    (key_valid : Valid key) where
  pub node_less-ok :
      (h : Heap) (level : ℕ) (p q : Ptr)
      → load_next h p level ≡ ok q
      → Valid (key_of h p)
      → node_less c h p key ≡ ok (less c (key_of h p) key)
  unfolding node_less load_next deref get_key_bytes
  node_less-ok h level p q e v = let r = law.returns (key_of h p) key v key_valid in ground arith

  -- The walk stops at the first node that is not less.
  walk-ok :
      (fuel : ℕ) (h : Heap) (level : ℕ) (p : Ptr) (xs : List Ptr)
      → Chain h level p xs
      → All (λ x. Valid (key_of h x)) xs
      → length xs < fuel
      → (us : List Ptr) × (vs : List Ptr) × (xs ≡ us ++ vs)
        × AllLess c h key us
        × FirstNotLess c h key vs
        × (walk c fuel h level key p (first xs) ≡ ok (last p us, first vs))
  unfolding walk
  walk-ok zero h level p xs ch v enough = absurd (omega arith)
  walk-ok (suc fuel) h level p [] ch v enough = ([], [], refl, tt, tt, refl)
  walk-ok (suc fuel) h level p (x ∷ xs) ch v enough = elim (Bool-cases (less c (key_of h x) key)) [
    | inl l ↦
        let (us, vs, e, a, f, w) = walk-ok fuel h level x xs ch.2 v.1 (omega arith) in
        (x ∷ us, vs, ap (λ t. x ∷ t) e, (l, a), f, step (l) ∙ w)
    | inr g ↦ ([], x ∷ xs, refl, tt, g, stop g)
  ]
    where
      test : node_less c h x key ≡ ok (less c (key_of h x) key)
      test = node_less-ok h level x (first xs) (load-first h level x xs ch.2) v.0

      not_null : (x == null) ≡ false
      not_null = ground (arith, ch.1)

      step :
          less c (key_of h x) key ≡ true
          → walk c (suc fuel) h level key p x ≡ walk c fuel h level key x (first xs)
      step l = rw (not_null, test, l, load-first h level x xs ch.2)

      stop : less c (key_of h x) key ≡ false → walk c (suc fuel) h level key p x ≡ ok (p, x)
      stop g = rw (not_null, test, g)

  -- Where the search of a level may begin: at the head, or at a smaller node of the level.
  abbrev pub Spot : Heap → Ptr → List Ptr → Ptr → Type 0
  Spot h head xs p = (p ≡ head) ⊎ (Has p xs × (less c (key_of h p) key ≡ true))

  -- In a sorted list all nodes in front of a smaller node are smaller.
  pub front-AllLess :
      (h : Heap) (us : List Ptr) (p : Ptr) (vs : List Ptr)
      → Sorted c h (us ++ (p ∷ vs))
      → All (λ x. Valid (key_of h x)) (us ++ (p ∷ vs))
      → less c (key_of h p) key ≡ true
      → AllLess c h key us
  front-AllLess h [] p vs s v l = tt
  front-AllLess h (u ∷ us) p vs s v l =
      let in_list : Has p (us ++ (p ∷ vs)) = Has-append_right p us (p ∷ vs) (inl refl) in
      (
        law.le_lt_trans (key_of h u) (key_of h p) key v.0
            (All-Has (λ x. Valid (key_of h x)) (us ++ (p ∷ vs)) v.1 p in_list) key_valid
            (All-Has (λ y. less c (key_of h y) (key_of h u) ≡ false) (us ++ (p ∷ vs)) s.0 p in_list)
            l,
        front-AllLess h us p vs s.1 v.1 l,
      )

  Spot-of_last :
      (h : Heap) (head : Ptr) (xs us vs : List Ptr)
      → xs ≡ us ++ vs
      → AllLess c h key us
      → Spot h head xs (last head us)
  Spot-of_last h head xs [] vs whole a = inl refl
  Spot-of_last h head xs (u ∷ us) vs whole a =
      let there : Has (last u us) (u ∷ us) = Has-last u u us in
      inr (
        subst (Has (last u us)) (sym whole) (Has-append_left (last u us) (u ∷ us) vs there),
        All-Has (λ x. less c (key_of h x) key ≡ true) (u ∷ us) a (last u us) there,
      )

  -- One level: from its spot the walk finds the cut, and its end is the spot below.
  pub level-ok :
      (fuel : ℕ) (h : Heap) (level : ℕ) (head p : Ptr) (xs : List Ptr)
      → Chain h level head xs
      → Sorted c h xs
      → All (λ x. Valid (key_of h x)) xs
      → length xs < fuel
      → Spot h head xs p
      → (first_ptr : Ptr) × (pred : Ptr) × (succ : Ptr) × (load_next h p level ≡ ok first_ptr)
        × (walk c fuel h level key p first_ptr ≡ ok (pred, succ))
        × Cut c h key head xs pred succ
        × Spot h head xs pred
  level-ok fuel h level head p xs ch s v enough (inl e) =
      let (us, vs, whole, a, f, w) = walk-ok fuel h level head xs ch v enough in
      (
        first xs,
        last head us,
        first vs,
        rw e (load-first h level head xs ch),
        rw e w,
        record {
          before = us;
          after = vs;
          whole = whole;
          lesser = a;
          rest = f;
          pred = refl;
          succ = refl;
        },
        Spot-of_last h head xs us vs whole a,
      )
  level-ok fuel h level head p xs ch s v enough (inr (there, l)) =
      let (us, vs, split) = Has-split p xs there in
      let ch' : Chain h level head (us ++ (p ∷ vs)) = subst (Chain h level head) split ch in
      let v' = subst (All (λ x. Valid (key_of h x))) split v in
      let front = front-AllLess h us p vs (subst (Sorted c h) split s) v' l in
      let after : Chain h level p vs = (Chain-after h level head us (p ∷ vs) ch').2 in
      let (ws, zs, e, a, f, w) =
        walk-ok fuel h level p vs after (All-of_append (λ x. Valid (key_of h x)) us (p ∷ vs) v').1
          (omega (arith, ap length split, length-append us (p ∷ vs))) in
      let whole = split ∙ ap (λ t. us ++ (p ∷ t)) e ∙ sym (append_assoc us (p ∷ ws) zs) in
      let lesser = All-append (λ x. less c (key_of h x) key ≡ true) us (p ∷ ws) front (l, a) in
      (
        first vs,
        last p ws,
        first zs,
        load-first h level p vs after,
        w,
        record {
          before = us ++ (p ∷ ws);
          after = zs;
          whole = whole;
          lesser = lesser;
          rest = f;
          pred = sym (last-append head p us ws);
          succ = refl;
        },
        subst (Spot h head xs) (last-append head p us ws)
            (Spot-of_last h head xs (us ++ (p ∷ ws)) zs whole lesser),
      )
