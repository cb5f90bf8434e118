-- ===== src/SkipList/Iteration.antt =====
-- Iteration and seeking (crates/engine/src/memtable/skip_list.rs) on a well-formed skip list.
use victory_db.Base.{
  ℕ, zero, suc, cmp, true, ◌<◌, ◌≡◌, ◌≢◌, refl, ap, subst, ◌∙◌, inl, inr, none, false, List, [],
  ◌∷◌, ◌++◌, All, length, length-append, Bytes, arith, ◌==◌, if◌then◌else◌, Bool-cases,
}
use victory_db.Base.Run.{ok}
use victory_db.Key.Comparator.{Comparator, less, IsLawful}
use victory_db.SkipList.Node.{Ptr, null, Heap, load_next, deref, get_key_bytes, get_value_bytes}
use victory_db.SkipList.Search.{SkipList, TraversalCtx, search, search_node, new}
use victory_db.SkipList.Iter.{
  iter_next, collect, seek, Bound, included, excluded, unbounded, past_end, range_next,
  range_collect,
}
use victory_db.SkipList.Chain.{Chain, last, first, load-first, Chain-after, All-of_Has}
use victory_db.SkipList.Invariant.{key_of, value_of, Sorted, AllLess, FirstNotLess, IsSkipList}
use victory_db.Base.Slices.{cmp-swap}
use Prim.Native.Nat.{Ordering}
use victory_db.SkipList.Found.{search-Cut}

collect-Chain :
    (fuel : ℕ) (h : Heap) (p : Ptr) (xs : List Ptr)
    → Chain h 0 p xs
    → length xs < fuel
    → collect fuel h (first xs) ≡ ok xs
unfolding collect iter_next
collect-Chain zero h p xs ch enough = absurd (omega arith)
collect-Chain (suc fuel) h p [] ch enough = refl
collect-Chain (suc fuel) h p (x ∷ xs) ch enough =
    let not_null : (x == null) ≡ false = ground (arith, ch.1) in
    let rest = collect-Chain fuel h x xs ch.2 (omega arith) in
    rw (not_null, load-first h 0 x xs ch.2, rest)

-- A key is in a range with this end.
abbrev pub IsWithin : Bound → Bytes → Type 0
IsWithin (included b) key = cmp key b ≢ Ordering.gt
IsWithin (excluded b) key = cmp key b ≡ Ordering.lt
IsWithin unbounded key = Unit

-- The range ends before the nodes `xs`, of which there are none or the first is not in it.
abbrev pub EndsAt : Heap → Bound → List Ptr → Type 0
EndsAt h end_bound [] = Unit
EndsAt h end_bound (x ∷ xs) = IsWithin end_bound (key_of h x) → ⊥

past_end-IsWithin : (b : Bound) (key : Bytes) → past_end b key ≡ false → IsWithin b key
unfolding past_end
past_end-IsWithin (included b) key e = λ above. ground (arith, e, above)
past_end-IsWithin (excluded b) key e = ground (arith, e, cmp-swap key b)
past_end-IsWithin unbounded key e = tt

past_end-beyond : (b : Bound) (key : Bytes) → past_end b key ≡ true → IsWithin b key → ⊥
unfolding past_end
past_end-beyond (included b) key e w = w (ground (arith, e))
past_end-beyond (excluded b) key e w = ground (arith, e, w, cmp-swap key b)
past_end-beyond unbounded key e w = cc

-- The nodes of a range that ends at `end_bound`, as the code finds its end.
abbrev until : Heap → Bound → List Ptr → List Ptr
until h end_bound [] = []
until h end_bound (x ∷ xs) =
    if past_end end_bound (key_of h x) then [] else x ∷ until h end_bound xs

until-ends :
    (h : Heap) (b : Bound) (xs : List Ptr)
    → (outside : List Ptr) × (xs ≡ until h b xs ++ outside)
      × All (λ x. IsWithin b (key_of h x)) (until h b xs)
      × EndsAt h b outside
until-ends h b [] = ([], refl, tt, tt)
until-ends h b (x ∷ xs) = elim (Bool-cases (past_end b (key_of h x))) [
  | inl past ↦ rw past (x ∷ xs, refl, tt, past_end-beyond b (key_of h x) past)
  | inr before ↦
      let (outside, e, inside, ends) = until-ends h b xs in
      rw before
        (outside, ap (λ ys. x ∷ ys) e, (past_end-IsWithin b (key_of h x) before, inside), ends)
]

pub load-get_key :
    (h : Heap) (level : ℕ) (p q : Ptr)
    → load_next h p level ≡ ok q
    → get_key_bytes h p ≡ ok (key_of h p)
unfolding load_next deref get_key_bytes
load-get_key h level p q e = ground arith

pub load-get_value :
    (h : Heap) (level : ℕ) (p q : Ptr)
    → load_next h p level ≡ ok q
    → get_value_bytes h p ≡ ok (value_of h p)
unfolding load_next deref get_value_bytes
load-get_value h level p q e = ground arith

range_collect-Chain :
    (fuel : ℕ) (h : Heap) (end_bound : Bound) (p : Ptr) (xs : List Ptr)
    → Chain h 0 p xs
    → length xs < fuel
    → range_collect fuel h end_bound (first xs) ≡ ok (until h end_bound xs)
unfolding range_collect range_next
range_collect-Chain zero h end_bound p xs ch enough = absurd (omega arith)
range_collect-Chain (suc fuel) h end_bound p [] ch enough = refl
range_collect-Chain (suc fuel) h end_bound p (x ∷ xs) ch enough =
    let not_null : (x == null) ≡ false = ground (arith, ch.1) in
    let rest = range_collect-Chain fuel h end_bound x xs ch.2 (omega arith) in
    let next = load-first h 0 x xs ch.2 in
    let key = load-get_key h 0 x (first xs) next in
    elim (Bool-cases (past_end end_bound (key_of h x))) [
      | inl past ↦ rw (not_null, key, past)
      | inr before ↦ rw (not_null, key, before, next, rest)
    ]

module _ (c : Comparator) (Valid : Bytes → Type 0) (law : IsLawful c Valid) where
  abbrev pub NotLess : Heap → Bytes → List Ptr → Type 0
  NotLess h key xs = All (λ x. less c (key_of h x) key ≡ false) xs

  pub rest-NotLess :
      (h : Heap) (key : Bytes) (xs : List Ptr)
      → Valid key
      → Sorted c h xs
      → All (λ x. Valid (key_of h x)) xs
      → FirstNotLess c h key xs
      → NotLess h key xs
  rest-NotLess h key [] kv s v f = tt
  rest-NotLess h key (x ∷ xs) kv s v f = (f, later xs s.0 v.1)
    where
      later :
          (ys : List Ptr)
          → All (λ y. less c (key_of h y) (key_of h x) ≡ false) ys
          → All (λ y. Valid (key_of h y)) ys
          → NotLess h key ys
      later [] b w = tt
      later (y ∷ ys) b w = (
        elim (Bool-cases (less c (key_of h y) key)) [
          | inl l ↦
              let m = law.le_lt_trans (key_of h x) (key_of h y) key v.0 w.0 kv b.0 l in
              absurd (cc (m, f))
          | inr g ↦ g
        ],
        later ys b.1 w.1,
      )

  seek-successor :
      (fuel : ℕ) (s : SkipList) (key : Bytes) (t : TraversalCtx)
      → search c fuel s key ≡ ok t
      → t.searched_node ≡ none
      → seek c fuel s key ≡ ok (t.successors 0)
  unfolding seek
  seek-successor fuel s key t e n = rw (e, n)

  pub All-right {κ} : (P : Ptr → Type κ) (xs ys : List Ptr) → All P (xs ++ ys) → All P ys
  All-right P [] ys a = a
  All-right P (x ∷ xs) ys a = All-right P xs ys a.1

  pub Sorted-right : (h : Heap) (xs ys : List Ptr) → Sorted c h (xs ++ ys) → Sorted c h ys
  Sorted-right h [] ys s = s
  Sorted-right h (x ∷ xs) ys s = Sorted-right h xs ys s.1

  -- On a well-formed list, with more fuel than entries, the base level is some nodes less than the
  -- key and then nodes that are not; `search_node` and `seek` return the first of those that are not
  -- (null where there is none), the iterator from there gives all of them, and the range iterator
  -- from there gives a first part of them: all of those keys are in the range, at most the end bound
  -- where it is included and less than it where it is excluded, as slices compare, and the first node
  -- behind them, if there is one, is not in the range.
  pub seek-range :
      (fuel : ℕ) (s : SkipList) (lists : ℕ → List Ptr) (key : Bytes) (end_bound : Bound)
      → IsSkipList c Valid s lists
      → Valid key
      → s.entries < fuel
      → (before : List Ptr) × (after : List Ptr) × (lists 0 ≡ before ++ after)
        × AllLess c s.heap key before
        × NotLess s.heap key after
        × (search_node c fuel s key ≡ ok (first after))
        × (seek c fuel s key ≡ ok (first after))
        × (collect fuel s.heap (first after) ≡ ok after)
        × ((inside : List Ptr) × (outside : List Ptr) × (after ≡ inside ++ outside)
            × All (λ x. IsWithin end_bound (key_of s.heap x)) inside
            × EndsAt s.heap end_bound outside
            × (range_collect fuel s.heap end_bound (first after) ≡ ok inside))
  unfolding search_node
  seek-range fuel s lists key end_bound is key_valid enough =
      let (t, found, unset, cuts) = search-Cut c Valid law fuel s lists key is key_valid enough in
      let cut = cuts 0 (omega arith) in
      let h = s.heap in
      let size = is.sizes 0 in
      let ends = until-ends h end_bound cut.after in
      let valid = All-of_Has (λ p. Valid (key_of h p)) (lists 0) is.valid in
      let ch =
        Chain-after h 0 s.head cut.before cut.after
          (subst (Chain h 0 s.head) cut.whole (is.chains 0 (omega arith))) in
      let small : length cut.after < fuel =
        omega (arith, ap length cut.whole, length-append cut.before cut.after) in
      (
        cut.before,
        cut.after,
        cut.whole,
        cut.lesser,
        rest-NotLess h key cut.after key_valid
            (Sorted-right h cut.before cut.after (subst (Sorted c h) cut.whole (is.sorted 0)))
            (All-right (λ x. Valid (key_of h x)) cut.before cut.after
              (subst (All (λ x. Valid (key_of h x))) cut.whole valid))
            cut.rest,
        rw (found, cut.succ),
        seek-successor fuel s key t found unset ∙ ap ok cut.succ,
        collect-Chain fuel h (last s.head cut.before) cut.after ch small,
        (
          until h end_bound cut.after,
          ends.0,
          ends.1,
          ends.2,
          ends.3,
          range_collect-Chain fuel h end_bound (last s.head cut.before) cut.after ch small,
        ),
      )

  -- A new list, whose sentinel is not at the null address, is well-formed and empty on every level.
  pub new-IsSkipList : (head : Ptr) → head ≢ null → IsSkipList c Valid (new head) (λ level. [])
  unfolding new load_next deref
  new-IsSkipList head ne = record {
    chains = λ level l. ground arith;
    sorted = λ level. tt;
    nested = λ level p there. absurd there;
    valid = λ p there. absurd there;
    empty = λ level l. refl;
    top = omega arith;
    sizes = λ level. omega arith;
  }
