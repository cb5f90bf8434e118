-- ===== src/SkipList/Insert/Entries.antt =====
-- The entries of a skip list with one more in its place, and the reference for it: insertion into a
-- sorted list of entries.
use victory_db.Base.{◌≡◌, refl, ap, ap₂, ◌∙◌, false, List, [], ◌∷◌, ◌++◌, Bytes, All, if◌then◌else◌}
use victory_db.Key.Comparator.{Comparator, less, IsLawful}
use victory_db.SkipList.Node.{Ptr, Heap}
use victory_db.SkipList.Invariant.{key_of, value_of, Sorted, AllLess, FirstNotLess, Cut, contents}
use victory_db.SkipList.Iteration.{NotLess}

-- The entry in front of the first whose key is not less.
unfoldable pub insert_entry :
    Comparator → Bytes → Bytes → List (Bytes × Bytes) → List (Bytes × Bytes)
insert_entry c key value [] = (key, value) ∷ []
insert_entry c key value ((k, v) ∷ es) =
    if less c k key then (k, v) ∷ insert_entry c key value es else (key, value) ∷ (k, v) ∷ es

-- Two heaps with the same keys and values at the nodes of a list.
abbrev pub AgreeOn : Heap → Heap → List Ptr → Type 0
AgreeOn h h' xs = All (λ p. (key_of h' p ≡ key_of h p) × (value_of h' p ≡ value_of h p)) xs

pub contents-AgreeOn :
    (h h' : Heap) (xs : List Ptr) → AgreeOn h h' xs → contents h' xs ≡ contents h xs
contents-AgreeOn h h' [] a = refl
contents-AgreeOn h h' (x ∷ xs) ((k, v), a) =
    ap₂ (λ (e : Bytes × Bytes) (t : List (Bytes × Bytes)). e ∷ t)
      (ap₂ (λ (s t : Bytes). (s, t)) k v) (contents-AgreeOn h h' xs a)

module _ (c : Comparator) (h h' : Heap) where
  less_all :
      (b : Bytes) (xs : List Ptr)
      → AgreeOn h h' xs
      → All (λ y. less c (key_of h y) b ≡ false) xs
      → All (λ y. less c (key_of h' y) b ≡ false) xs
  less_all b [] a s = tt
  less_all b (x ∷ xs) a s = (ap (λ k. less c k b) a.0.0 ∙ s.0, less_all b xs a.1 s.1)

  pub Sorted-AgreeOn : (xs : List Ptr) → AgreeOn h h' xs → Sorted c h xs → Sorted c h' xs
  Sorted-AgreeOn [] a s = tt
  Sorted-AgreeOn (x ∷ xs) a s =
      let e : key_of h' x ≡ key_of h x = a.0.0 in
      (rw e (less_all (key_of h x) xs a.1 s.0), Sorted-AgreeOn xs a.1 s.1)

  AllLess-AgreeOn :
      (key : Bytes) (xs : List Ptr) → AgreeOn h h' xs → AllLess c h key xs → AllLess c h' key xs
  AllLess-AgreeOn key [] a s = tt
  AllLess-AgreeOn key (x ∷ xs) a s =
      (ap (λ k. less c k key) a.0.0 ∙ s.0, AllLess-AgreeOn key xs a.1 s.1)

  AgreeOn-left : (xs ys : List Ptr) → AgreeOn h h' (xs ++ ys) → AgreeOn h h' xs
  AgreeOn-left [] ys a = tt
  AgreeOn-left (x ∷ xs) ys a = (a.0, AgreeOn-left xs ys a.1)

  AgreeOn-right : (xs ys : List Ptr) → AgreeOn h h' (xs ++ ys) → AgreeOn h h' ys
  AgreeOn-right [] ys a = a
  AgreeOn-right (x ∷ xs) ys a = AgreeOn-right xs ys a.1

  FirstNotLess-AgreeOn :
      (key : Bytes) (xs : List Ptr)
      → AgreeOn h h' xs
      → FirstNotLess c h key xs
      → FirstNotLess c h' key xs
  FirstNotLess-AgreeOn key [] a f = tt
  FirstNotLess-AgreeOn key (x ∷ xs) a f = ap (λ k. less c k key) a.0.0 ∙ f

  pub Cut-AgreeOn :
      (key : Bytes) (head : Ptr) (xs : List Ptr) (p q : Ptr)
      → AgreeOn h h' xs
      → Cut c h key head xs p q
      → Cut c h' key head xs p q
  Cut-AgreeOn key head xs p q a cut =
      let a' : AgreeOn h h' (cut.before ++ cut.after) = rw (← cut.whole) a in
      record {
        before = cut.before;
        after = cut.after;
        whole = cut.whole;
        lesser = AllLess-AgreeOn key cut.before (AgreeOn-left cut.before cut.after a') cut.lesser;
        rest = FirstNotLess-AgreeOn key cut.after (AgreeOn-right cut.before cut.after a') cut.rest;
        pred = cut.pred;
        succ = cut.succ;
      }

module _ (c : Comparator) (h : Heap) (key value : Bytes) (x : Ptr) (own_key : key_of h x ≡ key)
    (own_value : value_of h x ≡ value) where
  -- A node between those that are less and the first that is not.
  pub contents-insert :
      (us vs : List Ptr)
      → AllLess c h key us
      → FirstNotLess c h key vs
      → contents h (us ++ (x ∷ vs)) ≡ insert_entry c key value (contents h (us ++ vs))
  unfolding insert_entry
  contents-insert [] [] a f = rw (own_key, own_value)
  contents-insert [] (v ∷ vs) a f = rw (own_key, own_value, f)
  contents-insert (u ∷ us) vs a f =
      rw (a.0) (ap (λ t. (key_of h u, value_of h u) ∷ t) (contents-insert us vs a.1 f))

  module _ (Valid : Bytes → Type 0) (law : IsLawful c Valid) (key_valid : Valid key) where
    All_with {κ} :
        (P : Ptr → Type κ) (us vs : List Ptr) → P x → All P (us ++ vs) → All P (us ++ (x ∷ vs))
    All_with P [] vs p a = (p, a)
    All_with P (u ∷ us) vs p a = (a.0, All_with P us vs p a.1)

    pub Sorted-insert :
        (us vs : List Ptr)
        → Sorted c h (us ++ vs)
        → All (λ y. Valid (key_of h y)) (us ++ vs)
        → AllLess c h key us
        → NotLess c Valid law h key vs
        → Sorted c h (us ++ (x ∷ vs))
    Sorted-insert [] vs s v a n = (rw own_key n, s)
    Sorted-insert (u ∷ us) vs s v a n =
        let below : less c (key_of h x) (key_of h u) ≡ false =
          rw own_key (law.asym (key_of h u) key v.0 key_valid a.0) in
        (
          All_with (λ y. less c (key_of h y) (key_of h u) ≡ false) us vs below s.0,
          Sorted-insert us vs s.1 v.1 a.1 n,
        )
