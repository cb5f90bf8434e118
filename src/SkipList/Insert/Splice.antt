-- ===== src/SkipList/Insert/Splice.antt =====
-- A node spliced into the chain of one level (crates/engine/src/memtable/skip_list.rs).
use victory_db.Base.{
  ℕ, ◌+◌, ◌≤◌, ◌≡◌, ◌≢◌, refl, sym, subst, ◌∙◌, ◌⊎◌, inl, inr, List, [], ◌∷◌, ◌++◌, length,
  length-append, arith,
}
use victory_db.Base.Run.{ok}
use victory_db.SkipList.Node.{Ptr, null, Heap, load_next}
use victory_db.SkipList.Chain.{Chain, Has, last, first, load-first, Chain-ne, Chain-after}
use victory_db.SkipList.Insert.Stored.{Stored}

-- A chain depends on the slots of its start and its nodes only.
pub Chain-agree :
    (h h' : Heap) (i : ℕ) (a : Ptr) (xs : List Ptr)
    → ((p : Ptr) → (p ≡ a) ⊎ Has p xs → load_next h' p i ≡ load_next h p i)
    → Chain h i a xs
    → Chain h' i a xs
Chain-agree h h' i a [] same ch = same a (inl refl) ∙ ch
Chain-agree h h' i a (x ∷ xs) same ch =
    (same a (inl refl) ∙ ch.0, ch.1, Chain-agree h h' i x xs (λ p there. same p (inr there)) ch.2)

not-Has_shorter :
    (h : Heap) (i : ℕ) (a b : Ptr) (xs ys : List Ptr)
    → Chain h i a xs
    → Chain h i b ys
    → length ys ≤ length xs
    → Has a ys
    → ⊥
not-Has_shorter h i a b xs [] ch d l there = absurd there
not-Has_shorter h i a b xs (y ∷ ys) ch d l (inl e) = Chain-ne h i a y xs ys ch d.2 (omega arith) e
not-Has_shorter h i a b xs (y ∷ ys) ch d l (inr there) =
    not-Has_shorter h i a y xs ys ch d.2 (omega arith) there

-- The start of a chain is none of its nodes.
pub not-Has_start : (h : Heap) (i : ℕ) (a : Ptr) (xs : List Ptr) → Chain h i a xs → Has a xs → ⊥
not-Has_start h i a xs ch there = not-Has_shorter h i a a xs xs ch ch (omega arith) there

-- Every node of a chain has a slot at its level.
pub Has-load :
    (h : Heap) (i : ℕ) (a p : Ptr) (xs : List Ptr)
    → Chain h i a xs
    → Has p xs
    → (q : Ptr) × (load_next h p i ≡ ok q)
Has-load h i a p [] ch there = absurd there
Has-load h i a p (x ∷ xs) ch (inl e) = (first xs, rw e (load-first h i x xs ch.2))
Has-load h i a p (x ∷ xs) ch (inr there) = Has-load h i x p xs ch.2 there

Chain-start :
    (h : Heap) (i : ℕ) (a x : Ptr) (vs : List Ptr)
    → Chain h i a vs
    → load_next h x i ≡ ok (first vs)
    → Chain h i x vs
Chain-start h i a x [] ch e = e
Chain-start h i a x (v ∷ vs) ch e = (e, ch.1, ch.2)

-- A node that points to the second part, stored into the last slot of the first part.
pub Chain-splice :
    (h h' : Heap) (i : ℕ) (a x : Ptr) (us vs : List Ptr)
    → Chain h i a (us ++ vs)
    → load_next h x i ≡ ok (first vs)
    → x ≢ null
    → x ≢ a
    → (Has x (us ++ vs) → ⊥)
    → Stored h (last a us) i x h'
    → Chain h' i a (us ++ (x ∷ vs))
Chain-splice h h' i a x [] vs ch e ne apart out stored = (
  stored.there,
  ne,
  Chain-agree h h' i x vs
      (λ p there. stored.other p i (
        inl (λ same. elim there [
          | inl here ↦ apart (sym here ∙ same)
          | inr later ↦ not-Has_start h i a vs ch (subst (λ (q : Ptr). Has q vs) same later)
        ])))
      (Chain-start h i a x vs ch e),
)
Chain-splice h h' i a x (u ∷ us) vs ch e ne apart out stored =
    let after = Chain-after h i u us vs ch.2 in
    let differ =
      Chain-ne h i a (last u us) (u ∷ (us ++ vs)) vs ch after
        (omega (arith, length-append us vs)) in
    (
      stored.other a i (inl differ) ∙ ch.0,
      ch.1,
      Chain-splice h h' i u x us vs ch.2 e ne (λ same. out (inl same)) (λ there. out (inr there))
          stored,
    )

pub Has-insert : (p x : Ptr) (us vs : List Ptr) → Has p (us ++ vs) → Has p (us ++ (x ∷ vs))
Has-insert p x [] vs there = inr there
Has-insert p x (u ∷ us) vs (inl e) = inl e
Has-insert p x (u ∷ us) vs (inr there) = inr (Has-insert p x us vs there)

pub Has-inserted : (x : Ptr) (us vs : List Ptr) → Has x (us ++ (x ∷ vs))
Has-inserted x [] vs = inl refl
Has-inserted x (u ∷ us) vs = inr (Has-inserted x us vs)

pub Has-of_inserted :
    (p x : Ptr) (us vs : List Ptr) → Has p (us ++ (x ∷ vs)) → (p ≡ x) ⊎ Has p (us ++ vs)
Has-of_inserted p x [] vs there = there
Has-of_inserted p x (u ∷ us) vs (inl e) = inr (inl e)
Has-of_inserted p x (u ∷ us) vs (inr there) = elim (Has-of_inserted p x us vs there) [
  | inl e ↦ inl e
  | inr there ↦ inr (inr there)
]

pub length-inserted : (x : Ptr) (us vs : List Ptr) → length (us ++ (x ∷ vs)) ≡ length (us ++ vs) + 1
length-inserted x us vs = omega (arith, length-append us (x ∷ vs), length-append us vs)
