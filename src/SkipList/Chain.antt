-- ===== src/SkipList/Chain.antt =====
-- The linked list of one level of a skip list, as the list of its nodes.
use victory_db.Base.{
  ℕ, ◌≡◌, ◌≢◌, refl, sym, ap, subst, ◌∙◌, ◌⊎◌, inl, inr, List, [], ◌∷◌, ◌++◌, All, length,
}
use victory_db.Base.Run.{Run, ok}
use victory_db.SkipList.Node.{Ptr, null, Heap, load_next}

-- From `p` on, the pointers of `level` lead through the nodes `xs` to null.
abbrev pub Chain : Heap → ℕ → Ptr → List Ptr → Type 0
Chain h level p [] = load_next h p level ≡ ok null
Chain h level p (q ∷ qs) = (load_next h p level ≡ ok q) × (q ≢ null) × Chain h level q qs

abbrev pub Has : Ptr → List Ptr → Type 0
Has p [] = ⊥
Has p (x ∷ xs) = (p ≡ x) ⊎ Has p xs

abbrev pub last : Ptr → List Ptr → Ptr
last p [] = p
last p (q ∷ qs) = last q qs

abbrev pub first : List Ptr → Ptr
first [] = null
first (p ∷ ps) = p

ok_inj : (p q : Ptr) → ◌≡◌ {A = Run Ptr} (ok p) (ok q) → p ≡ q
ok_inj p q e = cc

module _ (h : Heap) (level : ℕ) where
  pub load-first :
      (p : Ptr) (xs : List Ptr) → Chain h level p xs → load_next h p level ≡ ok (first xs)
  load-first p [] ch = ch
  load-first p (q ∷ qs) ch = ch.0

  -- A node has one chain.
  pub Chain-unique :
      (p : Ptr) (xs ys : List Ptr) → Chain h level p xs → Chain h level p ys → xs ≡ ys
  Chain-unique p [] [] a b = refl
  Chain-unique p [] (y ∷ ys) a b = absurd (b.1 (ok_inj y null (sym b.0 ∙ a)))
  Chain-unique p (x ∷ xs) [] a b = absurd (a.1 (ok_inj x null (sym a.0 ∙ b)))
  Chain-unique p (x ∷ xs) (y ∷ ys) a b =
      let e : y ≡ x = ok_inj y x (sym b.0 ∙ a.0) in
      let same = Chain-unique x xs ys a.2 (subst (λ z. Chain h level z ys) e b.2) in
      ap (λ z. z ∷ xs) (sym e) ∙ ap (λ t. y ∷ t) same

  pub Chain-ne :
      (p q : Ptr) (xs ys : List Ptr)
      → Chain h level p xs
      → Chain h level q ys
      → length xs ≢ length ys
      → p ≢ q
  Chain-ne p q xs ys a b differ e =
      differ (ap length (Chain-unique q xs ys (subst (λ z. Chain h level z xs) e a) b))

  pub Chain-after :
      (p : Ptr) (xs ys : List Ptr) → Chain h level p (xs ++ ys) → Chain h level (last p xs) ys
  Chain-after p [] ys ch = ch
  Chain-after p (x ∷ xs) ys ch = Chain-after x xs ys ch.2

  pub All-ne_null : (p : Ptr) (xs : List Ptr) → Chain h level p xs → All (λ q. q ≢ null) xs
  All-ne_null p [] ch = tt
  All-ne_null p (x ∷ xs) ch = (ch.1, All-ne_null x xs ch.2)

pub last-append : (p q : Ptr) (xs ys : List Ptr) → last p (xs ++ (q ∷ ys)) ≡ last q ys
last-append p q [] ys = refl
last-append p q (x ∷ xs) ys = last-append x q xs ys

-- A node of a list splits it.
pub Has-split :
    (p : Ptr) (xs : List Ptr) → Has p xs → (us : List Ptr) × (vs : List Ptr) × (xs ≡ us ++ (p ∷ vs))
Has-split p [] h = absurd h
Has-split p (x ∷ xs) (inl e) = ([], xs, ap (λ z. z ∷ xs) (sym e))
Has-split p (x ∷ xs) (inr h) = let (us, vs, e) = Has-split p xs h in (x ∷ us, vs, ap (λ t. x ∷ t) e)

pub Has-append_left : (p : Ptr) (xs ys : List Ptr) → Has p xs → Has p (xs ++ ys)
Has-append_left p [] ys h = absurd h
Has-append_left p (x ∷ xs) ys (inl e) = inl e
Has-append_left p (x ∷ xs) ys (inr h) = inr (Has-append_left p xs ys h)

pub Has-append_right : (p : Ptr) (xs ys : List Ptr) → Has p ys → Has p (xs ++ ys)
Has-append_right p [] ys h = h
Has-append_right p (x ∷ xs) ys h = inr (Has-append_right p xs ys h)

pub Has-append : (p : Ptr) (xs ys : List Ptr) → Has p (xs ++ ys) → Has p xs ⊎ Has p ys
Has-append p [] ys h = inr h
Has-append p (x ∷ xs) ys (inl e) = inl (inl e)
Has-append p (x ∷ xs) ys (inr h) = elim (Has-append p xs ys h) [
  | inl l ↦ inl (inr l)
  | inr r ↦ inr r
]

-- The last of a list that is not empty is in it.
pub Has-last : (p x : Ptr) (xs : List Ptr) → Has (last x xs) (x ∷ xs)
Has-last p x [] = inl refl
Has-last p x (y ∷ ys) = inr (Has-last p y ys)

pub All-Has {κ} : (P : Ptr → Type κ) (xs : List Ptr) → All P xs → (p : Ptr) → Has p xs → P p
All-Has P [] a p h = absurd h
All-Has P (x ∷ xs) a p (inl e) = subst P (sym e) a.0
All-Has P (x ∷ xs) a p (inr h) = All-Has P xs a.1 p h

pub All-of_Has {κ} : (P : Ptr → Type κ) (xs : List Ptr) → ((p : Ptr) → Has p xs → P p) → All P xs
All-of_Has P [] f = tt
All-of_Has P (x ∷ xs) f = (f x (inl refl), All-of_Has P xs λ p h. f p (inr h))
