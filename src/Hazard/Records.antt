-- ===== src/Hazard/Records.antt =====
-- The list of available records of a domain (crates/mem/src/hazard/domain.rs), and what taking
-- records from it does where no thread interferes.
pub mod Race
pub mod RoundTrip
use victory_db.Base.{
  ℕ, zero, suc, ◌+◌, ◌%◌, ◌≤◌, ◌≡◌, ◌≢◌, refl, sym, ap, subst, ◌∙◌, ◌⊎◌, inl, inr, Option, none,
  some, true, false, List, [], ◌∷◌, ◌++◌, length, take, drop, arith, ◌==◌, if◌then◌else◌, bit_and,
  bit_and-mask,
}
use victory_db.Base.Run.{Run, ok, fault, ◌>>=◌}
use victory_db.SkipList.Node.{Ptr, null}
use victory_db.SkipList.Chain.{Has, last, first, Has-last, Has-append_left, Has-append_right}
use victory_db.Hazard.{
  HzdPtrRec, Records, HzdDomain, lock_bit, rec_at, put_rec, set_available, walk_available,
  take_locked,
}

-- From `p` on, `available` leads through the records `xs`, each once, to null. Their addresses are
-- even.
abbrev pub AvailChain : Records → Ptr → List Ptr → Type 0
AvailChain rs p [] = p ≡ null
AvailChain rs p (x ∷ xs) =
    (p ≡ x)
    × (x ≢ null)
    × (x % 2 ≡ 0)
    × (Has x xs → ⊥)
    × ((r : HzdPtrRec) × (rs x ≡ some r) × AvailChain rs r.available xs)

pub put_rec_here : (rs : Records) (p : Ptr) (r : HzdPtrRec) → put_rec rs p r p ≡ some r
put_rec_here rs p r = ground arith

pub put_rec_other :
    (rs : Records) (p : Ptr) (r : HzdPtrRec) (q : Ptr) → q ≢ p → put_rec rs p r q ≡ rs q
put_rec_other rs p r q d = ground arith

pub rec_at-some :
    (rs : Records) (p : Ptr) (r : HzdPtrRec) → p ≢ null → rs p ≡ some r → rec_at rs p ≡ ok r
unfolding rec_at
rec_at-some rs p r ne e = ground (arith, ne, e)

pub set_available-some :
    (rs : Records) (p next : Ptr) (r : HzdPtrRec)
    → p ≢ null
    → rs p ≡ some r
    → set_available rs p next ≡ ok (put_rec rs p (record r { available = next }))
unfolding set_available
set_available-some rs p next r ne e = rw (rec_at-some rs p r ne e) refl

pub unlocked : (p : Ptr) → p % 2 ≡ 0 → (bit_and p lock_bit == 0) ≡ true
unlocked p even = let e = bit_and-mask 1 p in ground (arith, e, even)

-- The start of a list of available records has no lock bit.
pub first-even : (rs : Records) (p : Ptr) (xs : List Ptr) → AvailChain rs p xs → p % 2 ≡ 0
first-even rs p [] e = ap (λ (q : Ptr). q % 2) e
first-even rs p (x ∷ xs) ch = ap (λ (q : Ptr). q % 2) ch.0 ∙ ch.2

pub AvailChain-first : (rs : Records) (p : Ptr) (xs : List Ptr) → AvailChain rs p xs → p ≡ first xs
AvailChain-first rs p [] e = e
AvailChain-first rs p (x ∷ xs) ch = ch.0

-- A store into a record that is not in the list.
pub AvailChain-put :
    (rs : Records) (p q : Ptr) (r : HzdPtrRec) (xs : List Ptr)
    → (Has q xs → ⊥)
    → AvailChain rs p xs
    → AvailChain (put_rec rs q r) p xs
AvailChain-put rs p q r [] out ch = ch
AvailChain-put rs p q r (x ∷ xs) out (e, ne, even, once, (v, there, ch)) = (
  e,
  ne,
  even,
  once,
  (
    v,
    put_rec_other rs q r x (λ same. out (inl (sym same))) ∙ there,
    AvailChain-put rs v.available q r xs (λ has. out (inr has)) ch,
  ),
)

pub walk_available-ok :
    (rs : Records) (left : ℕ) (tail next : Ptr) (n : ℕ) (xs : List Ptr)
    → AvailChain rs next xs
    → walk_available rs left tail next n
      ≡ ok (last tail (take left xs), first (drop left xs), n + length (take left xs))
unfolding walk_available
walk_available-ok rs zero tail next n xs ch =
    rw (AvailChain-first rs next xs ch) (ap (λ (k : ℕ). ok (tail, first xs, k)) (omega arith))
walk_available-ok rs (suc left) tail next n [] ch =
    rw ch (ap (λ (k : ℕ). ok (tail, null, k)) (omega arith))
walk_available-ok rs (suc left) tail next n (x ∷ xs) (e, ne, even, once, (r, there, ch)) =
    let alive : (x == null) ≡ false = ground (arith, ne) in
    rw (e, alive, rec_at-some rs x r ne there)
      (walk_available-ok rs left x r.available (n + 1) xs ch
        ∙ ap (λ (k : ℕ). ok (last x (take left xs), first (drop left xs), k)) (omega arith))

-- A list cut behind its first part.
pub AvailChain-cut :
    (rs : Records) (p x : Ptr) (us vs : List Ptr)
    → AvailChain rs p (x ∷ (us ++ vs))
    → (r : HzdPtrRec) × (rs (last x us) ≡ some r)
      × (last x us ≢ null)
      × AvailChain (put_rec rs (last x us) (record r { available = null })) x (x ∷ us)
      × AvailChain (put_rec rs (last x us) (record r { available = null })) (first vs) vs
AvailChain-cut rs p x [] vs (e, ne, even, once, (r, there, ch)) =
    let r' : HzdPtrRec = record r { available = null } in
    (
      r,
      there,
      ne,
      (refl, ne, even, (λ has. absurd has), (r', put_rec_here rs x r', refl)),
      AvailChain-put rs (first vs) x r' vs once
          (subst (λ (q : Ptr). AvailChain rs q vs) (AvailChain-first rs r.available vs ch) ch),
    )
AvailChain-cut rs p x (u ∷ us) vs (e, ne, even, once, (r, there, ch)) =
    let (t, at, tne, low, high) = AvailChain-cut rs r.available u us vs ch in
    let t' : HzdPtrRec = record t { available = null } in
    let differ : x ≢ last u us = λ same. once (
      Has-append_left x (u ∷ us) vs
        (subst (λ (q : Ptr). Has q (u ∷ us)) (sym same) (Has-last x u us))) in
    (
      t,
      at,
      tne,
      (
        refl,
        ne,
        even,
        (λ has. once (Has-append_left x (u ∷ us) vs has)),
        (
          r,
          put_rec_other rs (last u us) t' x differ ∙ there,
          subst (λ (q : Ptr). AvailChain (put_rec rs (last u us) t') q (u ∷ us)) (sym ch.0) low,
        ),
      ),
      high,
    )
