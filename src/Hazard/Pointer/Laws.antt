-- ===== src/Hazard/Pointer/Laws.antt =====
-- What a protected pointer is protected from (crates/mem/src/hazard/hazard_ptr.rs).
use victory_db.Base.{
  ℕ, zero, suc, ◌+◌, ◌≤◌, ◌<◌, ◌≡◌, ◌≢◌, refl, sym, subst, Option, Bool-cases, inl, inr, arith,
  ◌==◌,
}
use victory_db.Base.Run.{Run, ok}
use victory_db.SkipList.Node.{Ptr}
use victory_db.Hazard.{HzdPtrRec, reset, protect}
use victory_db.Hazard.Pointer.{non_null, try_protect_ptr, protect_loop, protect_ptr}

module _ (src : ℕ → HzdPtrRec → Ptr) where
  -- The run returned the pointer of two loads in a row, of which the second was made with the
  -- record as it is returned, which has the pointer.
  abbrev pub Protects : ℕ → Run (HzdPtrRec × Option Ptr) → Type 0
  Protects k r =
      (i : ℕ) × (p : Ptr) × (before : HzdPtrRec) × (r' : HzdPtrRec) × (i ≤ k)
      × (r ≡ ok (r', non_null p))
      × (r'.ptr ≡ p)
      × (src i before ≡ p)
      × (src (suc i) r' ≡ p)

  -- The loads number `k` and `suc k` give the same pointer, whatever the record holds.
  abbrev pub IsStable : ℕ → Type 0
  IsStable k = (r r' : HzdPtrRec) → src k r ≡ src (suc k) r'

  protect_loop-Protects :
      (fuel k i : ℕ) (r before : HzdPtrRec) (p : Ptr)
      → i ≤ k
      → k < i + fuel
      → IsStable k
      → src i before ≡ p
      → Protects k (protect_loop src fuel (suc i) r p)
  unfolding protect_loop try_protect_ptr protect
  protect_loop-Protects zero k i r before p l m stable e = absurd (omega arith)
  protect_loop-Protects (suc fuel) k i r before p l m stable e =
      let held : HzdPtrRec = record r { ptr = p } in
      elim (Bool-cases (p == src (suc i) held)) [
        | inl same ↦ (i, p, before, held, l, rw same refl, refl, e, sym (ground (arith, same)))
        | inr differ ↦
            let beyond : i ≢ k = λ eq.
              let here : src i before ≡ src (suc i) held =
                subst (λ (n : ℕ). src n before ≡ src (suc n) held) (sym eq) (stable before held) in
              ground (arith, differ, here, e) in
            let (j, q, old, r', low, run, own, loaded, again) =
              protect_loop-Protects fuel k (suc i) (reset held) held (src (suc i) held)
                (omega arith) (omega arith) stable refl in
            (j, q, old, r', low, rw differ run, own, loaded, again)
      ]

  -- Where two loads of the source in a row give the same pointer, whatever the record holds then,
  -- `protect` returns by then, for fuel that exceeds the number of the first of them: its result is a
  -- pointer that one load of the source gave, none for null, the record that is returned holds that
  -- pointer, and the next load, made with the record as it is returned, gave the pointer again.
  pub protect_ptr-Protects :
      (fuel k : ℕ) (r : HzdPtrRec) → k < fuel → IsStable k → Protects k (protect_ptr src fuel r)
  unfolding protect_ptr
  protect_ptr-Protects fuel k r enough stable =
      protect_loop-Protects fuel k 0 r r (src 0 r) (omega arith) (omega arith) stable refl
