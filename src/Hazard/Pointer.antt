-- ===== src/Hazard/Pointer.antt =====
-- `HzdPtr` of crates/mem/src/hazard/hazard_ptr.rs: protection of the pointer that an atomic source
-- holds. Other threads write the source, and may read the record: `src i r` is what the load number
-- `i` gives when it is made with the record as `r`.
pub mod Laws
use victory_db.Base.{ℕ, zero, suc, Option, none, some, ◌==◌, if◌then◌else◌}
use victory_db.Base.Run.{Run, ok, out_of_fuel}
use victory_db.SkipList.Node.{Ptr, null}
use victory_db.Hazard.{HzdPtrRec, reset, protect}

-- `Ok` with the pointer, or none for null, and `Err` with the pointer that the source holds now.
pub data TryProtect : Type 0 where
  protected : Option Ptr → TryProtect
  changed : Ptr → TryProtect

-- `NonNull::new`
abbrev pub non_null : Ptr → Option Ptr
non_null p = if p == null then none else some p

-- `try_protect_ptr`: the record is set first, and the load is made with the record as it is then.
unfoldable pub try_protect_ptr : (HzdPtrRec → Ptr) → HzdPtrRec → Ptr → HzdPtrRec × TryProtect
try_protect_ptr load r p =
    let r' = protect r p in
    let again = load r' in
    if p == again then (r', protected (non_null p)) else (reset r', changed again)

module _ (src : ℕ → HzdPtrRec → Ptr) where
  abbrev go_on :
      (HzdPtrRec → Ptr → Run (HzdPtrRec × Option Ptr))
      → HzdPtrRec × TryProtect
      → Run (HzdPtrRec × Option Ptr)
  go_on retry (r, protected p) = ok (r, p)
  go_on retry (r, changed p) = retry r p

  -- The loop of `protect_ptr`, before the load number `i`.
  unfoldable pub protect_loop : ℕ → ℕ → HzdPtrRec → Ptr → Run (HzdPtrRec × Option Ptr)
  protect_loop zero i r p = out_of_fuel
  protect_loop (suc fuel) i r p =
      go_on (λ r' p'. protect_loop fuel (suc i) r' p') (try_protect_ptr (src i) r p)

  -- `HzdPtr::protect`, `protect_ptr`
  unfoldable pub protect_ptr : ℕ → HzdPtrRec → Run (HzdPtrRec × Option Ptr)
  protect_ptr fuel r = protect_loop fuel 1 r (src 0 r)
