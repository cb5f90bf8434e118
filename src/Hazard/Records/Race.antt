-- ===== src/Hazard/Records/Race.antt =====
-- Two threads in `try_acquire_available` of crates/mem/src/hazard/domain.rs.
use victory_db.Base.{ℕ, ◌%◌, ◌≡◌, ◌≢◌, refl, ap, ◌∙◌, some, false, List, ◌∷◌, arith, ◌==◌, bit_or}
use victory_db.Base.Run.{Run, ok, ◌>>=◌}
use victory_db.SkipList.Node.{Ptr, null}
use victory_db.Hazard.{
  HzdPtrRec, HzdDomain, lock_bit, put_rec, walk_available, take_locked, AcquirePc, starting, seen,
  holding, acquired, acquire_step,
}
use victory_db.Hazard.Records.{
  AvailChain, first-even, put_rec_here, rec_at-some, set_available-some, unlocked,
}

-- The first thread loads the head; the second one loads it, locks the list and takes a record; then
-- the first one locks and takes.
unfoldable pub take_between : ℕ → HzdDomain → Run (HzdDomain × AcquirePc × AcquirePc)
take_between more d = do
  (d1, a1) ← acquire_step more d starting
  (d2, b1) ← acquire_step more d1 starting
  (d3, b2) ← acquire_step more d2 b1
  (d4, b3) ← acquire_step more d3 b2
  (d5, a2) ← acquire_step more d4 a1
  (d6, a3) ← acquire_step more d5 a2
  ok (d6, a3, b3)

load_step :
    (d : HzdDomain) (x : Ptr)
    → d.avail_head ≡ x
    → x ≢ null
    → acquire_step 0 d starting ≡ ok (d, seen x)
unfolding acquire_step
load_step d x e ne =
    let alive : (d.avail_head == null) ≡ false = ground (arith, e, ne) in
    rw alive (ap (λ (q : Ptr). ok (d, seen q)) e)

lock_step :
    (d : HzdDomain) (p : Ptr)
    → d.avail_head % 2 ≡ 0
    → acquire_step 0 d (seen p)
      ≡ ok (record d { avail_head = bit_or d.avail_head lock_bit }, holding p)
unfolding acquire_step
lock_step d p even = rw (unlocked d.avail_head even) refl

abbrev alone : HzdPtrRec → HzdPtrRec
alone r = record r { available = null }

-- One record is taken, and the head becomes what it linked to.
take_step :
    (d : HzdDomain) (p : Ptr) (r : HzdPtrRec)
    → p ≢ null
    → d.records p ≡ some r
    → acquire_step 0 d (holding p)
      ≡ ok (
        record d { avail_head = r.available; records = put_rec d.records p (alone r) },
        acquired p 1,
      )
unfolding acquire_step take_locked walk_available
take_step d p r ne there =
    rw (rec_at-some d.records p r ne there, set_available-some d.records p null r ne there) refl

-- Where two or more records are available, two threads that want one each can get the same one: the
-- head that a thread loaded before it locked the list is not the one that it locked. The list loses
-- all other records.
pub take_between-same :
    (d : HzdDomain) (x y : Ptr) (ys : List Ptr)
    → AvailChain d.records d.avail_head (x ∷ y ∷ ys)
    → (d' : HzdDomain) × (take_between 0 d ≡ ok (d', acquired x 1, acquired x 1))
      × (d'.avail_head ≡ null)
unfolding take_between
take_between-same d x y ys (e, ne, even, once, (r, there, ch)) =
    let head_even = ap (λ (q : Ptr). q % 2) e ∙ even in
    let d1 : HzdDomain = record d { avail_head = bit_or d.avail_head lock_bit } in
    let d2 : HzdDomain = record d {
      avail_head = r.available;
      records = put_rec d.records x (alone r);
    } in
    let d3 : HzdDomain = record d2 { avail_head = bit_or r.available lock_bit } in
    let d4 : HzdDomain = record d2 {
      avail_head = null;
      records = put_rec d2.records x (alone (alone r));
    } in
    let next_even = first-even d.records r.available (y ∷ ys) ch in
    (
      d4,
      rw
          (
            load_step d x e ne,
            load_step d x e ne,
            lock_step d x head_even,
            take_step d1 x r ne there,
            lock_step d2 x next_even,
            take_step d3 x (alone r) ne (put_rec_here d.records x (alone r)),
          )
          refl,
      refl,
    )
