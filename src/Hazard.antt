-- ===== src/Hazard.antt =====
-- crates/mem/src/hazard/domain.rs and hazard_ptr.rs: the records of a hazard pointer domain and the
-- list of those that are available. A record's address stands for it; its last bit is the lock bit of
-- the list's head. `box` gives the addresses of new records.
pub mod Records
pub mod Pointer
mod Examples
use victory_db.Base.{
  ℕ, zero, suc, ◌+◌, Option, none, some, List, [], ◌∷◌, ◌==◌, if◌then◌else◌, bit_and, bit_or,
}
use victory_db.Base.Run.{Run, ok, panic, fault, out_of_fuel, ◌>>=◌}
use victory_db.SkipList.Node.{Ptr, null}

pub record HzdPtrRec : Type 0 where
  pub ptr : Ptr
  pub next : Ptr
  pub available : Ptr

-- `HzdPtrRec::reset`, `HzdPtrRec::protect`
unfoldable pub reset : HzdPtrRec → HzdPtrRec
reset r = record r { ptr = null }

unfoldable pub protect : HzdPtrRec → Ptr → HzdPtrRec
protect r p = record r { ptr = p }

abbrev pub lock_bit : ℕ
lock_bit = 1

abbrev pub Records : Type 0
Records = Ptr → Option HzdPtrRec

-- The domain with its `HazPtrRecs`, and the records themselves.
pub record HzdDomain : Type 0 where
  pub head : Ptr
  pub avail_head : ℕ
  pub count : ℕ
  pub records : Records

-- `HzdDomain::new`
unfoldable pub new : HzdDomain
new = record { head = null; avail_head = null; count = 0; records = λ p. none }

unfoldable pub rec_at : Records → Ptr → Run HzdPtrRec
rec_at rs p = if p == null then fault else elim (rs p) [ none ↦ fault | some r ↦ ok r ]

abbrev pub put_rec : Records → Ptr → HzdPtrRec → Records
put_rec rs p r q = if q == p then some r else rs q

-- `(*p).available.store(next)`
unfoldable pub set_available : Records → Ptr → Ptr → Run Records
set_available rs p next = do r ← rec_at rs p; ok (put_rec rs p (record r { available = next }))

-- The loop of `acquire_new_rec`, of which `fails` exchanges fail.
unfoldable pub link_head : ℕ → ℕ → HzdDomain → Ptr → HzdPtrRec → Run HzdDomain
link_head zero fails d p r = out_of_fuel
link_head (suc fuel) zero d p r = ok (record d {
  head = p;
  count = d.count + 1;
  records = put_rec d.records p (record r { next = d.head });
})
link_head (suc fuel) (suc fails) d p r =
    let r' : HzdPtrRec = record r { next = d.head } in
    link_head fuel fails (record d { records = put_rec d.records p r' }) p r'

-- `acquire_new_rec`
unfoldable pub acquire_new_rec : ℕ → ℕ → HzdDomain → Ptr → Run HzdDomain
acquire_new_rec fuel fails d p =
    link_head fuel fails d p (record { ptr = null; next = null; available = null })

-- The loop of `try_acquire_available_locked`: the last record taken, the one behind it, and how many.
unfoldable pub walk_available : Records → ℕ → Ptr → Ptr → ℕ → Run (Ptr × Ptr × ℕ)
walk_available rs zero tail next n = ok (tail, next, n)
walk_available rs (suc left) tail next n =
    if next == null
    then ok (tail, next, n)
    else (rec_at rs next >>= λ r. walk_available rs left next r.available (n + 1))

-- `try_acquire_available_locked`, for `suc more` records
unfoldable pub take_locked : ℕ → HzdDomain → Ptr → Run (HzdDomain × Ptr × ℕ)
take_locked more d stolen = do
  first ← rec_at d.records stolen
  (tail, next, n) ← walk_available d.records more stolen first.available 1
  rs ← set_available d.records tail null
  ok (record d { avail_head = next; records = rs }, stolen, n)

-- Where a thread is in `try_acquire_available`: at the start of the loop, with a head loaded that is
-- not null, with the list locked, or with some records.
pub data AcquirePc : Type 0 where
  starting : AcquirePc
  seen holding : Ptr → AcquirePc
  acquired : Ptr → ℕ → AcquirePc

-- One access to the head of the available list; what the lock covers is one step.
unfoldable pub acquire_step : ℕ → HzdDomain → AcquirePc → Run (HzdDomain × AcquirePc)
acquire_step more d starting =
    if d.avail_head == null then ok (d, acquired null 0) else ok (d, seen d.avail_head)
acquire_step more d (seen avail) = ok (
  record d { avail_head = bit_or d.avail_head lock_bit },
  (if bit_and d.avail_head lock_bit == 0 then holding avail else starting),
)
acquire_step more d (holding avail) =
    take_locked more d avail >>= λ (d', p, n). ok (d', acquired p n)
acquire_step more d (acquired p n) = ok (d, acquired p n)

-- `try_acquire_available` by a thread that no other one interferes with.
unfoldable pub acquire_alone : ℕ → ℕ → HzdDomain → AcquirePc → Run (HzdDomain × Ptr × ℕ)
acquire_alone zero more d pc = out_of_fuel
acquire_alone (suc fuel) more d (acquired p n) = ok (d, p, n)
acquire_alone (suc fuel) more d pc =
    acquire_step more d pc >>= λ (d', pc'). acquire_alone fuel more d' pc'

unfoldable pub try_acquire_available : ℕ → ℕ → HzdDomain → Run (HzdDomain × Ptr × ℕ)
try_acquire_available fuel more d = acquire_alone fuel more d starting

-- The records that `acquire_many` returns: those taken, then new ones, each linked from the one
-- before.
unfoldable pub collect_records :
    ℕ → (ℕ → Ptr) → ℕ → HzdDomain → Ptr → Ptr → Run (HzdDomain × List Ptr)
collect_records fuel box zero d head tail = ok (d, [])
collect_records fuel box (suc left) d head tail =
    if head == null
    then (acquire_new_rec fuel 0 d (box left) >>= λ d'.
        (if tail == null then ok d'.records else set_available d'.records tail (box left)) >>= λ rs.
        collect_records fuel box left (record d' { records = rs }) null (box left) >>= λ (d2, ps).
        ok (d2, box left ∷ ps))
    else (rec_at d.records head >>= λ r.
        collect_records fuel box left d r.available head >>= λ (d2, ps). ok (d2, head ∷ ps))

-- `acquire_many`, for `suc more` records; `acquire` asks for one.
unfoldable pub acquire_many : ℕ → (ℕ → Ptr) → ℕ → HzdDomain → Run (HzdDomain × List Ptr)
acquire_many fuel box more d = do
  (d', head, n) ← try_acquire_available fuel more d
  collect_records fuel box (suc more) d' head null

-- `push_available`, alone: a list that stays locked is never pushed to.
unfoldable pub push_available : ℕ → HzdDomain → Ptr → Ptr → Run HzdDomain
push_available zero d head tail = out_of_fuel
push_available (suc fuel) d head tail =
    let later = push_available fuel d head tail in
    if bit_and d.avail_head lock_bit == 0
    then (set_available d.records tail d.avail_head >>= λ rs.
        ok (record d { avail_head = head; records = rs }))
    else later

-- `release_many`, for the first and the last of the records
unfoldable pub release_many : ℕ → HzdDomain → Ptr → Ptr → Run HzdDomain
release_many fuel d head tail = do
  r ← rec_at d.records tail
  (if r.available == null
      then (if bit_and head lock_bit == 0 then push_available fuel d head tail else panic)
      else panic)
