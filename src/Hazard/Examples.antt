-- ===== src/Hazard/Examples.antt =====
-- The hazard pointer domain of crates/mem/src/hazard/domain.rs at work.
use victory_db.Base.{
  ℕ, ◌+◌, ◌*◌, ◌≡◌, refl, inl, inr, none, some, [], ◌∷◌, arith, ltb, ◌==◌, if◌then◌else◌,
}
use victory_db.Base.Run.{ok}
use victory_db.SkipList.Node.{Ptr, null}
use victory_db.SkipList.Chain.{Has}
use victory_db.Hazard.{HzdPtrRec, Records, HzdDomain, acquired, try_acquire_available, release_many}
use victory_db.Hazard.Records.{AvailChain}
use victory_db.Hazard.Records.Race.{take_between, take_between-same}
use victory_db.Hazard.Records.RoundTrip.{Taken, release_many-try_acquire}
use victory_db.Hazard.Pointer.{protect_ptr}
use victory_db.Hazard.Pointer.Laws.{Protects, protect_ptr-Protects}

abbrev rec : Ptr → HzdPtrRec
rec next = record { ptr = null; next = null; available = next }

-- Three records, all available.
abbrev records : Records
records p =
    if p == 64
    then some (rec 128)
    else (if p == 128 then some (rec 192) else (if p == 192 then some (rec null) else none))

abbrev domain : HzdDomain
domain = record { head = 64; avail_head = 64; count = 3; records = records }

not-Has_64 : Has 64 (128 ∷ 192 ∷ []) → ⊥
not-Has_64 (inl e) = omega arith
not-Has_64 (inr (inl e)) = omega arith
not-Has_64 (inr (inr there)) = absurd there

not-Has_128 : Has 128 (192 ∷ []) → ⊥
not-Has_128 (inl e) = omega arith
not-Has_128 (inr there) = absurd there

domain-AvailChain : AvailChain records 64 (64 ∷ 128 ∷ 192 ∷ [])
domain-AvailChain = (
  refl,
  (λ e. omega arith),
  refl,
  not-Has_64,
  (
    rec 128,
    refl,
    (
      refl,
      (λ e. omega arith),
      refl,
      not-Has_128,
      (
        rec 192,
        refl,
        (refl, (λ e. omega arith), refl, (λ there. absurd there), (rec null, refl, refl)),
      ),
    ),
  ),
)

take_between-same_example :
    (d' : HzdDomain) × (take_between 0 domain ≡ ok (d', acquired 64 1, acquired 64 1))
    × (d'.avail_head ≡ null)
take_between-same_example = take_between-same domain 64 128 (192 ∷ []) domain-AvailChain

-- Two of the three records.
release_many-try_acquire_example :
    (d1 : HzdDomain) × (d2 : HzdDomain) × (try_acquire_available 4 1 domain ≡ ok (d1, 64, 2))
    × Taken d1 64 (128 ∷ []) (192 ∷ [])
    × (release_many 1 d1 64 128 ≡ ok d2)
    × AvailChain d2.records d2.avail_head (64 ∷ 128 ∷ 192 ∷ [])
release_many-try_acquire_example =
    release_many-try_acquire 0 1 domain 64 (128 ∷ 192 ∷ []) domain-AvailChain

-- The source changes once, whatever the record holds.
abbrev src : ℕ → HzdPtrRec → Ptr
src i r = if ltb i 2 then 8 + i * 8 else 24

protect_ptr-Protects_example : Protects src 2 (protect_ptr src 3 (rec null))
protect_ptr-Protects_example = protect_ptr-Protects src 3 2 (rec null) (omega arith) (λ r r'. refl)
