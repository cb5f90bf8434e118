-- ===== src/Arena/Concurrent/Reached.antt =====
-- Requests of many threads to one arena (crates/mem/src/arena.rs), however their accesses interleave.
use victory_db.Base.{
  ℕ, ◌+◌, ◌*◌, ◌^◌, ◌≤◌, ◌<◌, ◌≡◌, ◌≢◌, refl, sym, ap, subst, ◌∙◌, inl, inr, Option, none, some,
  Bool, true, length, arith, Bool-cases,
}
use victory_db.Base.Run.{ok_inj}
use native.Mathlib.Decide.{ℕ_discrete}
use victory_db.Arena.{Arena, ArenaPolicy, Layout}
use victory_db.Arena.Laws.{bump_of}
use victory_db.Arena.Concurrent.{
  AllocPc, loading, locking, relooking, growing, adding, pushing, reading, rereading, publishing,
  checking, rechecking, exchanging, counting, allotted, gave_up, Mutex, update_pc, Requests, Step,
  access, Reach, started, later,
}
use victory_db.Arena.Concurrent.Invariant.{LayoutFits, holds_lock, region, Owns, PcOk, Apart, Holds}
use victory_db.Arena.Concurrent.Steps.{Next, pc-Next}

-- What a request knows stays true.
PcOk-moves :
    (p : ArenaPolicy) (k : ℕ) (l : Layout) (a a' : Arena) (pc : AllocPc)
    → length a.chunks ≤ length a'.chunks
    → a.allocated_bytes ≤ a'.allocated_bytes
    → ((j : ℕ) → bump_of a.chunks j ≤ bump_of a'.chunks j)
    → (holds_lock pc ≡ true
        → (a'.allocated_bytes ≡ a.allocated_bytes) × (length a'.chunks ≡ length a.chunks))
    → PcOk p k l a pc
    → PcOk p k l a' pc
PcOk-moves p k l a a' loading longer bytes keeps frozen knows = tt
PcOk-moves p k l a a' locking longer bytes keeps frozen knows = tt
PcOk-moves p k l a a' relooking longer bytes keeps frozen knows = tt
PcOk-moves p k l a a' growing longer bytes keeps frozen knows = tt
PcOk-moves p k l a a' adding longer bytes keeps frozen knows =
    let (same, count) = frozen refl in omega (arith, same, knows)
PcOk-moves p k l a a' pushing longer bytes keeps frozen knows =
    let (same, count) = frozen refl in
    subst (λ (n : ℕ). p.block_size * n + p.block_size ≤ a'.allocated_bytes) (sym count)
      (omega (arith, same, knows))
PcOk-moves p k l a a' (reading i) longer bytes keeps frozen knows = omega (arith, longer, knows)
PcOk-moves p k l a a' (rereading i) longer bytes keeps frozen knows = omega (arith, longer, knows)
PcOk-moves p k l a a' (publishing i) longer bytes keeps frozen knows = omega (arith, longer, knows)
PcOk-moves p k l a a' (checking i bump) longer bytes keeps frozen knows =
    (omega (arith, longer, knows.0), knows.1)
PcOk-moves p k l a a' (rechecking bump) longer bytes keeps frozen knows = tt
PcOk-moves p k l a a' (exchanging i bump aligned next) longer bytes keeps frozen knows =
    (omega (arith, longer, knows.0), knows.1, knows.2, knows.3, knows.4)
PcOk-moves p k l a a' (counting i offset) longer bytes keeps frozen (multiple, inside) =
    (multiple, omega (arith, keeps i, inside))
PcOk-moves p k l a a' (allotted i offset) longer bytes keeps frozen (multiple, inside) =
    (multiple, omega (arith, keeps i, inside))
PcOk-moves p k l a a' (gave_up e) longer bytes keeps frozen knows =
    (knows.0, omega (arith, bytes, knows.1))

region_or : ℕ × ℕ → Option (ℕ × ℕ) → ℕ × ℕ
region_or r none = r
region_or r (some q) = q

region_inj : (r q : ℕ × ℕ) → ◌≡◌ {A = Option (ℕ × ℕ)} (some r) (some q) → r ≡ q
unfolding region_or
region_inj r q e = ap (region_or r) e

-- A region that a request has got is handed out.
pub Owns-region :
    (p : ArenaPolicy) (k : ℕ) (l : Layout) (a : Arena) (pc : AllocPc) (i offset : ℕ)
    → region pc ≡ some (i, offset)
    → PcOk p k l a pc
    → Owns k l a i offset
Owns-region p k l a loading i offset e knows = absurd (cc)
Owns-region p k l a locking i offset e knows = absurd (cc)
Owns-region p k l a relooking i offset e knows = absurd (cc)
Owns-region p k l a growing i offset e knows = absurd (cc)
Owns-region p k l a adding i offset e knows = absurd (cc)
Owns-region p k l a pushing i offset e knows = absurd (cc)
Owns-region p k l a (reading j) i offset e knows = absurd (cc)
Owns-region p k l a (rereading j) i offset e knows = absurd (cc)
Owns-region p k l a (publishing j) i offset e knows = absurd (cc)
Owns-region p k l a (checking j bump) i offset e knows = absurd (cc)
Owns-region p k l a (rechecking bump) i offset e knows = absurd (cc)
Owns-region p k l a (exchanging j bump aligned next) i offset e knows = absurd (cc)
Owns-region p k l a (counting j o) i offset e knows =
    subst (λ (r : ℕ × ℕ). Owns k l a r.0 r.1) (region_inj (j, o) (i, offset) e) knows
Owns-region p k l a (allotted j o) i offset e knows =
    subst (λ (r : ℕ × ℕ). Owns k l a r.0 r.1) (region_inj (j, o) (i, offset) e) knows
Owns-region p k l a (gave_up f) i offset e knows = absurd (cc)

holder_inj : (x y : ℕ) → ◌≡◌ {A = Mutex} (some x) (some y) → x ≡ y
holder_inj x y e = cc

swap : (o n o' n' : ℕ) → Apart o n o' n' → Apart o' n' o n
swap o n o' n' (inl e) = inr e
swap o n o' n' (inr e) = inl e

module _ (pcs : ℕ → AllocPc) (x : ℕ) (pc : AllocPc) where
  pc_here : (y : ℕ) → y ≡ x → update_pc pcs x pc y ≡ pc
  pc_here y e = ground (arith, e)

  pc_other : (y : ℕ) → y ≢ x → update_pc pcs x pc y ≡ pcs y
  pc_other y d = ground (arith, d)

module _ (p : ArenaPolicy) (pos : 0 < p.block_size) (room : p.cap + p.block_size < 2 ^ 64)
    (ks : ℕ → ℕ) (layouts : ℕ → Layout) (lay : (x : ℕ) → LayoutFits p (ks x) (layouts x)) where
  module _ (s : Requests) (is : Holds p ks layouts s) (x : ℕ) (spurious : Bool)
      (next : Next p (ks x) (layouts x) x spurious s.arena s.lock (s.pcs x)) where
    abbrev after : Requests
    after = record { arena = next.arena; lock = next.mutex; pcs = update_pc s.pcs x next.at }

    -- The region that `x` has after its step does not overlap one that another had before.
    moved-Apart :
        (y i offset offset' : ℕ)
        → y ≢ x
        → region next.at ≡ some (i, offset)
        → region (s.pcs y) ≡ some (i, offset')
        → Apart offset (layouts x).size offset' (layouts y).size
    moved-Apart y i offset offset' d mine other = elim next.regions [
      | inl same ↦ is.apart x y i offset offset' (λ e. d (sym e)) (sym same ∙ mine) other
      | inr (j, o, e, low, high) ↦
          let same : ◌≡◌ {A = ℕ × ℕ} (j, o) (i, offset) =
            region_inj (j, o) (i, offset) (sym e ∙ mine) in
          let owns =
            Owns-region p (ks y) (layouts y) s.arena (s.pcs y) i offset' other (is.knows y) in
          let low' : bump_of s.arena.chunks i ≤ offset =
            subst (λ (r : ℕ × ℕ). bump_of s.arena.chunks r.0 ≤ r.1) same low in
          inr (omega (arith, owns.1))
    ]

    Next-Holds : Holds p ks layouts after
    Next-Holds = record {
      shared = next.shared;
      alone = λ y e. elim (ℕ_discrete y x) [
        | yes here ↦
            next.holds (ap holds_lock (sym (pc_here s.pcs x next.at y here)) ∙ e)
            ∙ ap some (sym here)
        | no d ↦
            next.others y d (is.alone y (ap holds_lock (sym (pc_other s.pcs x next.at y d)) ∙ e))
      ];
      knows = λ y. elim (ℕ_discrete y x) [
        | yes here ↦
            subst (PcOk p (ks y) (layouts y) next.arena) (sym (pc_here s.pcs x next.at y here)) (
              subst (λ (z : ℕ). PcOk p (ks z) (layouts z) next.arena next.at) (sym here) next.knows)
        | no d ↦ subst (PcOk p (ks y) (layouts y) next.arena) (sym (pc_other s.pcs x next.at y d)) (
            PcOk-moves p (ks y) (layouts y) s.arena next.arena (s.pcs y) next.longer next.bytes
              next.keeps
              (λ mine. next.frozen (elim (Bool-cases (holds_lock (s.pcs x))) [
                | inr free ↦ free
                | inl too ↦ absurd (d (holder_inj y x (sym (is.alone y mine) ∙ is.alone x too)))
              ]))
              (is.knows y))
      ];
      apart = λ y z i o o' d ey ez. elim (ℕ_discrete y x) [
        | yes here ↦
            let dz : z ≢ x = λ e. d (here ∙ sym e) in
            subst (λ (w : ℕ). Apart o (layouts w).size o' (layouts z).size) (sym here)
              (moved-Apart z i o o' dz (ap region (sym (pc_here s.pcs x next.at y here)) ∙ ey)
                (ap region (sym (pc_other s.pcs x next.at z dz)) ∙ ez))
        | no dy ↦ elim (ℕ_discrete z x) [
          | yes here ↦
              subst (λ (w : ℕ). Apart o (layouts y).size o' (layouts w).size) (sym here)
                (swap o' (layouts x).size o (layouts y).size (
                  moved-Apart y i o' o dy (ap region (sym (pc_here s.pcs x next.at z here)) ∙ ez)
                    (ap region (sym (pc_other s.pcs x next.at y dy)) ∙ ey)))
          | no dz ↦
              is.apart y z i o o' d (ap region (sym (pc_other s.pcs x next.at y dy)) ∙ ey)
                (ap region (sym (pc_other s.pcs x next.at z dz)) ∙ ez)
        ]
      ];
    }

  pub request-Next :
      (s : Requests)
      → Holds p ks layouts s
      → (x : ℕ) (spurious : Bool) → Next p (ks x) (layouts x) x spurious s.arena s.lock (s.pcs x)
  request-Next s is x spurious =
      pc-Next p pos room (ks x) (layouts x) (lay x) x spurious s.arena s.lock is.shared (s.pcs x)
        (is.alone x) (is.knows x)

  Step-Holds : (s u : Requests) → Holds p ks layouts s → Step layouts s u → Holds p ks layouts u
  Step-Holds s u is (access x spurious a lock pc e) =
      let next = request-Next s is x spurious in
      let same : ◌≡◌ {A = Arena × Mutex × AllocPc} (next.arena, next.mutex, next.at) (a, lock, pc) =
        ok_inj (next.arena, next.mutex, next.at) (a, lock, pc) (sym next.runs ∙ e) in
      subst
        (λ (r : Arena × Mutex × AllocPc).
          Holds p ks layouts (record { arena = r.0; lock = r.1; pcs = update_pc s.pcs x r.2 }))
        same (Next-Holds s is x spurious next)

  pub Reach-Holds :
      (s u : Requests) → Holds p ks layouts s → Reach layouts s u → Holds p ks layouts u
  Reach-Holds s u is started = is
  Reach-Holds s u is (later {t = b} r step) = Step-Holds b u (Reach-Holds s b is r) step
