-- ===== src/Memtable/Regions.antt =====
-- Where the nodes of a memtable (crates/engine/src/memtable/) stand in its arena.
use victory_db.Base.{ℕ, ◌+◌, ◌≤◌, ◌<◌, ◌≡◌, ◌≢◌, ap, ◌∙◌, none, arith}
use native.Mathlib.Decide.{ℕ_discrete}
use victory_db.Arena.{Arena, ArenaPolicy, Layout}
use victory_db.Arena.Laws.{bump_of, Granted}
use victory_db.SkipList.Node.{Ptr, null, Heap}
use victory_db.SkipList.Insert.Stored.{KeepsFree, extent}

-- The system's chunks are apart and none stands at null.
pub record IsAddressing (block : ℕ) (address : ℕ → ℕ → Ptr) : Type 0 where
  pub not_null : (chunk offset : ℕ) → address chunk offset ≢ null
  pub apart :
      (chunk offset chunk' offset' : ℕ)
      → offset < block
      → offset' < block
      → address chunk offset ≡ address chunk' offset'
      → (chunk ≡ chunk') × (offset ≡ offset')

-- No node stands where the arena has handed out nothing yet.
abbrev pub IsUntouched : (ℕ → ℕ → Ptr) → Arena → Heap → Type 0
IsUntouched address a h =
    (chunk offset : ℕ)
    → bump_of a.chunks chunk ≤ offset
    → offset < a.policy.block_size
    → h (address chunk offset) ≡ none

-- Every node stands at an offset of a chunk, with all its bytes in what is handed out of the chunk,
-- and of two nodes in a chunk one ends before the other begins. No node has no bytes.
pub record IsLaidOut (address : ℕ → ℕ → Ptr) (a : Arena) (h : Heap) : Type 0 where
  pub somewhere :
      (p : Ptr)
      → 0 < extent (h p)
      → (c : ℕ) × (o : ℕ) × (o < a.policy.block_size) × (p ≡ address c o)
  pub handed_out :
      (c o : ℕ)
      → o < a.policy.block_size
      → 0 < extent (h (address c o))
      → o + extent (h (address c o)) ≤ bump_of a.chunks c
  pub separate :
      (c o o' : ℕ)
      → o < o'
      → o' < a.policy.block_size
      → 0 < extent (h (address c o))
      → 0 < extent (h (address c o'))
      → o + extent (h (address c o)) ≤ o'

-- Where there are no nodes.
pub no_nodes-IsLaidOut : (address : ℕ → ℕ → Ptr) (a : Arena) → IsLaidOut address a (λ p. none)
no_nodes-IsLaidOut address a = record {
  somewhere = λ p there. absurd (omega arith);
  handed_out = λ c o inside there. absurd (omega arith);
  separate = λ c o o' l inside there there'. absurd (omega arith);
}

module _ (address : ℕ → ℕ → Ptr) (a a' : Arena) (h h' : Heap) (k c o : ℕ) (l : Layout)
    (given : Granted a k l c o a') (pos : 0 < l.size)
    (addressing : IsAddressing a.policy.block_size address)
    (keeps : KeepsFree (address c o) h h') where
  pub grant-IsUntouched : IsUntouched address a h → IsUntouched address a' h'
  grant-IsUntouched untouched chunk offset beyond inside =
      let same = ap (λ (p : ArenaPolicy). p.block_size) given.policy in
      let kept = given.keeps chunk in
      let fits = given.inside in
      keeps (address chunk offset)
        (λ e.
          let (ec, eo) = addressing.apart chunk offset c o (omega arith) (omega arith) e in
          let reach = ap (bump_of a'.chunks) ec in let taken = given.taken in omega arith)
        (untouched chunk offset (omega arith) (omega arith))

  module _ (size : extent (h' (address c o)) ≡ l.size)
      (sizes : (p : Ptr) → p ≢ address c o → extent (h' p) ≡ extent (h p))
      (laid : IsLaidOut address a h) where
    same_block : a'.policy.block_size ≡ a.policy.block_size
    same_block = ap (λ (p : ArenaPolicy). p.block_size) given.policy

    -- The node at the region that was granted ends where that ends.
    new_end :
        (c' o' : ℕ)
        → o' < a.policy.block_size
        → address c' o' ≡ address c o
        → (c' ≡ c) × (o' ≡ o) × (o' + extent (h' (address c' o')) ≡ bump_of a'.chunks c')
    new_end c' o' inside e =
        let fits = given.inside in
        let taken = given.taken in
        let (ec, eo) = addressing.apart c' o' c o inside (omega arith) e in
        let ends = ap (λ (p : Ptr). extent (h' p)) e ∙ size in
        let reach = ap (bump_of a'.chunks) ec in (ec, eo, omega arith)

    ends_inside :
        (c' o' : ℕ)
        → o' < a.policy.block_size
        → 0 < extent (h' (address c' o'))
        → o' + extent (h' (address c' o')) ≤ bump_of a'.chunks c'
    ends_inside c' o' inside there = elim (ℕ_discrete (address c' o') (address c o)) [
      | yes e ↦ let (ec, eo, ends) = new_end c' o' inside e in omega arith
      | no d ↦
          let old = sizes (address c' o') d in
          let kept = given.keeps c' in
          let before = laid.handed_out c' o' inside (omega arith) in omega arith
    ]

    ends_before :
        (c' o1 o2 : ℕ)
        → o1 < o2
        → o2 < a.policy.block_size
        → 0 < extent (h' (address c' o1))
        → 0 < extent (h' (address c' o2))
        → o1 + extent (h' (address c' o1)) ≤ o2
    ends_before c' o1 o2 lt inside there there' = elim (ℕ_discrete (address c' o1) (address c o)) [
      | yes e ↦ elim (ℕ_discrete (address c' o2) (address c o)) [
        | yes e' ↦
            let (ec, eo, _) = new_end c' o1 (omega arith) e in
            let (ec', eo', _) = new_end c' o2 inside e' in absurd (omega arith)
        | no d ↦
            let (ec, eo, _) = new_end c' o1 (omega arith) e in
            let old = sizes (address c' o2) d in
            let fresh = given.fresh in
            let reach = ap (bump_of a.chunks) ec in
            let before = laid.handed_out c' o2 inside (omega arith) in absurd (omega arith)
      ]
      | no d ↦ elim (ℕ_discrete (address c' o2) (address c o)) [
        | yes e' ↦
            let (ec, eo, _) = new_end c' o2 inside e' in
            let old = sizes (address c' o1) d in
            let fresh = given.fresh in
            let reach = ap (bump_of a.chunks) ec in
            let before = laid.handed_out c' o1 (omega arith) (omega arith) in omega arith
        | no d' ↦
            let old = sizes (address c' o1) d in
            let old' = sizes (address c' o2) d' in
            let before = laid.separate c' o1 o2 lt inside (omega arith) (omega arith) in omega arith
      ]
    ]

    pub grant-IsLaidOut : IsLaidOut address a' h'
    grant-IsLaidOut =
        let fits = given.inside in
        record {
          somewhere = λ p there. elim (ℕ_discrete p (address c o)) [
            | yes e ↦ (c, o, omega (arith, same_block), e)
            | no d ↦
                let old = sizes p d in
                let (c', o', inside, e) = laid.somewhere p (omega arith) in
                (c', o', omega (arith, same_block), e)
          ];
          handed_out = λ c' o' inside there. ends_inside c' o' (omega (arith, same_block)) there;
          separate = λ c' o1 o2 lt inside there there'.
              ends_before c' o1 o2 lt (omega (arith, same_block)) there there';
        }
