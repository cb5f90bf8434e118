-- ===== src/WriteThread/Joining/Queue.antt =====
-- The queue that the joining threads of crates/engine/src/db/write_thread.rs leave.
use victory_db.Base.{
  ◌≡◌, ◌≢◌, refl, sym, ap, ◌∙◌, inl, inr, some, Bool, true, false, List, [], ◌∷◌, arith, ◌==◌,
}
use victory_db.Base.Run.{ok}
use native.Mathlib.Decide.{ℕ_discrete}
use victory_db.SkipList.Node.{Ptr, null}
use victory_db.SkipList.Chain.{Has}
use victory_db.Writer.{Writer}
use victory_db.WriteThread.{Writers, new, writer_at, put_writer, Pc, linked_to, joined}
use victory_db.WriteThread.Joining.{System, update_pc, start}

-- From `p` on, the links to older writers lead through `queue` to null.
abbrev pub OlderChain : Writers → Ptr → List Ptr → Type 0
OlderChain ws p [] = p ≡ null
OlderChain ws p (x ∷ xs) =
    (p ≡ x) × (x ≢ null) × ((w : Writer) × (ws x ≡ some w) × OlderChain ws w.link_older xs)

abbrev pub is_nil : List Ptr → Bool
is_nil [] = true
is_nil (x ∷ xs) = false

-- The writers of the queue have joined, the oldest as the first.
abbrev pub Roles : (Ptr → Pc) → List Ptr → Type 0
Roles pcs [] = Unit {0}
Roles pcs (x ∷ xs) = (pcs x ≡ joined (is_nil xs)) × Roles pcs xs

pub record IsQueue (s : System) (queue : List Ptr) : Type 0 where
  pub chain : OlderChain s.thread.writers s.thread.newest_writer queue
  pub roles : Roles s.pcs queue
  pub all : (w : Ptr) (first : Bool) → s.pcs w ≡ joined first → Has w queue
  pub linked :
      (w current : Ptr)
      → s.pcs w ≡ linked_to current
      → (n : Writer) × (s.thread.writers w ≡ some n) × (n.link_older ≡ current)

pub Roles-Has :
    (pcs : Ptr → Pc) (queue : List Ptr) (w : Ptr)
    → Roles pcs queue
    → Has w queue
    → (first : Bool) × (pcs w ≡ joined first)
Roles-Has pcs [] w r there = absurd there
Roles-Has pcs (x ∷ xs) w r (inl e) = (is_nil xs, ap pcs e ∙ r.0)
Roles-Has pcs (x ∷ xs) w r (inr there) = Roles-Has pcs xs w r.1 there

module _ (pcs : Ptr → Pc) (w : Ptr) (pc : Pc) where
  pub pc_here : update_pc pcs w pc w ≡ pc
  pc_here = ground arith

  pub pc_other : (q : Ptr) → q ≢ w → update_pc pcs w pc q ≡ pcs q
  pc_other q d = ground arith

  -- The step of a writer that is not in the queue leaves the queue's writers.
  pub Roles-update :
      (queue : List Ptr) → (Has w queue → ⊥) → Roles pcs queue → Roles (update_pc pcs w pc) queue
  Roles-update [] out r = tt
  Roles-update (x ∷ xs) out r =
      (pc_other x (λ e. out (inl (sym e))) ∙ r.0, Roles-update xs (λ there. out (inr there)) r.1)

pub OlderChain-put :
    (ws : Writers) (p w : Ptr) (n : Writer) (queue : List Ptr)
    → (Has w queue → ⊥)
    → OlderChain ws p queue
    → OlderChain (put_writer ws w n) p queue
OlderChain-put ws p w n [] out ch = ch
OlderChain-put ws p w n (x ∷ xs) out (e, ne, (v, there, ch)) = (
  e,
  ne,
  (
    v,
    put_other x (λ same. out (inl (sym same))) ∙ there,
    OlderChain-put ws v.link_older w n xs (λ has. out (inr has)) ch,
  ),
)
  where
    put_other : (q : Ptr) → q ≢ w → put_writer ws w n q ≡ ws q
    put_other q d = ground arith

pub writer_at-some :
    (ws : Writers) (w : Ptr) (n : Writer) → w ≢ null → ws w ≡ some n → writer_at ws w ≡ ok n
unfolding writer_at
writer_at-some ws w n ne e = ground (arith, ne, e)

pub put_here : (ws : Writers) (w : Ptr) (n : Writer) → put_writer ws w n w ≡ some n
put_here ws w n = ground arith

pub put_other : (ws : Writers) (w : Ptr) (n : Writer) (q : Ptr) → q ≢ w → put_writer ws w n q ≡ ws q
put_other ws w n q d = ground arith

-- The writer that linked to null is the first one.
pub first-is_nil :
    (ws : Writers) (p : Ptr) (queue : List Ptr) → OlderChain ws p queue → (p == null) ≡ is_nil queue
first-is_nil ws p [] e = ground (arith, e)
first-is_nil ws p (x ∷ xs) ch = let ne : p ≢ null = λ e. ch.1 (sym ch.0 ∙ e) in ground (arith, ne)

pub linked_to_inj : (p q : Ptr) → linked_to p ≡ linked_to q → p ≡ q
linked_to_inj p q e = cc

pub Roles-agree :
    (pcs : Ptr → Pc) (w : Ptr) (pc : Pc) (queue : List Ptr)
    → pcs w ≡ pc
    → Roles pcs queue
    → Roles (update_pc pcs w pc) queue
Roles-agree pcs w pc [] at r = tt
Roles-agree pcs w pc (x ∷ xs) at r = (
  elim (ℕ_discrete x w) [
    | yes e ↦ rw e (pc_here pcs w pc ∙ sym at ∙ ap pcs (sym e) ∙ r.0)
    | no d ↦ pc_other pcs w pc x d ∙ r.0
  ],
  Roles-agree pcs w pc xs at r.1,
)

pub start-IsQueue : (writers : Writers) → IsQueue (start writers) []
unfolding new
start-IsQueue writers = record {
  chain = refl;
  roles = tt;
  all = λ w first e. absurd (cc);
  linked = λ w current e. absurd (cc);
}
