-- ===== src/Memtable/Versions.antt =====
-- The versions of a user key in a memtable (crates/engine/src/memtable/memtable.rs), and where they
-- stand in its order.
use victory_db.Base.{
  ℕ, ◌+◌, ◌*◌, ◌^◌, ◌≤◌, ◌<◌, ◌≡◌, ◌≢◌, refl, sym, ap, subst, ◌∙◌, inl, inr, some, true, false,
  List, ◌∷◌, ◌++◌, Bytes, arith, if◌then◌else◌, cmp,
}
use victory_db.Base.Slices.{eq_of_cmp, cmp-swap, cmp_self}
use victory_db.Base.Run.{Run, ok}
use victory_db.Key.Comparator.{internal_comparator, is_less, less, trailer_order}
use victory_db.Key.Comparator.Laws.{HasTrailer}
use victory_db.Key.InternalKey.{
  OperationType, put, delete, merge, max_op, op_code, op_from, internal_key,
}
use victory_db.Key.InternalKey.Laws.{internal_compare-trailer_order, internal_key_ref-internal_key}
use victory_db.SkipList.Node.{Ptr, Heap}
use victory_db.SkipList.Chain.{Has, Has-append, All-Has}
use victory_db.SkipList.Invariant.{key_of, value_of, Sorted, AllLess, IsSkipList}
use victory_db.Memtable.{MemReturn, not_found, MemtableInner, same_bytes, mem_return, entry_return}
use victory_db.Memtable.Returns.{Says}
use Prim.Native.Nat.{compare}

-- A key with its parts.
pub record Encodes (bytes : Bytes) (user : Bytes) (seq : ℕ) (op : OperationType) : Type 0 where
  pub is : bytes ≡ internal_key user seq op
  pub seq_fits : seq < 2 ^ 56
  pub stored : op ≢ max_op

abbrev pub IsEntry : Bytes → Type 0
IsEntry bytes = (user : Bytes) × (seq : ℕ) × (op : OperationType) × Encodes bytes user seq op

module _ (u v : Bytes) (s t : ℕ) (op oq : OperationType) (hs : s < 2 ^ 56) (ht : t < 2 ^ 56) where
  less-internal_key :
      less internal_comparator (internal_key u s op) (internal_key v t oq)
      ≡ is_less
          (some (trailer_order (cmp u v) (compare (t * 256 + op_code oq) (s * 256 + op_code op))))
  less-internal_key = ap is_less (internal_compare-trailer_order u v s t op oq hs ht)

stored_code : (op : OperationType) → op ≢ max_op → op_code op < 255
unfolding op_code
stored_code put n = omega arith
stored_code delete n = omega arith
stored_code merge n = omega arith
stored_code max_op n = absurd (n refl)

max_code : op_code max_op ≡ 255
unfolding op_code
max_code = refl

-- A version that the lookup may see is not less than the lookup's key, and no other one of the user
-- key is.
visible_not_less :
    (u : Bytes) (s t : ℕ) (op : OperationType)
    → s < 2 ^ 56
    → t < 2 ^ 56
    → op ≢ max_op
    → t ≤ s
    → less internal_comparator (internal_key u t op) (internal_key u s max_op) ≡ false
visible_not_less u s t op hs ht n le =
    less-internal_key u u t s op max_op ht hs
    ∙ ground (arith, cmp_self u, stored_code op n, max_code)

pub not_less_visible :
    (u : Bytes) (s t : ℕ) (op : OperationType)
    → s < 2 ^ 56
    → t < 2 ^ 56
    → op ≢ max_op
    → less internal_comparator (internal_key u t op) (internal_key u s max_op) ≡ false
    → t ≤ s
not_less_visible u s t op hs ht n l =
    let e = sym (less-internal_key u u t s op max_op ht hs) ∙ l in
    ground (arith, e, cmp_self u, stored_code op n, max_code)

-- Of two entries of one user key, the one that is not less is not newer.
pub not_less_older :
    (u : Bytes) (s t : ℕ) (op oq : OperationType)
    → s < 2 ^ 56
    → t < 2 ^ 56
    → op ≢ max_op
    → oq ≢ max_op
    → less internal_comparator (internal_key u s op) (internal_key u t oq) ≡ false
    → s ≤ t
not_less_older u s t op oq hs ht n m l =
    let e = sym (less-internal_key u u s t op oq hs ht) ∙ l in
    ground (arith, e, cmp_self u, stored_code op n, stored_code oq m)

-- An entry of another user key that stands behind the lookup's key keeps those of the lookup's user
-- key from standing behind it.
pub other_user :
    (u v : Bytes) (s t r : ℕ) (op oq : OperationType)
    → s < 2 ^ 56
    → t < 2 ^ 56
    → r < 2 ^ 56
    → same_bytes v u ≡ false
    → less internal_comparator (internal_key v t op) (internal_key u s max_op) ≡ false
    → less internal_comparator (internal_key u r oq) (internal_key v t op) ≡ true
other_user u v s t r op oq hs ht hr differ l =
    let e = sym (less-internal_key v u t s op max_op ht hs) ∙ l in
    less-internal_key u v r t oq op hr ht ∙ ground (arith, e, differ, cmp-swap v u)

pub eq_of_same_bytes : (a b : Bytes) → same_bytes a b ≡ true → a ≡ b
eq_of_same_bytes a b e = ground (arith, eq_of_cmp a b)

pub op_from-op_code : (op : OperationType) → op_from (op_code op) ≡ some op
unfolding op_from op_code
op_from-op_code put = refl
op_from-op_code delete = refl
op_from-op_code merge = refl
op_from-op_code max_op = refl

pub entry_return-internal_key :
    (u v : Bytes) (s t : ℕ) (op : OperationType) (bytes : Bytes)
    → s < 2 ^ 56
    → t < 2 ^ 56
    → entry_return (internal_key u s max_op) (internal_key v t op) bytes
      ≡ (if same_bytes v u then mem_return op bytes else ok not_found)
unfolding entry_return
entry_return-internal_key u v s t op bytes hs ht = ground (
  arith,
  internal_key_ref-internal_key v t op ht,
  internal_key_ref-internal_key u s max_op hs,
  op_from-op_code op,
)

-- A version of user key `u` that a lookup at sequence number `s` sees.
pub record IsVersion (h : Heap) (u : Bytes) (s : ℕ) (p : Ptr) (t : ℕ) (op : OperationType)
    : Type 0 where
  pub encodes : Encodes (key_of h p) u t op
  pub visible : t ≤ s

-- What a lookup of `u` at `s` among the nodes `ps` has to answer: nothing where there is no version
-- that it sees, else what the newest of them holds.
pub data Answer (h : Heap) (ps : List Ptr) (u : Bytes) (s : ℕ) : Run MemReturn → Type 0 where
  nothing :
      ((p : Ptr) (t : ℕ) (op : OperationType) → Has p ps → IsVersion h u s p t op → ⊥)
      → Answer h ps u s (ok not_found)
  newest :
      (p : Ptr) (t : ℕ) (op : OperationType)
      → Has p ps
      → IsVersion h u s p t op
      → ((q : Ptr) (r : ℕ) (oq : OperationType) → Has q ps → IsVersion h u s q r oq → r ≤ t)
      → (r : Run MemReturn) → Says op (value_of h p) r
      → Answer h ps u s r

-- A well-formed skip list whose keys all encode stored operations.
pub record IsMemtable (m : MemtableInner) (lists : ℕ → List Ptr) : Type 0 where
  pub list : IsSkipList internal_comparator HasTrailer m.skiplist lists
  pub entries : (p : Ptr) → Has p (lists 0) → IsEntry (key_of m.skiplist.heap p)

module _ (h : Heap) (u : Bytes) (s : ℕ) (hs : s < 2 ^ 56) where
  abbrev pub lookup : Bytes
  lookup = internal_key u s max_op

  pub version-not_less :
      (p : Ptr) (t : ℕ) (op : OperationType)
      → IsVersion h u s p t op
      → less internal_comparator (key_of h p) lookup ≡ false
  version-not_less p t op v =
      rw (v.encodes.is) (visible_not_less u s t op hs v.encodes.seq_fits v.encodes.stored v.visible)

  pub behind :
      (before after : List Ptr) (p : Ptr) (t : ℕ) (op : OperationType)
      → AllLess internal_comparator h lookup before
      → Has p (before ++ after)
      → IsVersion h u s p t op
      → Has p after
  behind before after p t op a there v = elim (Has-append p before after there) [
    | inl b ↦
        let l = All-Has (λ x. less internal_comparator (key_of h x) lookup ≡ true) before a p b in
        let g = version-not_less p t op v in absurd (cc (l, g))
    | inr b ↦ b
  ]

  not_less_self :
      (x : Ptr) → IsEntry (key_of h x) → less internal_comparator (key_of h x) (key_of h x) ≡ false
  not_less_self x (v, t, op, e) =
      rw (e.is) (less-internal_key v v t t op op e.seq_fits e.seq_fits ∙ ground (arith, cmp_self v))

  pub not_less_first :
      (x : Ptr) (after : List Ptr) (q : Ptr)
      → IsEntry (key_of h x)
      → Sorted internal_comparator h (x ∷ after)
      → Has q (x ∷ after)
      → less internal_comparator (key_of h q) (key_of h x) ≡ false
  not_less_first x after q e sorted (inl same) =
      subst (λ (y : Ptr). less internal_comparator (key_of h y) (key_of h x) ≡ false) (sym same)
        (not_less_self x e)
  not_less_first x after q e sorted (inr there) =
      All-Has (λ y. less internal_comparator (key_of h y) (key_of h x) ≡ false) after sorted.0 q
        there
