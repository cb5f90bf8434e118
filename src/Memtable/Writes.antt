-- ===== src/Memtable/Writes.antt =====
-- What the entries of a memtable (crates/engine/src/memtable/memtable.rs) are after a list of writes.
use victory_db.Base.{
  ℕ, ◌+◌, ◌^◌, ◌≤◌, ◌<◌, ◌≡◌, ◌≢◌, refl, sym, ap, subst, ◌⊎◌, inl, inr, Bool-cases, List, [], ◌∷◌,
  Bytes, Mem, length, arith,
}
use victory_db.Base.Run.{Run, ok}
use victory_db.Key.Comparator.{Comparator, less}
use victory_db.Key.InternalKey.{OperationType, max_op, internal_key}
use victory_db.SkipList.Node.{Ptr, Heap}
use victory_db.SkipList.Chain.{Has}
use victory_db.SkipList.Invariant.{key_of, value_of, contents}
use victory_db.SkipList.Insert.Entries.{insert_entry}
use victory_db.Memtable.{MemReturn, not_found}
use victory_db.Memtable.Returns.{Says}

-- The arguments of one `insert_direct`.
pub record Write : Type 0 where
  pub user_key : Bytes
  pub seq_no : ℕ
  pub op_type : OperationType
  pub bytes : Bytes

-- A write with a sequence number of 56 bits, an operation that is stored, and a key and value that
-- the length fields of a node hold.
pub record IsWrite (w : Write) : Type 0 where
  pub seq_fits : w.seq_no < 2 ^ 56
  pub stored : w.op_type ≢ max_op
  pub short : length w.user_key + 8 < 2 ^ 16
  pub brief : length w.bytes < 2 ^ 32

abbrev pub write_key : Write → Bytes
write_key w = internal_key w.user_key w.seq_no w.op_type

abbrev pub entry_of : Write → Bytes × Bytes
entry_of w = (write_key w, w.bytes)

-- What a lookup of `u` at `s` has to answer after the writes `ws`: nothing where no write of `u` has
-- a sequence number up to `s`, else what one with the largest such number wrote.
pub data Answered (ws : List Write) (u : Bytes) (s : ℕ) : Run MemReturn → Type 0 where
  unwritten :
      ((w : Write) → Mem w ws → w.user_key ≡ u → w.seq_no ≤ s → ⊥) → Answered ws u s (ok not_found)
  latest :
      (w : Write)
      → Mem w ws
      → w.user_key ≡ u
      → w.seq_no ≤ s
      → ((v : Write) → Mem v ws → v.user_key ≡ u → v.seq_no ≤ s → v.seq_no ≤ w.seq_no)
      → (r : Run MemReturn) → Says w.op_type w.bytes r
      → Answered ws u s r

-- The entries are those of the writes.
pub record Records (es : List (Bytes × Bytes)) (ws : List Write) : Type 0 where
  pub only : (e : Bytes × Bytes) → Mem e es → (w : Write) × Mem w ws × (e ≡ entry_of w)
  pub all : (w : Write) → Mem w ws → Mem (entry_of w) es

module _ (c : Comparator) (key value : Bytes) where
  Mem-insert_entry :
      (es : List (Bytes × Bytes)) (e : Bytes × Bytes)
      → Mem e (insert_entry c key value es)
      → (e ≡ (key, value)) ⊎ Mem e es
  unfolding insert_entry
  Mem-insert_entry [] e m = m
  Mem-insert_entry ((k, v) ∷ es) e m = elim (Bool-cases (less c k key)) [
    | inl l ↦
        let m' : (e ≡ (k, v)) ⊎ Mem e (insert_entry c key value es) = ground (arith, m, l) in
        elim m' [
          | inl here ↦ inr (inl here)
          | inr later ↦ elim (Mem-insert_entry es e later) [
            | inl new ↦ inl new
            | inr old ↦ inr (inr old)
          ]
        ]
    | inr g ↦ ground (arith, m, g)
  ]

  new-insert_entry : (es : List (Bytes × Bytes)) → Mem (key, value) (insert_entry c key value es)
  unfolding insert_entry
  new-insert_entry [] = inl refl
  new-insert_entry ((k, v) ∷ es) = elim (Bool-cases (less c k key)) [
    | inl l ↦ rw l (inr (new-insert_entry es))
    | inr g ↦ rw g (inl refl)
  ]

  old-insert_entry :
      (es : List (Bytes × Bytes)) (e : Bytes × Bytes)
      → Mem e es
      → Mem e (insert_entry c key value es)
  unfolding insert_entry
  old-insert_entry [] e m = absurd m
  old-insert_entry ((k, v) ∷ es) e m = elim (Bool-cases (less c k key)) [
    | inl l ↦ rw l (elim m [ inl here ↦ inl here | inr later ↦ inr (old-insert_entry es e later) ])
    | inr g ↦ rw g (inr m)
  ]

-- One more write, and its entry in its place.
pub Records-insert_entry :
    (c : Comparator) (es : List (Bytes × Bytes)) (ws : List Write) (w : Write)
    → Records es ws
    → Records (insert_entry c (write_key w) w.bytes es) (w ∷ ws)
Records-insert_entry c es ws w r = record {
  only = λ e m. elim (Mem-insert_entry c (write_key w) w.bytes es e m) [
    | inl new ↦ (w, inl refl, new)
    | inr old ↦ let (v, there, is) = r.only e old in (v, inr there, is)
  ];
  all = λ v m. elim m [
    | inl e ↦
        subst (λ (x : Write). Mem (entry_of x) (insert_entry c (write_key w) w.bytes es)) (sym e)
          (new-insert_entry c (write_key w) w.bytes es)
    | inr old ↦ old-insert_entry c (write_key w) w.bytes es (entry_of v) (r.all v old)
  ];
}

pub Mem-contents :
    (h : Heap) (ps : List Ptr) (e : Bytes × Bytes)
    → Mem e (contents h ps)
    → (p : Ptr) × Has p ps × (key_of h p ≡ e.0) × (value_of h p ≡ e.1)
Mem-contents h [] e m = absurd m
Mem-contents h (p ∷ ps) e (inl here) =
    (p, inl refl, ap (λ t. t.0) (sym here), ap (λ t. t.1) (sym here))
Mem-contents h (p ∷ ps) e (inr later) =
    let (q, there, k, v) = Mem-contents h ps e later in (q, inr there, k, v)

pub Has-contents :
    (h : Heap) (ps : List Ptr) (p : Ptr) → Has p ps → Mem (key_of h p, value_of h p) (contents h ps)
Has-contents h [] p there = absurd there
Has-contents h (q ∷ ps) p (inl e) = inl (ap (λ r. (key_of h r, value_of h r)) e)
Has-contents h (q ∷ ps) p (inr there) = inr (Has-contents h ps p there)
