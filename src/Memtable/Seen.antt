-- ===== src/Memtable/Seen.antt =====
-- The answer that `get` of crates/engine/src/memtable/memtable.rs owes to the nodes is the one it
-- owes to the writes that the nodes record.
use victory_db.Base.{
  ℕ, ◌^◌, ◌≤◌, ◌<◌, ◌≡◌, sym, ap, subst, ◌∙◌, Option, none, some, List, Bytes, All, Mem, arith,
}
use mathlib.Core.Option.{some-injective}
use victory_db.Base.Run.{Run}
use victory_db.Key.InternalKey.{
  OperationType, op_code, op_from, InternalKeyRef, internal_key_ref, internal_key,
}
use victory_db.Key.InternalKey.Laws.{internal_key_ref-internal_key}
use victory_db.SkipList.Node.{Ptr, Heap}
use victory_db.SkipList.Chain.{Has}
use victory_db.SkipList.Invariant.{key_of, value_of, contents}
use victory_db.Memtable.{MemReturn}
use victory_db.Memtable.Returns.{Says}
use victory_db.Memtable.Versions.{IsVersion, Answer, nothing, newest, op_from-op_code}
use victory_db.Memtable.Writes.{
  Write, IsWrite, entry_of, Answered, unwritten, latest, Records, Mem-contents, Has-contents,
}
use victory_db.Memtable.Insertion.{All-Mem}

internal_key_inj :
    (u v : Bytes) (s t : ℕ) (op oq : OperationType)
    → s < 2 ^ 56
    → t < 2 ^ 56
    → internal_key u s op ≡ internal_key v t oq
    → (u ≡ v) × (s ≡ t) × (op ≡ oq)
internal_key_inj u v s t op oq hs ht e =
    let same : some (record { user_key = u; seq_no = s; op = op_code op })
        ≡ some (record { user_key = v; seq_no = t; op = op_code oq }) =
      sym (internal_key_ref-internal_key u s op hs)
      ∙ ap internal_key_ref e
      ∙ internal_key_ref-internal_key v t oq ht in
    let code : some op ≡ some oq =
      sym (op_from-op_code op)
      ∙ ap (λ (k : Option InternalKeyRef). elim k [ none ↦ none | some k ↦ op_from k.op ]) same
      ∙ op_from-op_code oq in
    (
      ap (λ (k : Option InternalKeyRef). elim k [ none ↦ u | some k ↦ k.user_key ]) same,
      ap (λ (k : Option InternalKeyRef). elim k [ none ↦ s | some k ↦ k.seq_no ]) same,
      some-injective op oq code,
    )

module _ (h : Heap) (ps : List Ptr) (ws : List Write) (records : Records (contents h ps) ws)
    (writes : All IsWrite ws) (u : Bytes) (s : ℕ) where
  -- A write that the lookup sees is a version among the nodes.
  version_of :
      (w : Write)
      → Mem w ws
      → w.user_key ≡ u
      → w.seq_no ≤ s
      → (p : Ptr) × Has p ps × IsVersion h u s p w.seq_no w.op_type
  version_of w there same le =
      let (p, has, k, v) = Mem-contents h ps (entry_of w) (records.all w there) in
      let is = All-Mem ws w writes there in
      (
        p,
        has,
        record {
          encodes = record {
            is = k ∙ ap (λ (b : Bytes). internal_key b w.seq_no w.op_type) same;
            seq_fits = is.seq_fits;
            stored = is.stored;
          };
          visible = le;
        },
      )

  pub Answer-Answered : (r : Run MemReturn) → Answer h ps u s r → Answered ws u s r
  Answer-Answered r (nothing f) = unwritten λ w there same le.
      let (p, has, v) = version_of w there same le in f p w.seq_no w.op_type has v
  Answer-Answered r (newest p t op there v f a says) =
      let (w, m, e) = records.only (key_of h p, value_of h p) (Has-contents h ps p there) in
      let is = All-Mem ws w writes m in
      let (eu, es, eo) =
        internal_key_inj u w.user_key t w.seq_no op w.op_type v.encodes.seq_fits is.seq_fits
          (sym v.encodes.is ∙ ap (λ (x : Bytes × Bytes). x.0) e) in
      let seen = v.visible in
      latest w m (sym eu) (omega arith)
        (λ x mx sx lx.
          let (q, has, vx) = version_of x mx sx lx in
          let newer = f q x.seq_no x.op_type has vx in omega arith)
        a
        (subst (λ (o : OperationType). Says o w.bytes a) eo
          (subst (λ (b : Bytes). Says op b a) (ap (λ (x : Bytes × Bytes). x.1) e) says))
