-- ===== src/Memtable/Get.antt =====
-- `Memtable::get` (crates/engine/src/memtable/memtable.rs).
use victory_db.Base.{
  ℕ, ◌^◌, ◌<◌, ◌≡◌, ◌≢◌, refl, sym, ap, ap₂, subst, ◌∙◌, inl, inr, false, List, [], ◌∷◌, ◌++◌,
  Bytes, arith, ◌==◌, if◌then◌else◌, Bool-cases,
}
use victory_db.Base.Run.{ok}
use victory_db.Key.Comparator.{internal_comparator, less}
use victory_db.Key.Comparator.Laws.{HasTrailer, internal-IsLawful}
use victory_db.Key.InternalKey.{OperationType, max_op, internal_key}
use victory_db.Key.InternalKey.Laws.{length-internal_key}
use victory_db.SkipList.Node.{Ptr, null, Heap, get_key_bytes, get_value_bytes}
use victory_db.SkipList.Search.{TraversalCtx, search}
use victory_db.SkipList.Chain.{Chain, Has, first, load-first, Chain-after, Has-append_right}
use victory_db.SkipList.Invariant.{key_of, value_of, Sorted, AllLess, FirstNotLess}
use victory_db.SkipList.Found.{search-Cut}
use victory_db.SkipList.Iteration.{load-get_key, load-get_value, Sorted-right}
use victory_db.Memtable.{
  not_found, MemtableInner, first_ge, same_bytes, mem_return, entry_return, get,
}
use victory_db.Memtable.Returns.{mem_return-Says}
use victory_db.Memtable.Versions.{
  Encodes, IsEntry, IsVersion, Answer, nothing, newest, IsMemtable, entry_return-internal_key,
  not_less_visible, not_less_older, other_user, eq_of_same_bytes, behind, not_less_first,
}

module _ (fuel : ℕ) (m : MemtableInner) (key : Bytes) (t : TraversalCtx)
    (found : search internal_comparator fuel m.skiplist key ≡ ok t) where
  get-none : t.successors 0 ≡ null → get internal_comparator fuel m key ≡ ok not_found
  unfolding get first_ge
  get-none e = rw (found, e)

  get-some :
      (x : Ptr)
      → t.successors 0 ≡ x
      → x ≢ null
      → get_key_bytes m.skiplist.heap x ≡ ok (key_of m.skiplist.heap x)
      → get_value_bytes m.skiplist.heap x ≡ ok (value_of m.skiplist.heap x)
      → get internal_comparator fuel m key
        ≡ entry_return key (key_of m.skiplist.heap x) (value_of m.skiplist.heap x)
  unfolding get first_ge
  get-some x e ne k v =
      let not_null : (x == null) ≡ false = ground (arith, ne) in rw (found, e, not_null, k, v)

module _ (fuel : ℕ) (m : MemtableInner) (lists : ℕ → List Ptr) (u : Bytes) (s : ℕ)
    (hs : s < 2 ^ 56) where
  abbrev key : Bytes
  key = internal_key u s max_op

  abbrev h : Heap
  h = m.skiplist.heap

  -- What the first node behind the lookup's key decides.
  Answer-first :
      (before after : List Ptr) (x : Ptr) (v : Bytes) (t : ℕ) (op : OperationType)
      → AllLess internal_comparator h key before
      → less internal_comparator (key_of h x) key ≡ false
      → Sorted internal_comparator h (x ∷ after)
      → Encodes (key_of h x) v t op
      → Answer h
          (before ++ (x ∷ after))
          u
          s
          (if same_bytes v u then mem_return op (value_of h x) else ok not_found)
  Answer-first before after x v t op a f sorted e =
      let l : less internal_comparator (internal_key v t op) key ≡ false =
        ap (λ b. less internal_comparator b key) (sym e.is) ∙ f in
      let not_before : (q : Ptr) (r : ℕ) (oq : OperationType)
          → Has q (before ++ (x ∷ after))
          → IsVersion h u s q r oq
          → less internal_comparator (internal_key u r oq) (internal_key v t op) ≡ false =
        λ q r oq there w.
          let b =
            not_less_first h u s hs x after q (v, t, op, e) sorted
              (behind h u s hs before (x ∷ after) q r oq a there w) in
          ap₂ (less internal_comparator) (sym w.encodes.is) (sym e.is) ∙ b in
      elim (Bool-cases (same_bytes v u)) [
        | inl same ↦
            let e' = eq_of_same_bytes v u same in
            rw same (
              newest x t op (Has-append_right x before (x ∷ after) (inl refl))
                (record {
                  encodes = subst (λ (b : Bytes). Encodes (key_of h x) b t op) e' e;
                  visible = not_less_visible u s t op hs e.seq_fits e.stored (
                      subst
                        (λ (b : Bytes). less internal_comparator (internal_key b t op) key ≡ false)
                        e' l);
                })
                (λ q r oq there w.
                  not_less_older u r t oq op w.encodes.seq_fits e.seq_fits w.encodes.stored e.stored
                    (subst
                      (λ (b : Bytes).
                        less internal_comparator (internal_key u r oq) (internal_key b t op)
                        ≡ false)
                      e' (not_before q r oq there w)))
                (mem_return op (value_of h x)) (mem_return-Says op (value_of h x) e.stored))
        | inr differ ↦ rw differ (
            nothing λ q r oq there w.
              let g = other_user u v s t r op oq hs e.seq_fits w.encodes.seq_fits differ l in
              let b = not_before q r oq there w in cc (g, b))
      ]

  -- The lookup by the list behind the cut.
  Answer-after :
      (before after : List Ptr) (t : TraversalCtx)
      → search internal_comparator fuel m.skiplist key ≡ ok t
      → t.successors 0 ≡ first after
      → Chain h 0 m.skiplist.head (before ++ after)
      → AllLess internal_comparator h key before
      → FirstNotLess internal_comparator h key after
      → Sorted internal_comparator h (before ++ after)
      → ((p : Ptr) → Has p (before ++ after) → IsEntry (key_of h p))
      → Answer h (before ++ after) u s (get internal_comparator fuel m key)
  Answer-after before [] t found succ ch a f sorted entries =
      rw (get-none fuel m key t found succ)
        (nothing λ q r oq there w. absurd (behind h u s hs before [] q r oq a there w))
  Answer-after before (x ∷ after) t found succ ch a f sorted entries =
      let (v, r, op, e) = entries x (Has-append_right x before (x ∷ after) (inl refl)) in
      let ch' = Chain-after h 0 m.skiplist.head before (x ∷ after) ch in
      let next = load-first h 0 x after ch'.2 in
      let step =
        get-some fuel m key t found x succ ch'.1 (load-get_key h 0 x (first after) next)
          (load-get_value h 0 x (first after) next)
        ∙ ap (λ b. entry_return key b (value_of h x)) e.is
        ∙ entry_return-internal_key u v s r op (value_of h x) hs e.seq_fits in
      rw step (
        Answer-first before after x v r op a f
          (Sorted-right internal_comparator HasTrailer internal-IsLawful h before (x ∷ after)
            sorted)
          e)

  -- On a memtable whose keys all encode a put, delete or merge, `get` with the key of a user key, a
  -- sequence number of 56 bits and the largest operation returns, given more fuel than entries. It
  -- answers `NotFound` where no version of the user key has a sequence number up to the given one,
  -- and else what the version with the largest such number holds: its value, `Deleted` or `Merge`.
  pub get-Answer :
      IsMemtable m lists
      → m.skiplist.entries < fuel
      → Answer m.skiplist.heap
          (lists 0)
          u
          s
          (get internal_comparator fuel m (internal_key u s max_op))
  get-Answer is enough =
      let has_trailer : HasTrailer key = omega (arith, length-internal_key u s max_op) in
      let (t, found, unset, cuts) =
        search-Cut internal_comparator HasTrailer internal-IsLawful fuel m.skiplist lists key
          is.list has_trailer enough in
      let cut = cuts 0 (omega arith) in
      let list = is.list in
      let e = cut.whole in
      subst (λ (ps : List Ptr). Answer h ps u s (get internal_comparator fuel m key)) (sym e)
        (Answer-after cut.before cut.after t found cut.succ
          (subst (Chain h 0 m.skiplist.head) e (list.chains 0 (omega arith))) cut.lesser cut.rest
          (subst (Sorted internal_comparator h) e (list.sorted 0))
          (λ p there. is.entries p (subst (Has p) (sym e) there)))
