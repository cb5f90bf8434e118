-- ===== src/SkipList/Concurrent/Splitting.antt =====
-- Where the exchange of an insertion (crates/engine/src/memtable/skip_list.rs) finds the pointer
-- that it expects, the two nodes around the key are still neighbours.
use victory_db.Base.{
  ℕ, ◌<◌, ◌≡◌, refl, sym, subst, ◌∙◌, inl, inr, true, List, [], ◌∷◌, ◌++◌, append_assoc, Bytes, All,
  All-append,
}
use victory_db.Base.Run.{ok}
use victory_db.Key.Comparator.{Comparator, less, IsLawful}
use victory_db.SkipList.Node.{Ptr, null, Heap, load_next, max_head_height}
use victory_db.SkipList.Chain.{
  Chain, Has, last, first, load-first, Chain-after, last-append, Has-split, All-Has,
}
use victory_db.SkipList.Invariant.{key_of, Sorted, AllLess, FirstNotLess}
use victory_db.SkipList.Walk.{front-AllLess}
use victory_db.SkipList.Concurrent.Invariant.{Levels, IsBefore, IsBehind}

module _ (c : Comparator) (Valid : Bytes → Type 0) (law : IsLawful c Valid) (head : Ptr)
    (key : Bytes) (key_valid : Valid key) (h : Heap) (lists : ℕ → List Ptr)
    (levels : Levels c Valid head h lists) (k : ℕ) (low : k < max_head_height) where
  -- The level is the nodes up to `p`, all less than the key, and the nodes behind it.
  pub record Split (p : Ptr) : Type 0 where
    pub before : List Ptr
    pub after : List Ptr
    pub whole : lists k ≡ before ++ after
    pub ends : last head before ≡ p
    pub load : load_next h p k ≡ ok (first after)
    pub lesser : AllLess c h key before
    pub chain : Chain h k p after

  pub IsBefore-Split : (p : Ptr) → IsBefore c head key h lists k p → Split p
  IsBefore-Split p (inl e) =
      let ch : Chain h k p (lists k) =
        subst (λ (a : Ptr). Chain h k a (lists k)) (sym e) (levels.chains k low) in
      record {
        before = [];
        after = lists k;
        whole = refl;
        ends = sym e;
        load = load-first h k p (lists k) ch;
        lesser = tt;
        chain = ch;
      }
  IsBefore-Split p (inr (there, l)) =
      let (us, vs, split) = Has-split p (lists k) there in
      let ch : Chain h k head (us ++ (p ∷ vs)) =
        subst (Chain h k head) split (levels.chains k low) in
      let after : Chain h k p vs = (Chain-after h k head us (p ∷ vs) ch).2 in
      let front =
        front-AllLess c Valid law key key_valid h us p vs
          (subst (Sorted c h) split (levels.sorted k))
          (subst (All (λ q. Valid (key_of h q))) split (levels.valid k)) l in
      record {
        before = us ++ (p ∷ []);
        after = vs;
        whole = split ∙ sym (append_assoc us (p ∷ []) vs);
        ends = last-append head p us [];
        load = load-first h k p vs after;
        lesser = All-append (λ q. less c (key_of h q) key ≡ true) us (p ∷ []) front (l, tt);
        chain = after;
      }

  -- What stands behind is not less, where its first is what the search found.
  pub after-FirstNotLess :
      (p : Ptr) (vs : List Ptr)
      → Chain h k p vs
      → IsBehind c head key h lists k (first vs)
      → FirstNotLess c h key vs
  after-FirstNotLess p [] ch at = tt
  after-FirstNotLess p (v ∷ vs) ch (inl e) = absurd (ch.1 e)
  after-FirstNotLess p (v ∷ vs) ch (inr (there, g)) = g

  -- A slot that points behind the key is null where nothing stands behind.
  pub slot-first :
      (p : Ptr) (us vs : List Ptr) (q : Ptr)
      → lists k ≡ us ++ vs
      → AllLess c h key us
      → Chain h k p vs
      → first vs ≡ null
      → IsBehind c head key h lists k q
      → q ≡ first vs
  slot-first p us (v ∷ vs) q whole lesser ch e at = absurd (ch.1 e)
  slot-first p us [] q whole lesser ch e (inl none_there) = none_there
  slot-first p us [] q whole lesser ch e (inr (there, g)) =
      let front : AllLess c h key (us ++ []) =
        All-append (λ r. less c (key_of h r) key ≡ true) us [] lesser tt in
      let small =
        All-Has (λ r. less c (key_of h r) key ≡ true) (us ++ []) front q
          (subst (Has q) whole there) in
      absurd (cc (small, g))
