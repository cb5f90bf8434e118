-- ===== src/Memtable/Scan.antt =====
-- What a scan by `MemtableIterator` (crates/engine/src/memtable/memtable.rs) gives.
use victory_db.Base.{
  ℕ, zero, suc, ◌<◌, ◌≡◌, refl, ap, subst, false, List, [], ◌∷◌, ◌++◌, Bytes, arith, length,
  length-append, ◌==◌,
}
use victory_db.Base.Run.{ok, ◌>>=◌}
use victory_db.Key.Comparator.{Comparator, IsLawful}
use victory_db.SkipList.Node.{Ptr, null}
use victory_db.SkipList.Search.{SkipList}
use victory_db.SkipList.Iter.{unbounded}
use victory_db.SkipList.Chain.{Chain, first, load-first, Chain-after, last}
use victory_db.SkipList.Invariant.{IsSkipList, AllLess, contents}
use victory_db.SkipList.Iteration.{seek-range, NotLess, load-get_key, load-get_value}
use victory_db.Memtable.Iterator.{
  non_null, iter, iterator_seek, seek_to_first, valid, iterator_key, iterator_value, iterator_next,
  drain,
}

drain-Chain :
    (fuel : ℕ) (s : SkipList) (item p : Ptr) (xs : List Ptr)
    → Chain s.heap 0 p xs
    → length xs < fuel
    → drain fuel (record { list = s; item = item; current = non_null (first xs) })
      ≡ ok (contents s.heap xs)
unfolding drain valid iterator_key iterator_value iterator_next
drain-Chain zero s item p xs ch enough = absurd (omega arith)
drain-Chain (suc fuel) s item p [] ch enough = refl
drain-Chain (suc fuel) s item p (x ∷ xs) ch enough =
    let not_null : (x == null) ≡ false = ground (arith, ch.1) in
    let next = load-first s.heap 0 x xs ch.2 in
    let rest = drain-Chain fuel s item x xs ch.2 (omega arith) in
    rw (
      not_null,
      load-get_key s.heap 0 x (first xs) next,
      load-get_value s.heap 0 x (first xs) next,
      next,
      rest,
    )

module _ (c : Comparator) (Valid : Bytes → Type 0) (law : IsLawful c Valid) where
  -- On a well-formed list, with more fuel than entries, a scan from `seek_to_first` gives the keys
  -- and values of all nodes in their order, and a scan from `seek` those of all nodes behind the last
  -- that is less than the key.
  pub drain-seek :
      (fuel : ℕ) (s : SkipList) (lists : ℕ → List Ptr) (key : Bytes)
      → IsSkipList c Valid s lists
      → Valid key
      → s.entries < fuel
      → ((iter s >>= λ it. seek_to_first it >>= drain fuel) ≡ ok (contents s.heap (lists 0)))
        × ((before : List Ptr) × (after : List Ptr) × (lists 0 ≡ before ++ after)
            × AllLess c s.heap key before
            × NotLess c Valid law s.heap key after
            × ((iter s >>= λ it. iterator_seek c fuel it key >>= drain fuel)
                ≡ ok (contents s.heap after)))
  unfolding iter seek_to_first iterator_seek
  drain-seek fuel s lists key is key_valid enough =
      let (before, after, whole, less, not_less, node, sought, all, ranged) =
        seek-range c Valid law fuel s lists key unbounded is key_valid enough in
      let bottom = is.chains 0 (omega arith) in
      let start = load-first s.heap 0 s.head (lists 0) bottom in
      let size = is.sizes 0 in
      let ch =
        Chain-after s.heap 0 s.head before after (subst (Chain s.heap 0 s.head) whole bottom) in
      (
        rw (start, start)
            (drain-Chain fuel s (first (lists 0)) s.head (lists 0) bottom (omega arith)),
        (
          before,
          after,
          whole,
          less,
          not_less,
          rw (start, node)
              (drain-Chain fuel s (first after) (last s.head before) after ch
                (omega (arith, ap length whole, length-append before after))),
        ),
      )
