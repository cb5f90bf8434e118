-- ===== src/SkipList/Insert/Stored.antt =====
-- What the stores of an insertion (crates/engine/src/memtable/skip_list.rs) change, and what they
-- leave alone.
use victory_db.Base.{
  ℕ, zero, suc, ◌+◌, ◌*◌, ◌^◌, ◌<◌, ◌≡◌, ◌≢◌, refl, sym, ap, ◌∙◌, ◌⊎◌, Option, none, some, true,
  Bytes, length, arith, ◌==◌,
}
use victory_db.Base.Run.{ok}
use victory_db.SkipList.Node.{
  Ptr, null, Heap, Node, deref, load_next, store_next, update, set_level, alloc_node,
}
use victory_db.SkipList.Insert.{compare_exchange, link_successor}
use victory_db.SkipList.Invariant.{key_of, value_of}
use native.Mathlib.Nat.{mod-eq_of_lt}
use native.Mathlib.Decide.{ℕ_discrete}

-- Where no node stands in `h`, none stands in `h'`, but for the address `place`.
abbrev pub KeepsFree : Ptr → Heap → Heap → Type 0
KeepsFree place h h' = (p : Ptr) → p ≢ place → h p ≡ none → h' p ≡ none

-- The bytes that a node takes from its address on: a header of eight, eight for each level of its
-- tower, its key and its value.
abbrev pub extent : Option Node → ℕ
extent none = 0
extent (some n) = 8 + 8 * n.height + length n.key + length n.value

-- Two heaps with the same keys and values, and nodes of the same sizes at the same addresses.
pub record SameEntries (h h' : Heap) : Type 0 where
  pub free : (p : Ptr) → h p ≡ none → h' p ≡ none
  pub keys : (p : Ptr) → key_of h' p ≡ key_of h p
  pub values : (p : Ptr) → value_of h' p ≡ value_of h p
  pub sizes : (p : Ptr) → extent (h' p) ≡ extent (h p)

update-there : (h : Heap) (p : Ptr) (n : Node) → update h p n p ≡ some n
update-there h p n = ground arith

update-other : (h : Heap) (p : Ptr) (n : Node) (r : Ptr) → r ≢ p → update h p n r ≡ h r
update-other h p n r d = ground arith

key_of_cell : (h : Heap) (p : Ptr) (n : Option Node) → h p ≡ n → key_of h p ≡ key_of (λ q. n) p
key_of_cell h p n e = ap (λ (o : Option Node). key_of (λ q. o) p) e

value_of_cell :
    (h : Heap) (p : Ptr) (n : Option Node) → h p ≡ n → value_of h p ≡ value_of (λ q. n) p
value_of_cell h p n e = ap (λ (o : Option Node). value_of (λ q. o) p) e

SameEntries-update :
    (h : Heap) (p : Ptr) (n n' : Node)
    → h p ≡ some n
    → n'.key ≡ n.key
    → n'.value ≡ n.value
    → n'.height ≡ n.height
    → SameEntries h (update h p n')
SameEntries-update h p n n' c k v t = record {
  free = λ r e. elim (ℕ_discrete r p) [
    | yes same ↦ absurd (ground (arith, e, same, c))
    | no d ↦ update-other h p n' r d ∙ e
  ];
  keys = λ r. elim (ℕ_discrete r p) [
    | yes e ↦ rw e (
        key_of_cell (update h p n') p (some n') (update-there h p n')
        ∙ k
        ∙ sym (key_of_cell h p (some n) c))
    | no d ↦ key_of_cell (update h p n') r (h r) (update-other h p n' r d)
  ];
  values = λ r. elim (ℕ_discrete r p) [
    | yes e ↦ rw e (
        value_of_cell (update h p n') p (some n') (update-there h p n')
        ∙ v
        ∙ sym (value_of_cell h p (some n) c))
    | no d ↦ value_of_cell (update h p n') r (h r) (update-other h p n' r d)
  ];
  sizes = λ r. elim (ℕ_discrete r p) [
    | yes e ↦
        let same : extent (some n') ≡ extent (some n) =
          omega (arith, t, ap length k, ap length v) in
        rw e (ap extent (update-there h p n') ∙ same ∙ ap extent (sym c))
    | no d ↦ ap extent (update-other h p n' r d)
  ];
}

-- `h'` is `h` with the pointer `q` in the slot of `p` at level `i`.
pub record Stored (h : Heap) (p : Ptr) (i : ℕ) (q : Ptr) (h' : Heap) : Type 0 where
  pub there : load_next h' p i ≡ ok q
  pub other : (r : Ptr) (j : ℕ) → (r ≢ p) ⊎ (j ≢ i) → load_next h' r j ≡ load_next h r j
  pub entries : SameEntries h h'

-- A slot that can be read can be written.
pub store_next-Stored :
    (h : Heap) (p : Ptr) (i : ℕ) (r q : Ptr)
    → load_next h p i ≡ ok r
    → (h' : Heap) × (store_next h p i q ≡ ok h') × Stored h p i q h'
unfolding store_next load_next deref
store_next-Stored h p i r q e = stored (h p) refl
  where
    stored :
        (cell : Option Node)
        → h p ≡ cell
        → (h' : Heap) × (store_next h p i q ≡ ok h') × Stored h p i q h'
    stored none c = absurd (ground arith)
    stored (some n) c = (
      update h p (record n { next = set_level n.next i q }),
      ground arith,
      record {
        there = ground arith;
        other = λ r j d. ground arith;
        entries =
            SameEntries-update h p n (record n { next = set_level n.next i q }) c refl refl refl;
      },
    )

pub link_successor-Stored :
    (h : Heap) (p : Ptr) (i : ℕ) (q : Ptr)
    → load_next h p i ≡ ok null
    → (h' : Heap) × (link_successor h p i q ≡ ok h') × Stored h p i q h'
unfolding link_successor
link_successor-Stored h p i zero e = (
  h,
  refl,
  record {
    there = e;
    other = λ r j d. refl;
    entries = record { free = λ r e'. e'; keys = λ r. refl; values = λ r. refl; sizes = λ r. refl };
  },
)
link_successor-Stored h p i (suc q) e =
    let (h', eq, stored) = store_next-Stored h p i null (suc q) e in
    (h', ground (arith, eq), stored)

-- With one thread the expected pointer is there, and the exchange succeeds.
pub compare_exchange-Stored :
    (h : Heap) (p : Ptr) (i : ℕ) (r q : Ptr)
    → load_next h p i ≡ ok r
    → (h' : Heap) × (compare_exchange h p i r q ≡ ok (some h')) × Stored h p i q h'
unfolding compare_exchange
compare_exchange-Stored h p i r q e =
    let (h', eq, stored) = store_next-Stored h p i r q e in
    let same : (r == r) ≡ true = ground arith in (h', rw (e, same, eq), stored)

-- `h'` is `h` with a new node at `p`.
pub record Placed (h : Heap) (p : Ptr) (height : ℕ) (key value : Bytes) (h' : Heap) : Type 0 where
  pub empty : (j : ℕ) → j < height → load_next h' p j ≡ ok null
  pub other : (r : Ptr) (j : ℕ) → r ≢ p → load_next h' r j ≡ load_next h r j
  pub key_there : key_of h' p ≡ key
  pub value_there : value_of h' p ≡ value
  pub keys : (r : Ptr) → r ≢ p → key_of h' r ≡ key_of h r
  pub values : (r : Ptr) → r ≢ p → value_of h' r ≡ value_of h r
  pub free : KeepsFree p h h'
  pub size_there : extent (h' p) ≡ 8 + 8 * height + length key + length value
  pub sizes : (r : Ptr) → r ≢ p → extent (h' r) ≡ extent (h r)

pub alloc_node-Placed :
    (h : Heap) (p : Ptr) (height : ℕ) (key value : Bytes)
    → p ≢ null
    → length key < 2 ^ 16
    → length value < 2 ^ 32
    → (h' : Heap) × (alloc_node h p height key value ≡ ok h') × Placed h p height key value h'
unfolding alloc_node load_next deref
alloc_node-Placed h p height key value ne short small =
    let n : Node = record { height = height; key = key; value = value; next = λ level. null } in
    let cell = update-there h p n in
    (
      update h p n,
      ground (
        arith,
        mod-eq_of_lt {n = length key} {m = 2 ^ 16} short,
        mod-eq_of_lt {n = length value} {m = 2 ^ 32} small,
      ),
      record {
        empty = λ j l. ground arith;
        other = λ r j d. ground arith;
        key_there = key_of_cell (update h p n) p (some n) cell;
        value_there = value_of_cell (update h p n) p (some n) cell;
        keys = λ r d. key_of_cell (update h p n) r (h r) (update-other h p n r d);
        values = λ r d. value_of_cell (update h p n) r (h r) (update-other h p n r d);
        free = λ r d e. update-other h p n r d ∙ e;
        size_there = ap extent cell;
        sizes = λ r d. ap extent (update-other h p n r d);
      },
    )
