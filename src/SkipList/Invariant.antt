-- ===== src/SkipList/Invariant.antt =====
-- What a skip list is: sorted chains, each within the one below.
use victory_db.Base.{
  ℕ, suc, ◌≤◌, ◌<◌, ◌≡◌, none, some, true, false, List, [], ◌∷◌, ◌++◌, All, length, Bytes,
}
use victory_db.Key.Comparator.{Comparator, less}
use victory_db.SkipList.Node.{Ptr, Heap, max_head_height}
use victory_db.SkipList.Search.{SkipList}
use victory_db.SkipList.Chain.{Chain, Has, last, first}

abbrev pub key_of : Heap → Ptr → Bytes
key_of h p = elim (h p) [ none ↦ [] | some n ↦ n.key ]

abbrev pub value_of : Heap → Ptr → Bytes
value_of h p = elim (h p) [ none ↦ [] | some n ↦ n.value ]

module _ (c : Comparator) (h : Heap) where
  -- No node of the list is less than a later one is allowed to be.
  abbrev pub Sorted : List Ptr → Type 0
  Sorted [] = Unit {0}
  Sorted (x ∷ xs) = All (λ y. less c (key_of h y) (key_of h x) ≡ false) xs × Sorted xs

  abbrev pub AllLess : Bytes → List Ptr → Type 0
  AllLess key xs = All (λ x. less c (key_of h x) key ≡ true) xs

  abbrev pub FirstNotLess : Bytes → List Ptr → Type 0
  FirstNotLess key [] = Unit {0}
  FirstNotLess key (x ∷ xs) = less c (key_of h x) key ≡ false

  -- A list cut where the keys stop to be less than `key`, between the nodes `p` and `q`.
  pub record Cut (key : Bytes) (head : Ptr) (xs : List Ptr) (p q : Ptr) : Type 0 where
    pub before : List Ptr
    pub after : List Ptr
    pub whole : xs ≡ before ++ after
    pub lesser : AllLess key before
    pub rest : FirstNotLess key after
    pub pred : p ≡ last head before
    pub succ : q ≡ first after

-- The skip list `s` with the nodes `lists level` on each level.
pub record IsSkipList (c : Comparator) (Valid : Bytes → Type 0) (s : SkipList)
    (lists : ℕ → List Ptr) : Type 0 where
  pub chains : (level : ℕ) → level < max_head_height → Chain s.heap level s.head (lists level)
  pub sorted : (level : ℕ) → Sorted c s.heap (lists level)
  pub nested : (level : ℕ) (p : Ptr) → Has p (lists (suc level)) → Has p (lists level)
  pub valid : (p : Ptr) → Has p (lists 0) → Valid (key_of s.heap p)
  pub empty : (level : ℕ) → s.max_level ≤ level → lists level ≡ []
  pub top : s.max_level ≤ max_head_height
  pub sizes : (level : ℕ) → length (lists level) ≤ s.entries

-- The entries that a skip list holds, in its order.
abbrev pub contents : Heap → List Ptr → List (Bytes × Bytes)
contents h [] = []
contents h (p ∷ ps) = (key_of h p, value_of h p) ∷ contents h ps
