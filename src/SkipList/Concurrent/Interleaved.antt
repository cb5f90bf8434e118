-- ===== src/SkipList/Concurrent/Interleaved.antt =====
-- What insertions of many threads (crates/engine/src/memtable/skip_list.rs) make of a new list,
-- however their accesses interleave.
use victory_db.Base.{
  ℕ, suc, ◌<◌, ◌≡◌, ◌≢◌, sym, subst, ◌⊎◌, none, some, false, List, ◌++◌, Bytes, arith,
}
use victory_db.Base.Run.{ok}
use native.Mathlib.Decide.{dec_lt}
use victory_db.Key.Comparator.{Comparator, IsLawful}
use victory_db.SkipList.Node.{Ptr, null, max_head_height}
use victory_db.SkipList.Search.{SkipList, new}
use victory_db.SkipList.Chain.{Chain, Has}
use victory_db.SkipList.Invariant.{key_of, value_of, Sorted}
use victory_db.SkipList.Concurrent.{Task, Pc, done, insert_step, places, System, start, Reach}
use victory_db.SkipList.Concurrent.Invariant.{levels_linked, height_of, Holds}
use victory_db.SkipList.Concurrent.Reached.{Fits, pc-Next}
use victory_db.SkipList.Concurrent.Alone.{Alone}
use victory_db.SkipList.Concurrent.Finishing.{pc-Finishes}
use victory_db.SkipList.Concurrent.History.{IsHistory, Reach-Extends, from_start}

-- The list of a system: sorted chains, each within the one below, of the nodes of the insertions that
-- have linked the level.
pub record IsSharedList (c : Comparator) (tasks : Ptr → Task) (s : System) (lists : ℕ → List Ptr)
    : Type 0 where
  pub chains : (j : ℕ) → j < max_head_height → Chain s.list.heap j s.list.head (lists j)
  pub sorted : (j : ℕ) → Sorted c s.list.heap (lists j)
  pub nested : (j : ℕ) (x : Ptr) → Has x (lists (suc j)) → Has x (lists j)
  pub linked : (j : ℕ) (x : Ptr) → j < levels_linked (s.pcs x) → Has x (lists j)
  pub only : (j : ℕ) (x : Ptr) → Has x (lists j) → j < levels_linked (s.pcs x)
  pub keys :
      (x : Ptr) (height : ℕ)
      → height_of (s.pcs x) ≡ some height
      → key_of s.list.heap x ≡ (tasks x).key
  pub values :
      (x : Ptr) (height : ℕ)
      → height_of (s.pcs x) ≡ some height
      → value_of s.list.heap x ≡ (tasks x).value

pub Holds-IsSharedList :
    (c : Comparator) (Valid : Bytes → Type 0) (tasks : Ptr → Task) (head : Ptr) (s : System)
    (lists : ℕ → List Ptr)
    → Holds c Valid tasks head s lists
    → IsSharedList c tasks s lists
Holds-IsSharedList c Valid tasks head s lists is = record {
  chains = λ j low.
      subst (λ (a : Ptr). Chain s.list.heap j a (lists j)) (sym is.root) (is.levels.chains j low);
  sorted = is.levels.sorted;
  nested = is.levels.nested;
  linked = λ j x l. (is.threads x).within j l;
  only = λ j x there. elim (dec_lt j (levels_linked (s.pcs x))) [
    | yes l ↦ l
    | no g ↦ absurd ((is.threads x).without j (omega arith) there)
  ];
  keys = λ x height e. ((is.threads x).own height e).key_there;
  values = λ x height e. ((is.threads x).own height e).value_there;
}

module _ (c : Comparator) (Valid : Bytes → Type 0) (law : IsLawful c Valid) (tasks : Ptr → Task)
    (fits : (x : Ptr) → Fits Valid (tasks x)) (head : Ptr) (not_null : head ≢ null) (s : System)
    (reach : Reach c tasks (start (new head)) s) where
  -- Under a lawful comparator, for valid keys of less than 2^16 bytes and values of less than 2^32
  -- bytes, on a new list whose sentinel is not at the null address, and after any interleaving of
  -- the accesses of the insertions: no access goes wrong. The next access of every insertion at an
  -- address that is not null returns, if the address holds no node yet in case the access is the
  -- one that makes the node.
  pub insert_step-returns :
      (x : Ptr)
      → x ≢ null
      → (places (tasks x) (s.pcs x) ≡ false) ⊎ (s.list.heap x ≡ none)
      → (list : SkipList) × (pc : Pc) × (insert_step c x (tasks x) s.list (s.pcs x) ≡ ok (list, pc))
  insert_step-returns x ne fresh =
      let (lists, history, is, past) = from_start c Valid law tasks fits head s not_null reach in
      let next =
        pc-Next c Valid law tasks fits head s.list lists is.root is.top is.levels x (s.pcs x)
          (is.threads x) ne fresh in
      (next.list, next.at, next.runs)

  -- Under a lawful comparator, for valid keys of less than 2^16 bytes and values of less than 2^32
  -- bytes, on a new list whose sentinel is not at the null address: after any interleaving of the
  -- accesses of the insertions every level is a sorted chain of exactly the nodes whose insertions
  -- have linked that level, within the one below; each node has its insertion's key and value; and
  -- the base level holds the entries that its insertions give one after another in some order, each
  -- once, which is an order that any further interleaving `u` continues.
  pub insert_step-IsHistory :
      (u : System)
      → Reach c tasks s u
      → (lists nodes : ℕ → List Ptr) × (history more : List Ptr) × IsSharedList c tasks s lists
        × IsHistory c tasks s (lists 0) history
        × IsSharedList c tasks u nodes
        × IsHistory c tasks u (nodes 0) (more ++ history)
  insert_step-IsHistory u further =
      let (lists, history, is, past) = from_start c Valid law tasks fits head s not_null reach in
      let (nodes, more, later, longer) =
        Reach-Extends c Valid law tasks fits head s u lists history is past further in
      (
        lists,
        nodes,
        history,
        more,
        Holds-IsSharedList c Valid tasks head s lists is,
        past,
        Holds-IsSharedList c Valid tasks head u nodes later,
        longer,
      )

  -- Under a lawful comparator, for valid keys of less than 2^16 bytes and values of less than 2^32
  -- bytes, on a new list whose sentinel is not at the null address: after any interleaving of the
  -- accesses of the insertions, every insertion at an address that is not null, and holds no node
  -- as long as the insertion has not made it, ends by finitely many accesses of its own when the
  -- others pause, wherever they are: no insertion waits for another.
  pub insert_step-finishes :
      (x : Ptr)
      → x ≢ null
      → (height_of (s.pcs x) ≡ none → s.list.heap x ≡ none)
      → (u : SkipList) × (height : ℕ) × Alone c x (tasks x) s.list (s.pcs x) u (done height)
  insert_step-finishes x ne free =
      let (lists, history, is, past) = from_start c Valid law tasks fits head s not_null reach in
      pc-Finishes c Valid law tasks fits head x ne s.list (s.pcs x)
        (record {
          lists = lists;
          root = is.root;
          top = is.top;
          levels = is.levels;
          thread = is.threads x;
          tall = is.tall x;
        })
        free
