-- ===== src/SkipList/Examples.antt =====
-- The skip list of crates/engine/src/memtable/skip_list.rs at work.
use victory_db.Base.{
  ℕ, zero, suc, ◌≤◌, ◌<◌, ◌≡◌, refl, inr, none, some, List, [], ◌∷◌, ◌++◌, length, Bytes, arith,
  cmp, ◌==◌, if◌then◌else◌, max, All,
}
use victory_db.Base.Run.{ok}
use victory_db.Key.Comparator.{default_comparator, default_compare}
use victory_db.Key.Comparator.Laws.{AnyKey, default-IsLawful}
use victory_db.SkipList.Node.{Ptr, null, Heap, max_head_height, deref, load_next}
use victory_db.SkipList.Level.{generate_random_level, generate_random_level_bounds}
use victory_db.SkipList.Search.{SkipList, TraversalCtx, search, search_node}
use victory_db.SkipList.Iter.{Bound, excluded, collect, seek, range_collect}
use victory_db.SkipList.Chain.{Chain, Has, first}
use victory_db.SkipList.Invariant.{key_of, Sorted, Cut, IsSkipList, AllLess}
use victory_db.SkipList.Found.{search-Cut}
use victory_db.SkipList.Iteration.{seek-range, NotLess, IsWithin, EndsAt}

abbrev next_of_head : ℕ → Ptr
next_of_head zero = 200
next_of_head (suc zero) = 300
next_of_head (suc (suc level)) = null

abbrev next_of_first : ℕ → Ptr
next_of_first level = 300

abbrev next_of_second : ℕ → Ptr
next_of_second level = null

abbrev heap : Heap
heap p =
    if p == 100
    then some (record { height = 8; key = []; value = []; next = next_of_head })
    else (if p == 200
        then some (record { height = 1; key = 1 ∷ []; value = []; next = next_of_first })
        else (if p == 300
            then some (record { height = 2; key = 5 ∷ []; value = 9 ∷ []; next = next_of_second })
            else none))

-- Two nodes, of which the second has two levels.
abbrev pub two_nodes : SkipList
two_nodes = record { heap = heap; head = 100; seed = 1; entries = 2; max_level = 2 }

abbrev pub lists : ℕ → List Ptr
lists zero = 200 ∷ 300 ∷ []
lists (suc zero) = 300 ∷ []
lists (suc (suc level)) = []

two_nodes-chains : (level : ℕ) → level < max_head_height → Chain heap level 100 (lists level)
unfolding load_next deref
two_nodes-chains zero l = (refl, λ e. omega arith, (refl, λ e. omega arith, refl))
two_nodes-chains (suc zero) l = (refl, λ e. omega arith, refl)
two_nodes-chains (suc (suc level)) l = ground arith

two_nodes-Sorted : (level : ℕ) → Sorted default_comparator heap (lists level)
unfolding default_compare cmp
two_nodes-Sorted zero = ((refl, tt), (tt, tt))
two_nodes-Sorted (suc zero) = (tt, tt)
two_nodes-Sorted (suc (suc level)) = tt

two_nodes-nested : (level : ℕ) (p : Ptr) → Has p (lists (suc level)) → Has p (lists level)
two_nodes-nested zero p there = inr there
two_nodes-nested (suc zero) p there = absurd there
two_nodes-nested (suc (suc level)) p there = absurd there

two_nodes-empty : (level : ℕ) → 2 ≤ level → lists level ≡ []
two_nodes-empty zero l = absurd (omega arith)
two_nodes-empty (suc zero) l = absurd (omega arith)
two_nodes-empty (suc (suc level)) l = refl

two_nodes-sizes : (level : ℕ) → length (lists level) ≤ 2
two_nodes-sizes zero = omega arith
two_nodes-sizes (suc zero) = omega arith
two_nodes-sizes (suc (suc level)) = omega arith

pub two_nodes-IsSkipList : IsSkipList default_comparator AnyKey two_nodes lists
two_nodes-IsSkipList = record {
  chains = two_nodes-chains;
  sorted = two_nodes-Sorted;
  nested = two_nodes-nested;
  valid = λ p there. tt;
  empty = two_nodes-empty;
  top = omega arith;
  sizes = two_nodes-sizes;
}

abbrev pub key : Bytes
key = 3 ∷ []

abbrev end_bound : Bound
end_bound = excluded (9 ∷ [])

generate_random_level_bounds_example :
    (1 ≤ (generate_random_level 100 88172645463325252 1).2)
    × ((generate_random_level 100 88172645463325252 1).2 ≤ 3)
    × ((generate_random_level 100 88172645463325252 1).1
        ≡ max 1 (generate_random_level 100 88172645463325252 1).2)
generate_random_level_bounds_example = generate_random_level_bounds 100 88172645463325252 1

search-Cut_example :
    (t : TraversalCtx) × (search default_comparator 3 two_nodes key ≡ ok t)
    × (t.searched_node ≡ none)
    × ((level : ℕ)
        → level < max_head_height
        → Cut default_comparator heap key 100
            (lists level)
            (t.predecessors level)
            (t.successors level))
search-Cut_example =
    search-Cut default_comparator AnyKey default-IsLawful 3 two_nodes lists key two_nodes-IsSkipList
      tt (omega arith)

seek-range_example :
    (before : List Ptr) × (after : List Ptr) × (lists 0 ≡ before ++ after)
    × AllLess default_comparator heap key before
    × NotLess default_comparator AnyKey default-IsLawful heap key after
    × (search_node default_comparator 3 two_nodes key ≡ ok (first after))
    × (seek default_comparator 3 two_nodes key ≡ ok (first after))
    × (collect 3 heap (first after) ≡ ok after)
    × ((inside : List Ptr) × (outside : List Ptr) × (after ≡ inside ++ outside)
        × All (λ x. IsWithin end_bound (key_of heap x)) inside
        × EndsAt heap end_bound outside
        × (range_collect 3 heap end_bound (first after) ≡ ok inside))
seek-range_example =
    seek-range default_comparator AnyKey default-IsLawful 3 two_nodes lists key end_bound
      two_nodes-IsSkipList tt (omega arith)
