-- ===== src/SkipList/Insert/Examples.antt =====
-- The insertions of crates/engine/src/memtable/skip_list.rs at work.
use victory_db.Base.{refl, [], ◌∷◌, arith}
use victory_db.Key.Comparator.{default_comparator}
use victory_db.Key.Comparator.Laws.{AnyKey, default-IsLawful}
use victory_db.SkipList.Examples.{two_nodes, lists, two_nodes-IsSkipList, key}
use victory_db.SkipList.Insert.{insert, insert_with}
use victory_db.SkipList.Insert.Refinement.{Inserts, insert-Inserts, insert_with-Inserts}

-- The key 3 between 1 and 5.
insert-Inserts_example :
    Inserts default_comparator AnyKey two_nodes lists key
      (7 ∷ [])
      400
      (insert default_comparator 3 two_nodes key (7 ∷ []) 400)
insert-Inserts_example =
    insert-Inserts default_comparator AnyKey default-IsLawful 3 two_nodes lists key (7 ∷ []) 400
      two_nodes-IsSkipList tt (omega arith) (omega arith) (λ e. omega arith) refl (omega arith)
      (omega arith)

insert_with-Inserts_example :
    Inserts default_comparator AnyKey two_nodes lists key
      (7 ∷ [])
      400
      (insert_with default_comparator 4 two_nodes key (7 ∷ []) 400)
insert_with-Inserts_example =
    insert_with-Inserts default_comparator AnyKey default-IsLawful 4 two_nodes lists key (7 ∷ [])
      400 two_nodes-IsSkipList tt (omega arith) (omega arith) (λ e. omega arith) refl (omega arith)
      (omega arith)
