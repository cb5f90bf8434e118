-- ===== src/Memtable/Returns.antt =====
-- What a lookup in a memtable (crates/engine/src/memtable/memtable.rs) has to say of an entry.
use victory_db.Base.{◌≢◌, refl, Bytes}
use victory_db.Base.Run.{Run, ok}
use victory_db.Key.InternalKey.{OperationType, put, delete, max_op}
use victory_db.Memtable.{MemReturn, value, deleted, mem_return}

-- A put has its value to say, a deletion that the key is deleted, a merge that it is one.
pub data Says : OperationType → Bytes → Run MemReturn → Type 0 where
  of_put : (v : Bytes) → Says put v (ok (value v))
  of_delete : (v : Bytes) → Says delete v (ok deleted)
  of_merge : (v : Bytes) → Says OperationType.merge v (ok MemReturn.merge)

pub mem_return-Says : (op : OperationType) (v : Bytes) → op ≢ max_op → Says op v (mem_return op v)
unfolding mem_return
mem_return-Says put v stored = of_put v
mem_return-Says delete v stored = of_delete v
mem_return-Says OperationType.merge v stored = of_merge v
mem_return-Says max_op v stored = absurd (stored refl)
