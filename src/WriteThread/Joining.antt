-- ===== src/WriteThread/Joining.antt =====
-- Any number of threads in `link_writer` of crates/engine/src/db/write_thread.rs at once.
pub mod Queue
pub mod Steps
pub mod Leader
use victory_db.Base.{ℕ, ◌+◌, ◌≡◌, ◌≢◌, Option, none, some, Bool, ◌==◌, if◌then◌else◌}
use victory_db.Base.Run.{Run, ok}
use victory_db.SkipList.Node.{Ptr, null}
use victory_db.WriteThread.{Writers, WriteThread, new, Pc, entering, link_step}

abbrev pub update_pc : (Ptr → Pc) → Ptr → Pc → Ptr → Pc
update_pc pcs w pc q = if q == w then pc else pcs q

-- The write thread, and where the thread of each writer is.
pub record System : Type 0 where
  pub thread : WriteThread
  pub pcs : Ptr → Pc

-- The thread of some writer makes its next access; which one, and whether an exchange fails
-- spuriously, is open.
pub data Step (s : System) : System → Type 0 where
  access :
      (w : Ptr) (spurious : Bool) (t : WriteThread) (pc : Pc)
      → w ≢ null
      → link_step s.thread w (s.pcs w) spurious ≡ ok (t, pc)
      → Step s (record { thread = t; pcs = update_pc s.pcs w pc })

-- No writer has joined a new write thread yet.
abbrev pub start : Writers → System
start writers = record { thread = new writers; pcs = λ w. entering }

pub data Reach (writers : Writers) : System → Type 0 where
  started : Reach writers (start writers)
  later : {s t : System} → Reach writers s → Step s t → Reach writers t
