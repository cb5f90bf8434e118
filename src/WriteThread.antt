-- ===== src/WriteThread.antt =====
-- crates/engine/src/db/write_thread.rs: the queue of writers and the group that its leader forms.
-- A writer is a node on the stack of its thread; an address stands for it. The argument `checked`
-- tells whether the build has debug assertions.
pub mod Joining
pub mod Grouping
mod Examples
use victory_db.Base.{
  ℕ, zero, suc, ◌+◌, ◌/◌, Option, none, some, Bool, true, false, not, ◌||◌, ◌&&◌, ◌==◌, ltb, leb,
  if◌then◌else◌,
}
use victory_db.Base.Run.{Run, ok, panic, fault, out_of_fuel, ◌>>=◌}
use victory_db.Codec.Batch.{batch_size, is_empty}
use victory_db.SkipList.Node.{Ptr, null}
use victory_db.Writer.{Writer, init, has_bits, debug_assert, is_leader, wait}

pub record WriteGroup : Type 0 where
  pub leader : Ptr
  pub last_writer : Ptr
  pub assigned_seq_no : ℕ
  pub size : ℕ
  pub writers : ℕ

-- `WriteGroup::new`
unfoldable pub group_new : Ptr → Run WriteGroup
group_new leader =
    if leader == null
    then panic
    else ok
        (record { leader = leader; last_writer = null; assigned_seq_no = 0; size = 0; writers = 0 })

abbrev pub Writers : Type 0
Writers = Ptr → Option Writer

-- The queue's newest writer, and the writers that threads have.
pub record WriteThread : Type 0 where
  pub newest_writer : Ptr
  pub writers : Writers

-- `WriteThread::new`
unfoldable pub new : Writers → WriteThread
new writers = record { newest_writer = null; writers = writers }

-- `*w`
unfoldable pub writer_at : Writers → Ptr → Run Writer
writer_at ws p = if p == null then fault else elim (ws p) [ none ↦ fault | some w ↦ ok w ]

abbrev pub put_writer : Writers → Ptr → Writer → Writers
put_writer ws p w q = if q == p then some w else ws q

-- `*(*p).link_older.get() = older`
unfoldable pub set_link_older : Writers → Ptr → Ptr → Run Writers
set_link_older ws p older = do
  w ← writer_at ws p
  ok (put_writer ws p (record w { link_older = older }))

-- `*(*p).group_next.get() = next`
unfoldable pub set_group_next : Writers → Ptr → Ptr → Run Writers
set_group_next ws p next = do
  w ← writer_at ws p
  ok (put_writer ws p (record w { group_next = next }))

-- Where a thread is in `link_writer`: before its first load, with a newest writer loaded, with the
-- link to it stored, or done, with whether the queue was empty.
pub data Pc : Type 0 where
  entering : Pc
  loaded linked_to : Ptr → Pc
  joined : Bool → Pc

-- One access to shared memory by `link_writer` for the writer `w`. A weak exchange may fail although
-- the newest writer is the one expected.
unfoldable pub link_step : WriteThread → Ptr → Pc → Bool → Run (WriteThread × Pc)
link_step t w entering spurious = ok (t, loaded t.newest_writer)
link_step t w (loaded current) spurious = do
  ws ← set_link_older t.writers w current
  ok (record t { writers = ws }, linked_to current)
link_step t w (linked_to current) spurious =
    if not spurious && (t.newest_writer == current)
    then ok (record t { newest_writer = w }, joined (current == null))
    else ok (t, loaded t.newest_writer)
link_step t w (joined first) spurious = ok (t, joined first)

-- The steps of `link_writer` by a thread that no other one interferes with; the first `fails`
-- exchanges fail.
unfoldable pub link_alone : ℕ → ℕ → WriteThread → Ptr → Pc → Run (WriteThread × Bool)
link_alone zero fails t w pc = out_of_fuel
link_alone (suc fuel) fails t w (joined first) = ok (t, first)
link_alone (suc fuel) zero t w pc =
    link_step t w pc false >>= λ (t', pc'). link_alone fuel zero t' w pc'
link_alone (suc fuel) (suc fails) t w (linked_to current) =
    link_step t w (linked_to current) true >>= λ (t', pc'). link_alone fuel fails t' w pc'
link_alone (suc fuel) (suc fails) t w pc =
    link_step t w pc false >>= λ (t', pc'). link_alone fuel (suc fails) t' w pc'

-- `WriteThread::link_writer`
unfoldable pub link_writer : Bool → ℕ → ℕ → WriteThread → Ptr → Run (WriteThread × Bool)
link_writer checked fuel fails t w = do
  n ← writer_at t.writers w
  debug_assert checked (has_bits n.state init) (link_alone fuel fails t w entering)
