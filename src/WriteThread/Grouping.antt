-- ===== src/WriteThread/Grouping.antt =====
-- `set_new_links`, `EnterBatchGroup` and `join` of crates/engine/src/db/write_thread.rs.
pub mod Laws
use victory_db.Base.{
  ℕ, zero, suc, ◌+◌, ◌/◌, Option, none, some, Bool, true, false, not, ◌||◌, ◌==◌, ltb, leb,
  if◌then◌else◌,
}
use victory_db.Base.Run.{Run, ok, panic, out_of_fuel, ◌>>=◌}
use victory_db.Codec.Batch.{batch_size, is_empty}
use victory_db.SkipList.Node.{Ptr, null}
use victory_db.Writer.{Writer, debug_assert, is_leader, wait}
use victory_db.WriteThread.{
  WriteGroup, group_new, Writers, WriteThread, writer_at, set_link_older, set_group_next,
  link_writer,
}

abbrev pub max_batch_size_per_group : ℕ
max_batch_size_per_group = 1048

abbrev pub min_batch_size_per_group : ℕ
min_batch_size_per_group = max_batch_size_per_group / 8

-- The limit on a follower's batch, by the size of the leader's.
unfoldable pub group_max_size : ℕ → ℕ
group_max_size size =
    if leb size max_batch_size_per_group
    then size + min_batch_size_per_group
    else max_batch_size_per_group

abbrev pub same_bool : Bool → Bool → Bool
same_bool true b = b
same_bool false b = not b

-- The end of the code that is written, where `todo!()` stands: the writers and the group so far.
pub data Unfinished : Type 0 where
  todo : Writers → WriteGroup → Unfinished

-- `cell` is the offset of the field `group_next` in a writer.
module _ (checked : Bool) (cell : ℕ) where
  -- `(*p).group_next.get()`: the address of the cell, not what it holds
  unfoldable pub group_next_cell : Ptr → Ptr
  group_next_cell p = p + cell

  -- Whether the debug assertion of the loop's end holds.
  unfoldable pub end_is_linked : Writers → Ptr → Ptr → Run Bool
  end_is_linked ws current older =
      if older == null then ok true else (writer_at ws older >>= λ o. ok (o.group_next == current))

  -- The loop of `set_new_links`.
  unfoldable pub link_loop : ℕ → Writers → Ptr → Run Writers
  link_loop zero ws current = out_of_fuel
  link_loop (suc fuel) ws current = do
    c ← writer_at ws current
    (if (c.link_older == null) || not (group_next_cell c.link_older == null)
        then (if checked
            then (end_is_linked ws current c.link_older >>= λ linked.
                debug_assert checked linked (ok ws))
            else ok ws)
        else (set_group_next ws c.link_older current >>= λ ws'. link_loop fuel ws' c.link_older))

  -- `WriteThread::set_new_links`
  unfoldable pub set_new_links : ℕ → Writers → Ptr → Run Writers
  set_new_links fuel ws newest = if newest == null then panic else link_loop fuel ws newest

  -- A follower that the leader does not take into its group.
  unfoldable pub rejects : ℕ → Writer → Writer → Bool
  rejects max_size lead w =
      is_empty w.batch || ltb max_size (batch_size w.batch) || not (same_bool w.sync lead.sync)

  -- The writers around a rejected one are linked to each other.
  unfoldable pub skip_writer : Writers → Writer → Run Writers
  skip_writer ws w = do
    ws' ← set_group_next ws w.link_older w.group_next
    (if w.group_next == null then ok ws' else set_link_older ws' w.group_next w.link_older)

  -- The body of the loop of `EnterBatchGroup`, which both of its ways leave, for the writer behind
  -- `w`.
  unfoldable pub next_in_group : Writers → ℕ → Writer → Ptr → Run Writers
  next_in_group ws max_size lead w = do
    this ← writer_at ws w
    debug_assert checked (not (this.group_next == null)) (
        writer_at ws this.group_next >>= λ next.
        if rejects max_size lead next then skip_writer ws next else ok ws)

  -- `WriteThread::EnterBatchGroup` up to its `todo!()`, so that a panic is that of an assertion.
  unfoldable pub enter_batch_group : ℕ → WriteThread → Ptr → WriteGroup → Run Unfinished
  enter_batch_group fuel t leader group = do
    lead ← writer_at t.writers leader
    let group' : WriteGroup = record group { size = 1; writers = 1; last_writer = leader }
    ws ← set_new_links fuel t.writers t.newest_writer
    ws' ←
        if leader == t.newest_writer
        then ok ws
        else next_in_group ws (group_max_size (batch_size lead.batch)) lead leader
    ok (todo ws' group')

  -- `WriteThread::join`: the leader's group, or none for a follower that has waited. `load` is what a
  -- follower's loads of its state give, and `first` the first of them.
  unfoldable pub join :
      ℕ → ℕ → (Bool → ℕ → ℕ) → ℕ → WriteThread → Ptr → Run (WriteThread × Option WriteGroup)
  join fuel fails load first t w = do
    (t', alone) ← link_writer checked fuel fails t w
    n ← writer_at t'.writers w
    (if alone
        then debug_assert checked (is_leader n) (group_new w >>= λ group. ok (t', some group))
        else (wait load checked fuel first >>= λ woken. ok (t', none)))
