-- ===== src/WriteThread/Grouping/Laws.antt =====
-- What forming a group (crates/engine/src/db/write_thread.rs) comes to.
use victory_db.Base.{
  ℕ, suc, ◌≡◌, ◌≢◌, refl, sym, ◌∙◌, some, Bool, true, false, not, ◌||◌, arith, ◌==◌,
}
use victory_db.Base.Run.{ok, fault, panic}
use victory_db.Codec.Batch.{Batch, batch_size}
use victory_db.SkipList.Node.{Ptr, null}
use victory_db.Writer.{Writer, init, leader, has_bits, debug_assert, is_leader}
use victory_db.Writer as W
use victory_db.WriteThread as Q
use victory_db.WriteThread.{WriteGroup, Writers, WriteThread, writer_at, set_group_next}
use victory_db.WriteThread.Joining.Queue.{writer_at-some}
use victory_db.WriteThread.Grouping.{
  group_max_size, group_next_cell, end_is_linked, link_loop, set_new_links, next_in_group,
  enter_batch_group,
}

module _ (cell fuel : ℕ) (ws : Writers) (newest : Ptr) (n : Writer) (ne : newest ≢ null)
    (there : ws newest ≡ some n) where
  -- The test for a link that is set reads the address of the cell, so the loop ends where it starts.
  end_test :
      (checked : Bool)
      → ((n.link_older == null) || not (group_next_cell checked cell n.link_older == null)) ≡ true
  unfolding group_next_cell
  end_test checked = ground arith

  -- In a build without debug assertions `set_new_links` returns, for a newest writer that is not null
  -- and there and for any fuel but none, with no link set, whatever the queue is.
  pub set_new_links-none : set_new_links false cell (suc fuel) ws newest ≡ ok ws
  unfolding set_new_links link_loop
  set_new_links-none =
      let alive : (newest == null) ≡ false = ground (arith, ne) in
      rw (alive, writer_at-some ws newest n ne there, end_test false) refl

  set_new_links-checked :
      (o : Writer)
      → n.link_older ≢ null
      → ws n.link_older ≡ some o
      → o.group_next ≢ newest
      → set_new_links true cell (suc fuel) ws newest ≡ panic
  unfolding set_new_links link_loop end_is_linked
  set_new_links-checked o older_ne older_there unlinked =
      let alive : (newest == null) ≡ false = ground (arith, ne) in
      let older : (n.link_older == null) ≡ false = ground (arith, older_ne) in
      let differ : (o.group_next == newest) ≡ false = ground (arith, unlinked) in
      rw
        (
          alive,
          writer_at-some ws newest n ne there,
          end_test true,
          older,
          writer_at-some ws n.link_older o older_ne older_there,
          differ,
        )
        refl

-- A leader that a second writer has joined.
module _ (cell fuel : ℕ) (t : WriteThread) (leader : Ptr) (lead n o : Writer) (group : WriteGroup)
    (leader_ne : leader ≢ null) (newest_ne : t.newest_writer ≢ null)
    (leader_there : t.writers leader ≡ some lead)
    (newest_there : t.writers t.newest_writer ≡ some n) (older_ne : n.link_older ≢ null)
    (older_there : t.writers n.link_older ≡ some o) (differ : leader ≢ t.newest_writer)
    (unlinked : lead.group_next ≡ null) (older_unlinked : o.group_next ≡ null) where
  next-fault : (max_size : ℕ) → next_in_group false cell t.writers max_size lead leader ≡ fault
  unfolding next_in_group writer_at
  next-fault max_size = ground (arith, leader_ne, leader_there, unlinked)

  -- For a leader that is not the newest writer, where both and the writer behind the newest are
  -- there and the group links of the leader and of that writer are null, as `set_new_links` finds
  -- them, `EnterBatchGroup` dereferences null in a build without debug assertions, and fails an
  -- assertion in a build with them, for any fuel but none; neither comes to the `todo!()`.
  pub enter_batch_group-two :
      (enter_batch_group false cell (suc fuel) t leader group ≡ fault)
      × (enter_batch_group true cell (suc fuel) t leader group ≡ panic)
  unfolding enter_batch_group
  enter_batch_group-two =
      let apart : (leader == t.newest_writer) ≡ false = ground (arith, differ) in
      let read = writer_at-some t.writers leader lead leader_ne leader_there in
      (
        rw
            (
              read,
              set_new_links-none cell fuel t.writers t.newest_writer n newest_ne newest_there,
              apart,
              next-fault (group_max_size (batch_size lead.batch)),
            )
            refl,
        rw
            (
              read,
              set_new_links-checked cell fuel t.writers t.newest_writer n newest_ne newest_there o
                  older_ne older_there (λ e. newest_ne (sym e ∙ older_unlinked)),
            )
            refl,
      )
