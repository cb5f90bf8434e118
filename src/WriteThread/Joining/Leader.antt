-- ===== src/WriteThread/Joining/Leader.antt =====
-- The leader of the queue, and a thread that joins alone (crates/engine/src/db/write_thread.rs).
use victory_db.Base.{
  ℕ, zero, suc, ◌+◌, ◌*◌, ◌≤◌, ◌≡◌, ◌≢◌, refl, sym, ap, ◌∙◌, ◌⊎◌, inl, inr, some, Bool, true, false,
  List, [], ◌∷◌, arith, ◌==◌,
}
use victory_db.Base.Run.{Run, ok}
use victory_db.SkipList.Node.{Ptr, null}
use victory_db.SkipList.Chain.{Has, last}
use victory_db.Writer.{Writer, init, has_bits, debug_assert}
use victory_db.WriteThread.{
  Writers, WriteThread, writer_at, put_writer, set_link_older, Pc, entering, loaded, linked_to,
  joined, link_step, link_alone, link_writer,
}
use victory_db.WriteThread.Joining.{System, Reach}
use victory_db.WriteThread.Joining.Queue.{Roles, put_here, put_other, writer_at-some}
use victory_db.WriteThread.Joining.Steps.{Reach-IsQueue}

joined_inj : (a b : Bool) → joined a ≡ joined b → a ≡ b
joined_inj a b e = cc

-- The oldest writer of a queue.
abbrev oldest : List Ptr → Ptr
oldest [] = null
oldest (x ∷ xs) = last x xs

first-oldest :
    (pcs : Ptr → Pc) (queue : List Ptr) (w : Ptr)
    → Roles pcs queue
    → Has w queue
    → pcs w ≡ joined true
    → w ≡ oldest queue
first-oldest pcs [] w r there at = absurd there
first-oldest pcs (x ∷ []) w r (inl e) at = e
first-oldest pcs (x ∷ []) w r (inr there) at = absurd there
first-oldest pcs (x ∷ y ∷ ys) w r (inl e) at =
    let no : false ≡ true = joined_inj false true (sym r.0 ∙ ap pcs (sym e) ∙ at) in absurd (cc)
first-oldest pcs (x ∷ y ∷ ys) w r (inr there) at = first-oldest pcs (y ∷ ys) w r.1 there at

-- However threads interleave in `link_writer`, it tells at most one writer that it is the leader.
pub one-leader :
    (writers : Writers) (s : System) (v w : Ptr)
    → Reach writers s
    → s.pcs v ≡ joined true
    → s.pcs w ≡ joined true
    → v ≡ w
one-leader writers s v w r ev ew =
    let (queue, is) = Reach-IsQueue writers s r in
    first-oldest s.pcs queue v is.roles (is.all v true ev) ev
    ∙ sym (first-oldest s.pcs queue w is.roles (is.all w true ew) ew)

module _ (newest w : Ptr) (ne : w ≢ null) where
  abbrev at_newest : Writers → WriteThread
  at_newest ws = record { newest_writer = newest; writers = ws }

  store_step :
      (ws : Writers) (m : Writer) (spurious : Bool)
      → ws w ≡ some m
      → link_step (at_newest ws) w (loaded newest) spurious
        ≡ ok (at_newest (put_writer ws w (record m { link_older = newest })), linked_to newest)
  unfolding link_step set_link_older writer_at
  store_step ws m spurious there = ground (arith, there, ne)

  exchange_step :
      (ws : Writers)
      → link_step (at_newest ws) w (linked_to newest) false
        ≡ ok (record { newest_writer = w; writers = ws }, joined (newest == null))
  unfolding link_step
  exchange_step ws = ground arith

  -- The thread's writer links to the newest one and is the newest one now; nothing else changed.
  abbrev pub Alone : Writers → Writer → Run (WriteThread × Bool) → Type 0
  Alone ws m r =
      (ws' : Writers) × (r ≡ ok (record { newest_writer = w; writers = ws' }, newest == null))
      × (ws' w ≡ some (record m { link_older = newest }))
      × ((q : Ptr) → q ≢ w → ws' q ≡ ws q)

  retry :
      (ws : Writers) (fuel fails : ℕ)
      → link_alone (suc (suc fuel)) (suc fails) (at_newest ws) w (linked_to newest)
        ≡ link_alone (suc fuel) fails (at_newest ws) w (loaded newest)
  unfolding link_alone link_step
  retry ws fuel fails = refl

  enter :
      (fails fuel : ℕ) (ws : Writers)
      → link_alone (suc fuel) fails (at_newest ws) w entering
        ≡ link_alone fuel fails (at_newest ws) w (loaded newest)
  unfolding link_alone link_step
  enter zero fuel ws = refl
  enter (suc fails) fuel ws = refl

  assert_ok :
      (checked b : Bool) (r : Run (WriteThread × Bool))
      → (checked ≡ false) ⊎ (b ≡ true)
      → debug_assert checked b r ≡ r
  assert_ok false b r o = refl
  assert_ok true b r (inl e) = absurd (cc)
  assert_ok true b r (inr e) = rw e refl

  link_alone-Alone :
      (fails fuel : ℕ) (ws : Writers) (m : Writer)
      → ws w ≡ some m
      → 3 + 2 * fails ≤ fuel
      → Alone ws m (link_alone fuel fails (at_newest ws) w (loaded newest))
  unfolding link_alone
  link_alone-Alone fails zero ws m there enough = absurd (omega arith)
  link_alone-Alone fails (suc zero) ws m there enough = absurd (omega arith)
  link_alone-Alone fails (suc (suc zero)) ws m there enough = absurd (omega arith)
  link_alone-Alone zero (suc (suc (suc fuel))) ws m there enough = (
    put_writer ws w (record m { link_older = newest }),
    rw
        (
          store_step ws m false there,
          exchange_step (put_writer ws w (record m { link_older = newest })),
        )
        refl,
    put_here ws w (record m { link_older = newest }),
    put_other ws w (record m { link_older = newest }),
  )
  link_alone-Alone (suc fails) (suc (suc (suc fuel))) ws m there enough =
      let m' : Writer = record m { link_older = newest } in
      let (ws', run, new, same) =
        link_alone-Alone fails (suc fuel) (put_writer ws w m') m' (put_here ws w m')
          (omega arith) in
      (
        ws',
        rw (store_step ws m false there) (retry (put_writer ws w m') fuel fails ∙ run),
        new,
        λ q d. same q d ∙ put_other ws w m' q d,
      )

  -- A thread that no other one interferes with joins, with more fuel than twice its spurious failures
  -- and three, if its writer is not null, was made and, in a build with debug assertions, has `INIT`
  -- set: its writer is the newest and links to the one that was, it is the leader if there was none,
  -- and all else is as it was.
  pub link_writer-Alone :
      (checked : Bool) (fails fuel : ℕ) (ws : Writers) (m : Writer)
      → ws w ≡ some m
      → (checked ≡ false) ⊎ (has_bits m.state init ≡ true)
      → 4 + 2 * fails ≤ fuel
      → Alone ws m (link_writer checked fuel fails (at_newest ws) w)
  unfolding link_writer
  link_writer-Alone checked fails zero ws m there asserted enough = absurd (omega arith)
  link_writer-Alone checked fails (suc fuel) ws m there asserted enough =
      let (ws', run, new, same) = link_alone-Alone fails fuel ws m there (omega arith) in
      (
        ws',
        rw (writer_at-some ws w m ne there) (
            assert_ok checked (has_bits m.state init)
              (link_alone (suc fuel) fails (at_newest ws) w entering) asserted
            ∙ enter fails fuel ws
            ∙ run),
        new,
        same,
      )
