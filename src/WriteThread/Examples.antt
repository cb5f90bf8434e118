-- ===== src/WriteThread/Examples.antt =====
-- The write thread of crates/engine/src/db/write_thread.rs at work.
use victory_db.Base.{
  ◌≡◌, ◌≢◌, refl, inr, none, some, true, false, List, arith, replicate, ◌==◌, if◌then◌else◌,
}
use victory_db.Base.Run.{fault, panic}
use victory_db.Codec.Batch.{Batch}
use victory_db.SkipList.Node.{Ptr, null}
use victory_db.Writer.{Writer}
use victory_db.Writer as W
use victory_db.WriteThread.{
  WriteGroup, Writers, WriteThread, Pc, joined, link_step, set_link_older, writer_at, link_writer,
}
use victory_db.WriteThread as Q
use victory_db.WriteThread.Joining.{System, Reach, started, later, access}
use victory_db.WriteThread.Joining.Queue.{IsQueue}
use victory_db.WriteThread.Joining.Steps.{Reach-IsQueue}
use victory_db.WriteThread.Joining.Leader.{Alone, link_writer-Alone, one-leader}
use victory_db.WriteThread.Grouping.{enter_batch_group}
use victory_db.WriteThread.Grouping.Laws.{enter_batch_group-two}

abbrev batch : Batch
batch = record { data_bytes = replicate 12 0; max_bytes = 1000 }

abbrev fresh : Writer
fresh = record { batch = batch; state = 1; link_older = null; group_next = null; sync = true }

abbrev writers : Writers
writers p = if p == 100 then some fresh else (if p == 200 then some fresh else none)

live_100 : 100 ≢ null
live_100 e = omega arith

live_200 : 200 ≢ null
live_200 e = omega arith

-- Both threads find the queue empty, and 200 has to try again.
both_joined :
    (s : System) × Reach writers s × (s.pcs 100 ≡ joined true) × (s.pcs 200 ≡ joined false)
unfolding link_step set_link_older writer_at Q.new
both_joined =
    let r1 = later started (access 100 false _ _ live_100 refl) in
    let r2 = later r1 (access 200 false _ _ live_200 refl) in
    let r3 = later r2 (access 100 false _ _ live_100 refl) in
    let r4 = later r3 (access 200 false _ _ live_200 refl) in
    let r5 = later r4 (access 100 false _ _ live_100 refl) in
    let r6 = later r5 (access 200 false _ _ live_200 refl) in
    let r7 = later r6 (access 200 false _ _ live_200 refl) in
    let r8 = later r7 (access 200 false _ _ live_200 refl) in (_, r8, refl, refl)

Reach-IsQueue_example : (queue : List Ptr) × IsQueue both_joined.0 queue
Reach-IsQueue_example = Reach-IsQueue writers both_joined.0 both_joined.1

one-leader_example : ◌≡◌ {A = Ptr} 100 100
one-leader_example =
    one-leader writers both_joined.0 100 100 both_joined.1 both_joined.2 both_joined.2

-- 200 joins behind 100, after one spurious failure, in a build with debug assertions.
link_writer-Alone_example :
    Alone 100 200 live_200 writers fresh
      (link_writer true 6 1 (record { newest_writer = 100; writers = writers }) 200)
link_writer-Alone_example =
    link_writer-Alone 100 200 live_200 true 1 6 writers fresh refl (inr refl) (omega arith)

-- The writer 200 has joined behind 100.
abbrev follower : Writer
follower = record { batch = batch; state = 1; link_older = 100; group_next = null; sync = true }

abbrev two_writers : Writers
two_writers p = if p == 100 then some fresh else (if p == 200 then some follower else none)

abbrev two_joined : WriteThread
two_joined = record { newest_writer = 200; writers = two_writers }

abbrev group : WriteGroup
group = record { leader = 100; last_writer = null; assigned_seq_no = 0; size = 0; writers = 0 }

enter_batch_group-two_example :
    (enter_batch_group false 24 1 two_joined 100 group ≡ fault)
    × (enter_batch_group true 24 1 two_joined 100 group ≡ panic)
enter_batch_group-two_example =
    enter_batch_group-two 24 0 two_joined 100 fresh follower fresh group live_100 live_200 refl refl
      live_100 refl (λ e. omega arith) refl refl

abbrev one_writer : Writers
one_writer p = if p == 100 then some (W.new batch) else none
