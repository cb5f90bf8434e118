-- ===== src/WriteThread/Joining/Steps.antt =====
-- Every access of `link_writer` (crates/engine/src/db/write_thread.rs) keeps the queue.
use victory_db.Base.{
  ◌≡◌, ◌≢◌, refl, sym, ap, subst, ◌∙◌, inl, inr, Option-cases, some, Bool, not, ◌&&◌, List, [], ◌∷◌,
  arith, ◌==◌, Bool-cases,
}
use victory_db.Base.Run.{Run, ok, fault, panic, out_of_fuel}
use native.Mathlib.Decide.{ℕ_discrete}
use victory_db.SkipList.Node.{Ptr, null}
use victory_db.SkipList.Chain.{Has}
use victory_db.Writer.{Writer}
use victory_db.WriteThread.{
  Writers, WriteThread, writer_at, put_writer, set_link_older, Pc, entering, loaded, linked_to,
  joined, link_step,
}
use victory_db.WriteThread.Joining.{System, update_pc, access, Reach, started, later}
use victory_db.WriteThread.Joining.Queue.{
  OlderChain, IsQueue, Roles-Has, pc_here, pc_other, Roles-update, OlderChain-put, put_here,
  put_other, first-is_nil, linked_to_inj, Roles-agree, start-IsQueue,
}

-- What one access does.
data Moved (t : WriteThread) (w : Ptr) : Pc → WriteThread → Pc → Type 0 where
  loads : Moved t w entering t (loaded t.newest_writer)
  stores :
      (current : Ptr) (n : Writer)
      → t.writers w ≡ some n
      → Moved t w
          (loaded current)
          (record t { writers = put_writer t.writers w (record n { link_older = current }) })
          (linked_to current)
  succeeds :
      (current : Ptr)
      → t.newest_writer ≡ current
      → Moved t w (linked_to current) (record t { newest_writer = w }) (joined (current == null))
  fails : (current : Ptr) → Moved t w (linked_to current) t (loaded t.newest_writer)
  rests : (first : Bool) → Moved t w (joined first) t (joined first)

result : (x : WriteThread × Pc) → Run (WriteThread × Pc) → WriteThread × Pc
result x (ok y) = y
result x panic = x
result x fault = x
result x out_of_fuel = x

-- An access that is known, and the one that the run was.
known :
    (t : WriteThread) (w : Ptr) (pc : Pc) (x y : WriteThread × Pc)
    → ◌≡◌ {A = Run (WriteThread × Pc)} (ok x) (ok y)
    → Moved t w pc x.0 x.1
    → Moved t w pc y.0 y.1
unfolding result
known t w pc x y e m = subst (λ (z : WriteThread × Pc). Moved t w pc z.0 z.1) (ap (result x) e) m

link_step-Moved :
    (t : WriteThread) (w : Ptr) (pc : Pc) (spurious : Bool) (t' : WriteThread) (pc' : Pc)
    → w ≢ null
    → link_step t w pc spurious ≡ ok (t', pc')
    → Moved t w pc t' pc'
unfolding link_step set_link_older writer_at
link_step-Moved t w entering spurious t' pc' ne e =
    known t w entering (t, loaded t.newest_writer) (t', pc') e loads
link_step-Moved t w (loaded current) spurious t' pc' ne e = elim (Option-cases (t.writers w)) [
  | inl gone ↦ absurd (ground (arith, e, gone, ne))
  | inr (n, there) ↦
      known t w (loaded current)
        (
          record t { writers = put_writer t.writers w (record n { link_older = current }) },
          linked_to current,
        )
        (t', pc') (ground (arith, e, there, ne)) (stores current n there)
]
link_step-Moved t w (linked_to current) spurious t' pc' ne e =
    elim (Bool-cases (not spurious && (t.newest_writer == current))) [
      | inl hit ↦
          known t w (linked_to current) (record t { newest_writer = w }, joined (current == null))
            (t', pc') (ground (arith, e, hit)) (succeeds current (ground (arith, hit)))
      | inr miss ↦
          known t w (linked_to current) (t, loaded t.newest_writer) (t', pc')
            (ground (arith, e, miss)) (fails current)
    ]
link_step-Moved t w (joined first) spurious t' pc' ne e =
    known t w (joined first) (t, joined first) (t', pc') e (rests first)

-- The step of one writer in a queue that is as it should be.
module _ (s : System) (queue : List Ptr) (is : IsQueue s queue) (w : Ptr) where
  abbrev after : WriteThread → Pc → System
  after t pc = record { thread = t; pcs = update_pc s.pcs w pc }

  -- A writer that has not joined is not in the queue.
  out : ((first : Bool) → s.pcs w ≢ joined first) → Has w queue → ⊥
  out not_joined there =
      let (first, e) = Roles-Has s.pcs queue w is.roles there in not_joined first e

  -- The fields about single writers, by what the step says of `w`.
  all_after :
      (pc : Pc) (more : List Ptr)
      → ((first : Bool) → pc ≡ joined first → Has w more)
      → ((q : Ptr) → Has q queue → Has q more)
      → (q : Ptr) (first : Bool) → update_pc s.pcs w pc q ≡ joined first
      → Has q more
  all_after pc more own keep q first e = elim (ℕ_discrete q w) [
    | yes same ↦
        subst (λ (x : Ptr). Has x more) (sym same)
          (own first (sym (pc_here s.pcs w pc) ∙ ap (update_pc s.pcs w pc) (sym same) ∙ e))
    | no differ ↦ keep q (is.all q first (sym (pc_other s.pcs w pc q differ) ∙ e))
  ]

  abbrev LinksTo : Writers → Ptr → Ptr → Type 0
  LinksTo ws q current = (n : Writer) × (ws q ≡ some n) × (n.link_older ≡ current)

  linked_after :
      (ws : Writers) (pc : Pc)
      → ((current : Ptr) → pc ≡ linked_to current → LinksTo ws w current)
      → ((q : Ptr) → q ≢ w → ws q ≡ s.thread.writers q)
      → (q current : Ptr) → update_pc s.pcs w pc q ≡ linked_to current
      → LinksTo ws q current
  linked_after ws pc own keep q current e = elim (ℕ_discrete q w) [
    | yes same ↦
        subst (λ (x : Ptr). LinksTo ws x current) (sym same)
          (own current (sym (pc_here s.pcs w pc) ∙ ap (update_pc s.pcs w pc) (sym same) ∙ e))
    | no differ ↦
        let (n, there, link) = is.linked q current (sym (pc_other s.pcs w pc q differ) ∙ e) in
        (n, keep q differ ∙ there, link)
  ]

  abbrev Kept : WriteThread → Pc → Type 0
  Kept t pc = (queue' : List Ptr) × IsQueue (after t pc) queue'

  -- A load, the first one or by an exchange that failed.
  loaded-Kept :
      (current : Ptr) → ((first : Bool) → s.pcs w ≢ joined first) → Kept s.thread (loaded current)
  loaded-Kept current not_joined = (
    queue,
    record {
      chain = is.chain;
      roles = Roles-update s.pcs w (loaded current) queue (out not_joined) is.roles;
      all = all_after (loaded current) queue (λ first e. absurd (cc)) (λ q there. there);
      linked = linked_after s.thread.writers (loaded current) (λ c e. absurd (cc)) (λ q d. refl);
    },
  )

  stores-Kept :
      (current : Ptr) (n : Writer)
      → s.pcs w ≡ loaded current
      → s.thread.writers w ≡ some n
      → Kept
          (record s.thread {
            writers = put_writer s.thread.writers w (record n { link_older = current });
          })
          (linked_to current)
  stores-Kept current n at there =
      let ws = s.thread.writers in
      let n' : Writer = record n { link_older = current } in
      let away : Has w queue → ⊥ = out (λ first e. cc) in
      (
        queue,
        record {
          chain = OlderChain-put ws s.thread.newest_writer w n' queue away is.chain;
          roles = Roles-update s.pcs w (linked_to current) queue away is.roles;
          all = all_after (linked_to current) queue (λ first e. absurd (cc)) (λ q has. has);
          linked =
              linked_after (put_writer ws w n') (linked_to current)
                (λ c e. (n', put_here ws w n', linked_to_inj current c e)) (put_other ws w n');
        },
      )

  succeeds-Kept :
      (current : Ptr)
      → w ≢ null
      → s.pcs w ≡ linked_to current
      → s.thread.newest_writer ≡ current
      → Kept (record s.thread { newest_writer = w }) (joined (current == null))
  succeeds-Kept current ne at hit =
      let (n, there, link) = is.linked w current at in
      let chain : OlderChain s.thread.writers n.link_older queue =
        subst (λ (p : Ptr). OlderChain s.thread.writers p queue) (hit ∙ sym link) is.chain in
      let pc = joined (current == null) in
      (
        w ∷ queue,
        record {
          chain = (refl, ne, (n, there, chain));
          roles = (
            pc_here s.pcs w pc
                ∙ ap joined (
                    first-is_nil s.thread.writers current queue
                      (subst (λ (p : Ptr). OlderChain s.thread.writers p queue) hit is.chain)),
            Roles-update s.pcs w pc queue (out (λ first e. cc)) is.roles,
          );
          all = all_after pc (w ∷ queue) (λ first e. inl refl) (λ q has. inr has);
          linked = linked_after s.thread.writers pc (λ c e. absurd (cc)) (λ q d. refl);
        },
      )

  rests-Kept : (first : Bool) → s.pcs w ≡ joined first → Kept s.thread (joined first)
  rests-Kept first at = (
    queue,
    record {
      chain = is.chain;
      roles = Roles-agree s.pcs w (joined first) queue at is.roles;
      all = all_after (joined first) queue (λ f e. is.all w first at) (λ q has. has);
      linked = linked_after s.thread.writers (joined first) (λ c e. absurd (cc)) (λ q d. refl);
    },
  )

  Moved-Kept :
      (pc : Pc) (t : WriteThread) (pc' : Pc)
      → w ≢ null
      → s.pcs w ≡ pc
      → Moved s.thread w pc t pc'
      → Kept t pc'
  Moved-Kept pc t pc' ne at loads = loaded-Kept s.thread.newest_writer (λ first e. cc)
  Moved-Kept pc t pc' ne at (stores current n there) = stores-Kept current n at there
  Moved-Kept pc t pc' ne at (succeeds current hit) = succeeds-Kept current ne at hit
  Moved-Kept pc t pc' ne at (fails current) = loaded-Kept s.thread.newest_writer (λ first e. cc)
  Moved-Kept pc t pc' ne at (rests first) = rests-Kept first at

-- However the threads interleave, the links from the newest writer lead through all writers that have
-- joined, the latest first, and the one that joined first is the one that `link_writer` told so.
pub Reach-IsQueue :
    (writers : Writers) (s : System) → Reach writers s → (queue : List Ptr) × IsQueue s queue
Reach-IsQueue writers s started = ([], start-IsQueue writers)
Reach-IsQueue writers s (later {s = b} r (access w spurious t pc ne e)) =
    let (queue, is) = Reach-IsQueue writers b r in
    Moved-Kept b queue is w (b.pcs w) t pc ne refl
      (link_step-Moved b.thread w (b.pcs w) spurious t pc ne e)
