-- ===== src/Memtable/History.antt =====
-- A memtable of crates/engine/src/memtable/memtable.rs from its creation over any number of
-- `insert_direct` to a `get`.
use victory_db.Base.{
  ◌++◌, ◌≢◌, ℕ, ◌+◌, ◌^◌, ◌≤◌, ◌<◌, ◌≡◌, refl, sym, ap, subst, ◌∙◌, ◌⊎◌, inl, inr, none, List, [],
  ◌∷◌, Bytes, All, length, arith,
}
use victory_db.Base.Run.{Run, ok, panic, ◌>>=◌}
use victory_db.Arena.{ArenaPolicy, system}
use victory_db.Key.Comparator.{internal_comparator}
use victory_db.Key.Comparator.Laws.{HasTrailer, internal-IsLawful}
use victory_db.Key.InternalKey.{max_op, internal_key}
use victory_db.SkipList.Node.{Ptr}
use victory_db.SkipList.Search as Sl
use victory_db.SkipList.Iteration.{new-IsSkipList}
use victory_db.SkipList.Insert.Stored.{KeepsFree}
use victory_db.Memtable.{MemtableInner, memtable_new, get}
use victory_db.Memtable.Get.{get-Answer}
use victory_db.Memtable.Creation.{head_layout, empty_memtable, memtable_new-Granted}
use victory_db.Memtable.Writes.{Write, IsWrite, Answered}
use victory_db.Memtable.Seen.{Answer-Answered}
use victory_db.Memtable.Regions.{
  IsAddressing, IsLaidOut, no_nodes-IsLaidOut, grant-IsUntouched, grant-IsLaidOut,
}
use victory_db.SkipList.Insert.Stored.{extent}
use victory_db.Memtable.Insertion.{
  Holds, Holds-IsMemtable, NoRoom, insert_write, insert_direct-InsertCases,
}

module _ (address : ℕ → ℕ → Ptr) (fuel : ℕ) (fails : ℕ → ℕ) where
  -- Writes one after the other, the newest first; `fails i` exchanges fail spuriously in write `i`.
  unfoldable pub write_all : MemtableInner → List Write → Run MemtableInner
  write_all m [] = ok m
  write_all m (w ∷ ws) = do m' ← write_all m ws; insert_write address fuel (fails (length ws)) m' w

  -- The arena has no room for the node of one of the writes, behind those before it.
  abbrev pub RanOut : ArenaPolicy → MemtableInner → List Write → Type 0
  RanOut p m ws =
      (newer : List Write) × (w : Write) × (older : List Write) × (m' : MemtableInner) × (ws
        ≡ newer ++ (w ∷ older))
      × (write_all m older ≡ ok m')
      × (m'.arena.policy ≡ p)
      × NoRoom m' w

  module _ (p : ArenaPolicy) (addressing : IsAddressing p.block_size address)
      (wrap : p.block_size + 8 ≤ 2 ^ 64) (plenty : (i : ℕ) → fails i + p.cap < fuel) where
    abbrev pub HistoryCases : MemtableInner → List Write → Run MemtableInner → Type 0
    HistoryCases m0 ws r =
        ((r ≡ panic) × RanOut p m0 ws)
        ⊎ ((m : MemtableInner) × (lists : ℕ → List Ptr) × (r ≡ ok m)
            × Holds address m lists ws
            × (m.arena.policy ≡ p))

    write_all-HistoryCases :
        (m : MemtableInner) (ws : List Write)
        → Holds address m (λ level. []) []
        → m.arena.policy ≡ p
        → All IsWrite ws
        → length ws < fuel
        → length ws < 2 ^ 64
        → HistoryCases m ws (write_all m ws)
    unfolding write_all
    write_all-HistoryCases m [] holds policy is enough few =
        inr (m, λ level. [], refl, holds, policy)
    write_all-HistoryCases m (w ∷ ws) holds policy is enough few =
        elim (write_all-HistoryCases m ws holds policy is.1 (omega arith) (omega arith)) [
          | inl (full, (newer, v, older, m', parts, ran, same, room)) ↦
              inl
                (rw full refl, (w ∷ newer, v, older, m', ap (λ vs. w ∷ vs) parts, ran, same, room))
          | inr (m', lists', eq, holds', same) ↦
              let block = ap (λ (q : ArenaPolicy). q.block_size) same in
              let cap = ap (λ (q : ArenaPolicy). q.cap) same in
              let room = plenty (length ws) in
              let addressing' : IsAddressing m'.arena.policy.block_size address =
                subst (λ (q : ArenaPolicy). IsAddressing q.block_size address) (sym same)
                  addressing in
              elim (insert_direct-InsertCases address fuel (fails (length ws)) m' lists' ws w
                addressing' holds' is.0 (omega arith) (omega arith) (omega arith) (omega arith)) [
                  | inl (full, room) ↦
                      inl (rw (eq, full) refl, ([], w, ws, m', refl, eq, same, room))
                  | inr (m2, lists2, eq2, holds2, same2) ↦
                      inr (m2, lists2, rw (eq, eq2) refl, holds2, same2 ∙ same)
                ]
        ]

-- The new list has a node at its head only.
pub new-KeepsFree : (head : Ptr) → KeepsFree head (λ p. none) (Sl.new head).heap
unfolding Sl.new
new-KeepsFree head p differ e = ground (arith, differ)

-- The head has its header and eight slots.
new-extent : (head : Ptr) → extent ((Sl.new head).heap head) ≡ 72
unfolding Sl.new
new-extent head = ground arith

new-extent_other : (head : Ptr) (p : Ptr) → p ≢ head → extent ((Sl.new head).heap p) ≡ extent none
unfolding Sl.new
new-extent_other head p differ = ground (arith, differ)

module _ (address : ℕ → ℕ → Ptr) (fuel first_fails : ℕ) (p : ArenaPolicy)
    (addressing : IsAddressing p.block_size address) where
  memtable_new-Holds :
      (id : ℕ)
      → 72 ≤ p.block_size
      → p.block_size ≤ p.cap
      → p.cap + p.block_size < 2 ^ 64
      → first_fails + p.cap < fuel
      → (m : MemtableInner) × (memtable_new address fuel first_fails id p system ≡ ok m)
        × Holds address m (λ level. []) []
        × (m.arena.policy ≡ p)
  unfolding Sl.new
  memtable_new-Holds id room le small enough =
      let (a, c, o, a', eq, g, policy) =
        memtable_new-Granted address fuel first_fails id p room le small enough in
      let apart : IsAddressing a.policy.block_size address =
        subst (λ (q : ArenaPolicy). IsAddressing q.block_size address) (sym policy) addressing in
      (
        empty_memtable address fuel first_fails id a' (address c o),
        eq,
        record {
          arena = g.valid;
          untouched =
              grant-IsUntouched address a a' (λ q. none) (Sl.new (address c o)).heap 3 c o
                head_layout g (omega arith) apart (new-KeepsFree (address c o))
                (λ chunk offset l m. refl);
          laid_out =
              grant-IsLaidOut address a a' (λ q. none) (Sl.new (address c o)).heap 3 c o head_layout
                g (omega arith) apart (new-KeepsFree (address c o)) (new-extent (address c o))
                (new-extent_other (address c o)) (no_nodes-IsLaidOut address a);
          list =
              new-IsSkipList internal_comparator HasTrailer internal-IsLawful (address c o)
                (addressing.not_null c o);
          counted = refl;
          records = record { only = λ e m. absurd m; all = λ w m. absurd m };
          writes = tt;
        },
        g.policy ∙ policy,
      )

  -- With an arena whose blocks have at least 72 bytes and fit its capacity, both in sum below 2^64,
  -- whose addresses are apart and not null, and with more fuel than spurious failures and capacity
  -- and than writes, a memtable that is created and written to by `insert_direct` panics only where
  -- the node of one of the writes, after those before it, is larger than a block or a further block
  -- would exceed the capacity, and else answers a `get` at a sequence number of 56 bits by the
  -- writes: with a latest one of the user key up to the sequence number, its value, `Deleted` or
  -- `Merge` as it was a put, a deletion or a merge, or `NotFound` where there is none; and its
  -- nodes lie apart, each with the bytes of its header, tower, key and value in what the arena has
  -- handed out. The writes have sequence numbers of 56 bits, stored operations, and keys and values
  -- that the length fields of a node hold, and are less than 2^64.
  pub get-write_all :
      (fails : ℕ → ℕ) (id : ℕ) (ws : List Write) (u : Bytes) (s : ℕ)
      → 72 ≤ p.block_size
      → p.block_size ≤ p.cap
      → p.cap + p.block_size < 2 ^ 64
      → first_fails + p.cap < fuel
      → ((i : ℕ) → fails i + p.cap < fuel)
      → All IsWrite ws
      → length ws < fuel
      → length ws < 2 ^ 64
      → s < 2 ^ 56
      → (((memtable_new address fuel first_fails id p system >>= λ m.
              write_all address fuel fails m ws)
            ≡ panic)
          × ((m : MemtableInner) × (memtable_new address fuel first_fails id p system ≡ ok m)
              × RanOut address fuel fails p m ws))
        ⊎ ((m : MemtableInner) × ((memtable_new address fuel first_fails id p system >>= λ m.
                write_all address fuel fails m ws)
              ≡ ok m)
            × IsLaidOut address m.arena m.skiplist.heap
            × Answered ws u s (get internal_comparator fuel m (internal_key u s max_op)))
  get-write_all fails id ws u s room le small enough plenty is fuelled few hs =
      let (m, eq, holds, policy) = memtable_new-Holds id room le small enough in
      elim (write_all-HistoryCases address fuel fails p addressing (omega arith) plenty m ws holds
        policy is fuelled few) [
          | inl (full, out) ↦ inl (rw (eq, full) refl, (m, eq, out))
          | inr (m', lists, run, holds', same) ↦
              let counted = holds'.counted in
              inr (
                m',
                rw (eq, run) refl,
                holds'.laid_out,
                Answer-Answered m'.skiplist.heap (lists 0) ws holds'.records holds'.writes u s
                    (get internal_comparator fuel m' (internal_key u s max_op))
                    (get-Answer fuel m' lists u s hs (Holds-IsMemtable holds') (omega arith)),
              )
        ]
