-- ===== src/Writer.antt =====
-- crates/engine/src/db/writer.rs: the node that a writing thread puts into the queue of the write
-- thread, and its wait. Not modelled are the thread handle and the pointer to the write group, which
-- nothing reads.
pub mod Wait
mod Examples
use victory_db.Base.{
  ℕ, zero, suc, ◌+◌, Option, none, some, Bool, true, false, not, ◌==◌, if◌then◌else◌, bit_and,
  bit_or,
}
use victory_db.Base.Run.{Run, ok, panic, fault, out_of_fuel, ◌>>=◌}
use victory_db.Codec.Batch.{Batch}
use victory_db.SkipList.Node.{Ptr, null}

abbrev pub init : ℕ
init = 1

abbrev pub leader : ℕ
leader = 2

abbrev pub locked_waiting : ℕ
locked_waiting = 4

abbrev pub complete : ℕ
complete = 8

-- The batch is borrowed and does not change: it stands for the pointer to it.
pub record Writer : Type 0 where
  pub batch : Batch
  pub state : ℕ
  pub link_older : Ptr
  pub group_next : Ptr
  pub sync : Bool

-- `state & mask != 0`
abbrev pub has_bits : ℕ → ℕ → Bool
has_bits state mask = not (bit_and state mask == 0)

-- `debug_assert!`, which a build without debug assertions leaves out
abbrev pub debug_assert {ℓ} : {A : Type ℓ} → Bool → Bool → Run A → Run A
debug_assert checked condition rest = if checked then (if condition then rest else panic) else rest

-- `Writer::new`
unfoldable pub new : Batch → Writer
new batch = record { batch = batch; state = 0; link_older = null; group_next = null; sync = true }

-- `Writer::is_leader`
unfoldable pub is_leader : Writer → Bool
is_leader w = has_bits w.state leader

-- How a wait ended: at which load of the state, with which state, and whether the thread had set
-- `LOCKED_WAITING`.
pub record Woken : Type 0 where
  pub loads : ℕ
  pub state : ℕ
  pub locked : Bool

abbrev pub pause_iterations : ℕ
pause_iterations = 200

-- `WriteThread::YIELD_PAUSE_ITERATIONS`
abbrev pub yield_pause_iterations : ℕ
yield_pause_iterations = 64

-- A stage returned, or the next one runs.
abbrev pub or_else : Option Woken → Run Woken → Run Woken
or_else (some woken) r = ok woken
or_else none r = r

-- The state is an atomic that other threads write: `load announced i` is what the load number `i`
-- gives where `announced` says whether this thread has set `LOCKED_WAITING` before it.
module _ (load : Bool → ℕ → ℕ) where
  -- `for _ in 0..n`, from load `i` on; `none` falls through.
  unfoldable pub spin : ℕ → ℕ → Option Woken
  spin zero i = none
  spin (suc n) i =
      let rest = spin n (suc i) in
      if has_bits (load false i) complete
      then some (record { loads = i; state = load false i; locked = false })
      else rest

  -- The loop of `wait_and_block`, whose loads come after its `fetch_or` of `LOCKED_WAITING`. Each
  -- `park` returns at some time, woken or not.
  unfoldable pub wait_and_block : ℕ → ℕ → Run Woken
  wait_and_block zero i = out_of_fuel
  wait_and_block (suc fuel) i =
      let rest = wait_and_block fuel (suc i) in
      if bit_and (load true i) (bit_or complete leader) == 0
      then rest
      else ok (record { loads = i; state = load true i; locked = true })

  -- `Writer::wait`, entered with the state `first`
  unfoldable pub wait : Bool → ℕ → ℕ → Run Woken
  wait checked fuel first = debug_assert checked (has_bits first init) (
      or_else (spin pause_iterations 0) (
        or_else (spin yield_pause_iterations pause_iterations)
          (wait_and_block fuel (pause_iterations + yield_pause_iterations))))
