-- ===== src/Writer/Examples.antt =====
-- A wait of crates/engine/src/db/writer.rs.
use victory_db.Base.{ℕ, Bool, bit_or, ◌≡◌, refl, true, false, leb, if◌then◌else◌}
use victory_db.Base.Run.{panic}
use victory_db.Writer.{complete, locked_waiting, wait}
use victory_db.Writer.Wait.{WaitCases, wait-WaitCases}

-- Another thread completes the write while the writer is blocked.
abbrev load : Bool → ℕ → ℕ
load announced i =
    if announced then (if leb 300 i then bit_or complete locked_waiting else locked_waiting) else 0

wait-WaitCases_example : (wait load true 40 0 ≡ panic) × WaitCases load 40 (wait load false 40 0)
wait-WaitCases_example = wait-WaitCases load 40 0 refl
