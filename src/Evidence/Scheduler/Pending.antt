-- ===== src/Evidence/Scheduler/Pending.antt =====
-- What the scheduler counts as pending.
use native.Mathlib.Omega.{arith}
use exam_sage.Common.{ℕ, String, ◌≡◌, refl, Bool, true, false, ◌&&◌, not, List, [], ◌∷◌, count}
use exam_sage.Evidence.Models.{PartState}
use exam_sage.Evidence.Store.{Db, PartRow, in_revision, state_eq, part_state_counts}
use exam_sage.Evidence.Scheduler.{pending_count}

-- The states that _pending_count calls terminal.
abbrev pub is_terminal_state : PartState → Bool
is_terminal_state PartState.processed = true
is_terminal_state PartState.failed = true
is_terminal_state PartState.invalidated = true
is_terminal_state _ = false

abbrev counts_of : (PartRow → Bool) → List PartRow → PartState → ℕ
counts_of here rows state = count (λ r. here r && state_eq r.state state) rows

pending_rows :
    (here : PartRow → Bool) (rows : List PartRow)
    → pending_count (counts_of here rows)
      ≡ count (λ r. here r && not (is_terminal_state r.state)) rows
unfolding pending_count
pending_rows here [] = refl
pending_rows here (r ∷ rows) = let rest = pending_rows here rows in ground (arith, rest)

-- The pending count that the scheduler makes of the counts by state is the number of the revision's
-- parts that are not processed, failed or invalidated.
pub pending_count-part_state_counts :
    (workspace_id revision_id : String) (db : Db)
    → pending_count (part_state_counts workspace_id revision_id db)
      ≡ count
          (λ r. in_revision workspace_id revision_id r && not (is_terminal_state r.state))
          db.parts
unfolding part_state_counts
pending_count-part_state_counts workspace_id revision_id db =
    pending_rows (in_revision workspace_id revision_id) db.parts
