-- ===== src/Runtime/Store/Workspaces.antt =====
-- exam_predictor/runtime/store.py: the runs of one workspace, and their deletion.
use exam_sage.Common.{
  ℕ, String, Bool, true, false, ◌&&◌, not, none, some, List, [], ◌∷◌, map, leb, if◌then◌else◌,
  filter, any, Result, ok, err, value_error, ◌==◌, order_by,
}
use exam_sage.Runtime.Models.{RunStatus, RunSnapshot}
use exam_sage.Runtime.Store.{Db, select_runs}

-- workspace_id = ?
abbrev pub belongs_to : String → RunSnapshot → Bool
belongs_to workspace_id r = elim r.workspace_id [ none ↦ false | some w ↦ w == workspace_id ]

-- list_for_workspace, with `statuses` given
unfoldable pub list_for_workspace : String → (RunStatus → Bool) → Db → List RunSnapshot
unfolding select_runs
list_for_workspace workspace_id statuses =
    select_runs (λ r. belongs_to workspace_id r && statuses r.status)

-- The statuses of has_unsettled_runs.
abbrev pub is_unsettled : RunStatus → Bool
is_unsettled RunStatus.completed = false
is_unsettled RunStatus.failed = false
is_unsettled _ = true

some_row : List RunSnapshot → Bool
some_row [] = false
some_row (r ∷ rs) = true

unfoldable pub has_unsettled_runs : String → Db → Bool
unfolding list_for_workspace some_row
has_unsettled_runs workspace_id db = some_row (list_for_workspace workspace_id is_unsettled db)

-- The run ids of rows, and whether a text is among them.
has_id : String → List RunSnapshot → Bool
has_id run_id = any (λ r. r.run_id == run_id)

-- DELETE FROM agent_runs WHERE workspace_id = ?, with ON DELETE CASCADE on agent_events
unfoldable pub delete_runs : String → Db → Db
unfolding has_id
delete_runs workspace_id db =
    let gone = filter (belongs_to workspace_id) db.runs in
    record db {
      runs = filter (λ r. not (belongs_to workspace_id r)) db.runs;
      events = filter (λ e. not (has_id e.run_id gone)) db.events;
    }

-- delete_settled_workspace_runs
unfoldable pub delete_settled_workspace_runs : String → Db → Result Db
unfolding delete_runs
delete_settled_workspace_runs workspace_id db =
    if any (λ r. belongs_to workspace_id r && is_unsettled r.status) db.runs
    then err value_error
    else ok (delete_runs workspace_id db)

-- The least creation time of a thread's rows, under `least`.
min_created : String → ℕ → List RunSnapshot → ℕ
min_created thread_id least [] = least
min_created thread_id least (r ∷ rs) =
    min_created thread_id
      (if r.thread_id == thread_id && leb r.created_at least then r.created_at else least) rs

-- GROUP BY thread_id in the order of MIN(rowid): each thread's first row, with MIN(created_at).
group_threads : List String → List RunSnapshot → List (String × ℕ)
unfolding min_created
group_threads seen [] = []
group_threads seen (r ∷ rs) =
    let new_group : String × ℕ = (r.thread_id, min_created r.thread_id r.created_at rs) in
    let rest = group_threads (r.thread_id ∷ seen) rs in
    if any (λ t. t == r.thread_id) seen then rest else new_group ∷ rest

-- thread_ids_for_workspace
unfoldable pub thread_ids_for_workspace : String → Db → List String
unfolding group_threads
thread_ids_for_workspace workspace_id db =
    map (λ g. g.0)
      (order_by (λ a b. leb a.1 b.1) (group_threads [] (filter (belongs_to workspace_id) db.runs)))
