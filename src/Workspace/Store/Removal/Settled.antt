-- ===== src/Workspace/Store/Removal/Settled.antt =====
-- A workspace that is marked for deletion accepts no job, and its deletion leaves nothing of it.
use mathlib.Core.Path.{subst}
use exam_sage.Common.{
  ℕ, String, true, false, not, none, some, List, [], ◌∷◌, filter, any, ◌≡◌, refl, sym, ap, ◌∙◌,
  arith, ◌==◌, eq_refl, eq_iff, ok, err, OnOk, OnOk-check, OnOk-transaction, ensure, transaction,
  ensure_same, ensure_passed, or_raise_same, or_raise_passed, not-true, not_found, active_operation,
  if◌then◌else◌,
}
use exam_sage.Common.Table.{lookup, lookup-update}
use exam_sage.Workspace.Models.{WorkspaceRecord, WorkspaceJob}
use exam_sage.Workspace.Store.{
  Db, WorkspaceRow, workspace_key, find_workspace, workspace_row, update_workspace, has_active_job,
  is_blocked, delete_workspace,
}
use exam_sage.Workspace.Store.Jobs.{create_job, try_create}
use exam_sage.Workspace.Store.Removal.{
  mark_deleting, mark_body, to_deleting, is_scanning, is_deleting, delete_workspace_rows,
  delete_body,
}

or_raise_same_row : (w : String) (db : Db) → (workspace_row w db).1 ≡ db
or_raise_same_row w db = or_raise_same not_found (find_workspace w db) db

-- create_job refuses a job whose workspace is being deleted.
create_job-refused :
    (row : WorkspaceRow) (job : WorkspaceJob) (key : String) (s : Db)
    → is_blocked row.workspace.state ≡ true
    → find_workspace job.workspace_id s ≡ some row
    → (create_job job key s).0 ≡ err active_operation
unfolding create_job try_create
create_job-refused row job key s blocked h = rw (h, blocked) refl

module _ (now : ℕ) (w : String) (db : Db) where
  abbrev IsMarked : WorkspaceRecord → Db → Type 0
  IsMarked x s =
      (row : WorkspaceRow) × (find_workspace w s
        ≡ some (record row { workspace = to_deleting now row.workspace }))
      × (has_active_job w s ≡ false)

  mark_body-IsMarked : OnOk IsMarked (mark_body now w db)
  unfolding mark_body has_active_job
  mark_body-IsMarked =
      OnOk-check IsMarked (workspace_row w) _ db (or_raise_same_row w db) (λ row found.
        OnOk-check IsMarked (ensure (not (is_scanning row.workspace.state)) active_operation) _ db
          (ensure_same _ active_operation db)
          (λ _ _.
            OnOk-check IsMarked (ensure (not (has_active_job w db)) active_operation) _ db
              (ensure_same _ active_operation db)
              (λ _ idle.
                OnOk-check IsMarked (workspace_row w) _ (update_workspace w (to_deleting now) db)
                  (or_raise_same_row w _)
                  (λ _ _. λ _ _. (
                    row,
                    rw
                        (
                          lookup-update workspace_key w w
                              (λ x. record x { workspace = to_deleting now x.workspace })
                              db.workspaces (λ x. refl),
                          eq_refl w,
                          or_raise_passed not_found (find_workspace w db) db found,
                        )
                        refl,
                    not-true (ensure_passed _ active_operation db idle),
                  )))))

  -- In the database that a successful mark_deleting leaves, the workspace has no queued or running
  -- job, and create_job refuses every job of the workspace.
  pub mark_deleting-blocks_jobs :
      {x : WorkspaceRecord}
      → (mark_deleting now w db).0 ≡ ok x
      → (has_active_job w (mark_deleting now w db).1 ≡ false)
        × ((job : WorkspaceJob) (key : String)
            → job.workspace_id ≡ w
            → (create_job job key (mark_deleting now w db).1).0 ≡ err active_operation)
  unfolding mark_deleting
  mark_deleting-blocks_jobs {x} e =
      let (row, found, idle) =
        OnOk-transaction IsMarked (mark_body now w) db mark_body-IsMarked x e in
      (
        idle,
        λ job key same.
            create_job-refused (record row { workspace = to_deleting now row.workspace }) job key
              (transaction (mark_body now w) db).1 refl
              (subst
                (λ v.
                  find_workspace v (transaction (mark_body now w) db).1
                  ≡ some (record row { workspace = to_deleting now row.workspace }))
                (sym same) found),
      )

lookup-others :
    (w v : String) (rows : List WorkspaceRow)
    → lookup workspace_key v (filter (λ r. not (workspace_key r == w)) rows)
      ≡ (if w == v then none else lookup workspace_key v rows)
unfolding lookup
lookup-others w v [] = ground arith
lookup-others w v (r ∷ rows) = ground (
  arith,
  lookup-others w v rows,
  eq_iff (workspace_key r) w,
  eq_iff (workspace_key r) v,
  eq_iff w v,
)

any-others :
    (w : String) (jobs : List WorkspaceJob)
    → any (λ j. j.workspace_id == w) (filter (λ j. not (j.workspace_id == w)) jobs) ≡ false
any-others w [] = refl
any-others w (j ∷ jobs) = ground (arith, any-others w jobs)

module _ (w : String) (db : Db) where
  abbrev IsDeleted : Unit {0} → Db → Type 0
  IsDeleted u s =
      (row : WorkspaceRow) × (find_workspace w db ≡ some row)
      × (is_deleting row.workspace.state ≡ true)
      × (has_active_job w db ≡ false)
      × (s ≡ delete_workspace w db)

  delete_body-IsDeleted : OnOk IsDeleted (delete_body w db)
  unfolding delete_body has_active_job
  delete_body-IsDeleted =
      OnOk-check IsDeleted (workspace_row w) _ db (or_raise_same_row w db) (λ row found.
        OnOk-check IsDeleted (ensure (is_deleting row.workspace.state) active_operation) _ db
          (ensure_same _ active_operation db)
          (λ _ marked.
            OnOk-check IsDeleted (ensure (not (has_active_job w db)) active_operation) _ db
              (ensure_same _ active_operation db)
              (λ _ idle. λ _ _. (
                row,
                or_raise_passed not_found (find_workspace w db) db found,
                ensure_passed _ active_operation db marked,
                not-true (ensure_passed _ active_operation db idle),
                refl,
              ))))

  -- A successful delete_workspace_rows finds no queued or running job of the workspace; in the
  -- database that it leaves the workspace and its jobs are gone, and every other workspace is
  -- found as before.
  pub delete_workspace_rows-clears :
      {u : Unit {0}}
      → (delete_workspace_rows w db).0 ≡ ok u
      → (has_active_job w db ≡ false)
        × (find_workspace w (delete_workspace_rows w db).1 ≡ none)
        × (any (λ j. j.workspace_id == w) (delete_workspace_rows w db).1.jobs ≡ false)
        × ((v : String)
            → w == v ≡ false
            → find_workspace v (delete_workspace_rows w db).1 ≡ find_workspace v db)
  unfolding delete_workspace_rows delete_workspace
  delete_workspace_rows-clears {u} e =
      let (row, found, marked, idle, after) =
        OnOk-transaction IsDeleted (delete_body w) db delete_body-IsDeleted u e in
      (
        idle,
        ap (find_workspace w) after ∙ rw (lookup-others w w db.workspaces, eq_refl w) refl,
        ap (λ s. any (λ j. j.workspace_id == w) s.jobs) after ∙ any-others w db.jobs,
        λ v other. ap (find_workspace v) after ∙ rw (lookup-others w v db.workspaces, other) refl,
      )
