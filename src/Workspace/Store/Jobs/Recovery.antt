-- ===== src/Workspace/Store/Jobs/Recovery.antt =====
-- recover_running_jobs always succeeds and leaves no job running.
use mathlib.Core.Path.{subst}
use mathlib.Core.Option.{some-injective}
use exam_sage.Common.{
  ℕ, String, true, false, Option, none, some, List, [], ◌∷◌, any, filter, order_by, is_none, is_ok,
  inl, inr, ◌≡◌, refl, sym, ◌∙◌, arith, ◌==◌, eq_iff, any-order_by, Method, Result, ok, err, ◌>>=◌,
  pure, transaction, All, All-filter, All-map, All-order_by, Bool-cases,
}
use exam_sage.Common.Table.{lookup, update, lookup-update, map_option, IsUnique, rows-lookup}
use exam_sage.Workspace.Models.{WorkspaceJob}
use exam_sage.Workspace.Store.{Db, job_key, find_job, job_row, update_job_row, is_running}
use exam_sage.Workspace.Store.Events.{
  insert_event, new_event, store_event, validate_event, check_payload, event_rule, every,
}
use exam_sage.Workspace.Store.Jobs.Reach.{Reach, Reach-IsUnique}
use exam_sage.Workspace.Store.Jobs.{
  recover_running_jobs, recover_rows, jobs_with, requeued, created_first,
}

-- The event of a requeued job is always accepted.
queued_event :
    (id : String) (now : ℕ) (db : Db)
    → insert_event id "queued" "Workspace operation queued." [] now db ≡ (
      ok (new_event id "queued" "Workspace operation queued." [] now db),
      store_event (new_event id "queued" "Workspace operation queued." [] now db) db,
    )
unfolding insert_event validate_event event_rule check_payload every lookup
queued_event id now db = refl

abbrev Known : List WorkspaceJob → List WorkspaceJob → Type 0
Known jobs rows = All (λ r. is_none (lookup job_key r.job_id jobs) ≡ false) rows

-- Every running job is among the rows that are still to be requeued.
abbrev Pending : List WorkspaceJob → List WorkspaceJob → Type 0
Pending jobs rows =
    (id : String) (j : WorkspaceJob)
    → lookup job_key id jobs ≡ some j
    → is_running j.status ≡ true
    → any (λ r. r.job_id == id) rows ≡ true

requeued-key : (x : WorkspaceJob) → job_key (requeued x) ≡ job_key x
requeued-key x = ground arith

requeued-not_running : (x : WorkspaceJob) → is_running (requeued x).status ≡ false
requeued-not_running x = ground arith

known_still :
    (id k : String) (jobs : List WorkspaceJob)
    → is_none (lookup job_key k jobs) ≡ false
    → is_none (lookup job_key k (update job_key id requeued jobs)) ≡ false
known_still id k jobs h =
    ground (arith, lookup-update job_key id k requeued jobs requeued-key, eq_iff id k)

mapped-not_running :
    (o : Option WorkspaceJob) {j : WorkspaceJob}
    → map_option requeued o ≡ some j
    → is_running j.status ≡ false
mapped-not_running none h = absurd (cc)
mapped-not_running (some x) {j} h =
    subst (λ y. is_running y.status ≡ false) (some-injective (requeued x) j h)
      (requeued-not_running x)

Pending-still :
    (row : WorkspaceJob) (rows jobs : List WorkspaceJob)
    → Pending jobs (row ∷ rows)
    → Pending (update job_key row.job_id requeued jobs) rows
Pending-still row rows jobs h id j found run =
    let moved = lookup-update job_key row.job_id id requeued jobs requeued-key in
    elim (Bool-cases (row.job_id == id)) [
      | inl e ↦ absurd (
          let still =
            mapped-not_running (lookup job_key row.job_id jobs) (sym (moved ∙ rw e refl) ∙ found) in
          cc)
      | inr e ↦ let listed = h id j (sym (moved ∙ rw e refl) ∙ found) run in ground arith
    ]

-- The call succeeds and no job that is found afterwards is running.
abbrev IsSettled {ℓ} : {A : Type ℓ} → Result A × Db → Type 0
IsSettled r =
    (is_ok r.0 ≡ true)
    × ((id : String) (j : WorkspaceJob) → find_job id r.1 ≡ some j → is_running j.status ≡ false)

IsSettled-map :
    {A B : Type 0} (m : Method Db A) (f : A → B) (s : Db)
    → IsSettled (m s)
    → IsSettled ((m >>= λ x. pure (f x)) s)
IsSettled-map {A} m f s h = go (m s).0 refl
  where
    go : (r : Result A) → (m s).0 ≡ r → IsSettled ((m >>= λ x. pure (f x)) s)
    go (ok a) e = rw e (refl, h.1)
    go (err x) e = absurd (let good = h.0 in ground arith)

some_found : (o : Option WorkspaceJob) → is_none o ≡ false → (j : WorkspaceJob) × (o ≡ some j)
some_found none h = absurd (cc)
some_found (some j) h = (j, refl)

IsSettled-read :
    {A : Type 0} (id : String) (f : WorkspaceJob → Method Db A) (s : Db) {j : WorkspaceJob}
    → find_job id s ≡ some j
    → IsSettled (f j s)
    → IsSettled ((job_row id >>= f) s)
IsSettled-read id f s found h = rw found h

recover_rows-settles :
    (now : ℕ) (rows : List WorkspaceJob) (db : Db)
    → Known db.jobs rows
    → Pending db.jobs rows
    → IsSettled (recover_rows now rows db)
unfolding recover_rows store_event
recover_rows-settles now [] db known pending = (
  refl,
  λ id j found. elim (Bool-cases (is_running j.status)) [
    | inl e ↦ absurd (let clash = pending id j found e in cc)
    | inr e ↦ e
  ],
)
recover_rows-settles now (row ∷ rows) db known pending =
    let moved = update_job_row row.job_id requeued db in
    let event = new_event row.job_id "queued" "Workspace operation queued." [] now moved in
    let (j, found) =
      some_found (lookup job_key row.job_id (update job_key row.job_id requeued db.jobs))
        (known_still row.job_id row.job_id db.jobs known.0) in
    rw (queued_event row.job_id now moved) (
      IsSettled-read row.job_id _ (store_event event moved) found (
        IsSettled-map (recover_rows now rows) (λ rest. j ∷ rest) (store_event event moved)
          (recover_rows-settles now rows (store_event event moved)
            (All-map (λ r h. known_still row.job_id r.job_id db.jobs h) rows known.1)
            (Pending-still row rows db.jobs pending))))

all_known :
    (jobs : List WorkspaceJob)
    → IsUnique job_key jobs
    → Known jobs (order_by created_first (filter (λ j. is_running j.status) jobs))
all_known jobs u = All-order_by created_first _ (filter (λ j. is_running j.status) jobs) (
    All-filter (λ r. is_none (lookup job_key r.job_id jobs) ≡ false) (λ j. is_running j.status) jobs
      (All-map (λ x h. rw h refl) jobs (rows-lookup job_key jobs u)))

listed :
    (id : String) (jobs : List WorkspaceJob) {j : WorkspaceJob}
    → lookup job_key id jobs ≡ some j
    → is_running j.status ≡ true
    → any (λ r. r.job_id == id) (filter (λ k. is_running k.status) jobs) ≡ true
unfolding lookup
listed id [] h run = absurd (cc)
listed id (k ∷ jobs) {j} h run = ground (arith, listed id jobs {j = j})

IsSettled-transaction :
    {A : Type 0} (m : Method Db A) (s : Db) → IsSettled (m s) → IsSettled (transaction m s)
IsSettled-transaction {A} m s h = go (m s).0 refl
  where
    go : (r : Result A) → (m s).0 ≡ r → IsSettled (transaction m s)
    go (ok a) e = rw e (refl, h.1)
    go (err x) e = absurd (let good = h.0 in ground arith)

-- In every database that the methods reach, recover_running_jobs succeeds, and no job that is found
-- afterwards is running.
pub recover_running_jobs-settles :
    (now : ℕ) (db : Db)
    → Reach db
    → (is_ok (recover_running_jobs now db).0 ≡ true)
      × ((id : String) (j : WorkspaceJob)
          → find_job id (recover_running_jobs now db).1 ≡ some j
          → is_running j.status ≡ false)
unfolding recover_running_jobs jobs_with
recover_running_jobs-settles now db r =
    IsSettled-transaction (recover_rows now (jobs_with is_running db)) db (
      recover_rows-settles now (jobs_with is_running db) db (all_known db.jobs (Reach-IsUnique r))
        (λ id j found run.
          any-order_by created_first (λ k. k.job_id == id)
            (filter (λ k. is_running k.status) db.jobs)
          ∙ listed id db.jobs found run))
