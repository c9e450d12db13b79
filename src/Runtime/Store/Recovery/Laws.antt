-- ===== src/Runtime/Store/Recovery/Laws.antt =====
-- recover_unfinished: what becomes of each run, and of the runs in given statuses.
use native.Mathlib.Omega.{arith}
use exam_sage.Common.{
  ℕ, String, ◌≡◌, refl, sym, ap, ◌∙◌, Bool, true, false, ◌||◌, Option, none, some, List, [], ◌∷◌,
  map, if◌then◌else◌, any, filter, All, All-map, any-order_by, ◌==◌, eq_iff, Bool-cases, inl, inr,
}
use exam_sage.Common.Table.{lookup-update, map_option, rows-lookup}
use exam_sage.Common.Table.Keys.{keys_of_none, any-filter}
use exam_sage.Runtime.Models.{RunStatus, EventType, RunSnapshot}
use exam_sage.Runtime.Store.{
  Db, run_key, is_busy, select_runs, created_no_later, update_run, write_status,
}
use exam_sage.Runtime.Store.Laws.{
  ids_with, find_row, HasUniqueIds, HasUniqueIds-update_run, ids-update_same, select-Found,
}
use exam_sage.Runtime.Store.Recovery.{
  recover_run, recover_runs, unfinished_rows, recover_unfinished, is_paused_event,
  last_lifecycle_event,
}

abbrev status_in : Option RunSnapshot → Option RunStatus
status_in none = none
status_in (some r) = some r.status

-- The status of a run.
abbrev pub status_of : Db → String → Option RunStatus
status_of db k = status_in (find_row k db)

abbrev to_paused : Option RunStatus → Option RunStatus
to_paused none = none
to_paused (some s) = some RunStatus.paused

-- What recovery makes of a status.
abbrev pub recovered : RunStatus → RunStatus
recovered s = if is_busy s then RunStatus.paused else s

abbrev pub recovered_option : Option RunStatus → Option RunStatus
recovered_option none = none
recovered_option (some s) = some (recovered s)

-- The runs table behind the loop's body is that of the status write.
recover_run-runs :
    (now : ℕ) (id : String) (last : Option EventType) (db : Db)
    → (recover_run now (id, last) db).runs ≡ (update_run id RunStatus.paused none now db).runs
unfolding recover_run
recover_run-runs now id last db = elim (Bool-cases (is_paused_event last)) [
  | inl e ↦ rw e
  | inr e ↦ rw e
]

status_of-recover_run :
    (now : ℕ) (id : String) (last : Option EventType) (db : Db) (k : String)
    → status_of (recover_run now (id, last) db) k
      ≡ (if id == k then to_paused (status_of db k) else status_of db k)
unfolding update_run
status_of-recover_run now id last db k = rw (recover_run-runs now id last db) (
    rw (lookup-update run_key id k (write_status RunStatus.paused none now) db.runs (λ x. refl))
      (elim (Bool-cases (id == k)) [
        | inl e ↦ rw e (rw ((eq_iff id k).0 e) (paused_in (find_row k db)))
        | inr e ↦ rw e
      ]))
  where
    paused_in :
        (o : Option RunSnapshot)
        → status_in (map_option (write_status RunStatus.paused none now) o)
          ≡ to_paused (status_in o)
    paused_in none = refl
    paused_in (some r) = refl

recover_runs-status :
    (now : ℕ) (rows : List (String × Option EventType)) (db : Db) (k : String)
    → status_of (recover_runs now rows db) k ≡ (
        if any (λ (row : String × Option EventType). row.0 == k) rows
        then to_paused (status_of db k)
        else status_of db k)
unfolding recover_runs
recover_runs-status now [] db k = refl
recover_runs-status now ((id, last) ∷ rows) db k = ground (
  arith,
  recover_runs-status now rows (recover_run now (id, last) db) k,
  status_of-recover_run now id last db k,
)

rows_cover :
    (k : String) (f : RunSnapshot → Option EventType) (rs : List RunSnapshot)
    → any (λ (row : String × Option EventType). row.0 == k) (map (λ r. (r.run_id, f r)) rs)
      ≡ any (λ r. r.run_id == k) rs
rows_cover k f [] = refl
rows_cover k f (r ∷ rs) = ap (λ b. r.run_id == k || b) (rows_cover k f rs)

-- The rows of the query are those of the busy runs.
unfinished_busy :
    (db : Db) (k : String)
    → any (λ (row : String × Option EventType). row.0 == k) (unfinished_rows db)
      ≡ any (λ r. r.run_id == k) (filter (λ r. is_busy r.status) db.runs)
unfolding unfinished_rows
unfinished_busy db k =
    rows_cover k (λ r. last_lifecycle_event r.run_id none db.events) _
    ∙ any-order_by created_no_later (λ r. r.run_id == k) (filter (λ r. is_busy r.status) db.runs)

-- If no two runs share an id, then after recover_unfinished, for every id, the run that was running or
-- stopping is paused, any other run has the status that it had, and no run is new or gone.
pub recover_unfinished-status :
    (now : ℕ) (db : Db) (k : String)
    → HasUniqueIds db
    → status_of (recover_unfinished now db).1 k ≡ recovered_option (status_of db k)
unfolding recover_unfinished
recover_unfinished-status now db k u =
    recover_runs-status now (unfinished_rows db) db k
    ∙ ground (arith, unfinished_busy db k, any-filter run_key (λ r. is_busy r.status) k db.runs u)

recover_runs_unique :
    (now : ℕ) (rows : List (String × Option EventType)) (db : Db)
    → HasUniqueIds db
    → HasUniqueIds (recover_runs now rows db)
unfolding recover_runs
recover_runs_unique now [] db u = u
recover_runs_unique now ((id, last) ∷ rows) db u =
    recover_runs_unique now rows (recover_run now (id, last) db) (
      rw (recover_run-runs now id last db)
        (HasUniqueIds-update_run id RunStatus.paused none now db u))

pub recover_unfinished_unique :
    (now : ℕ) (db : Db) → HasUniqueIds db → HasUniqueIds (recover_unfinished now db).1
unfolding recover_unfinished
recover_unfinished_unique now db u = recover_runs_unique now (unfinished_rows db) db u

-- The status of a row, from the status of its id.
row_status :
    (db : Db) (r : RunSnapshot)
    → find_row r.run_id db ≡ some r
    → status_of db r.run_id ≡ some r.status
row_status db r found = ap status_in found

recovered_not_busy :
    (s : Option RunStatus) (t : RunStatus) → some t ≡ recovered_option s → is_busy t ≡ false
recovered_not_busy none t e = absurd (cc)
recovered_not_busy (some s) t e = ground arith

-- Nothing is busy behind a recovery.
pub recover_unfinished-busy :
    (now : ℕ) (db : Db) → HasUniqueIds db → ids_with is_busy (recover_unfinished now db).1 ≡ []
recover_unfinished-busy now db u =
    let db' = (recover_unfinished now db).1 in
    keys_of_none run_key (λ r. is_busy r.status) db'.runs
      (All-map
        (λ r found.
          recovered_not_busy (status_of db r.run_id) r.status
            (sym (row_status db' r found) ∙ recover_unfinished-status now db r.run_id u))
        db'.runs (rows-lookup run_key db'.runs (recover_unfinished_unique now db u)))

module _ (now : ℕ) (test : RunStatus → Bool) where
  -- A row whose run passes a test if and only if a paused run does.
  abbrev IsNeutral : Db → String → Type 0
  IsNeutral db id =
      (r : RunSnapshot) × (find_row id db ≡ some r) × (test RunStatus.paused ≡ test r.status)

  IsNeutral-step :
      (id : String) (last : Option EventType) (db : Db) (k : String)
      → IsNeutral db k
      → IsNeutral (recover_run now (id, last) db) k
  unfolding update_run
  IsNeutral-step id last db k (r, found, same) = rw (recover_run-runs now id last db) (
      rw (lookup-update run_key id k (write_status RunStatus.paused none now) db.runs (λ x. refl))
        (elim (Bool-cases (id == k)) [
          | inl e ↦
              rw e
                (write_status RunStatus.paused none now r, rw ((eq_iff id k).0 e) (rw found), refl)
          | inr e ↦ rw e (r, found, same)
        ]))

  recover_runs-ids :
      (rows : List (String × Option EventType)) (db : Db)
      → All (λ row. IsNeutral db row.0) rows
      → ids_with test (recover_runs now rows db) ≡ ids_with test db
  unfolding recover_runs
  recover_runs-ids [] db h = refl
  recover_runs-ids ((id, last) ∷ rows) db ((r, found, same), h) =
      recover_runs-ids rows (recover_run now (id, last) db)
        (All-map (λ row. IsNeutral-step id last db row.0) rows h)
      ∙ (rw (recover_run-runs now id last db)
          (ids-update_same id RunStatus.paused none now db found test same))

rows_All :
    (P : String → Type 0) (f : RunSnapshot → Option EventType) (rs : List RunSnapshot)
    → All (λ r. P r.run_id) rs
    → All (λ (row : String × Option EventType). P row.0) (map (λ r. (r.run_id, f r)) rs)
rows_All P f [] h = tt
rows_All P f (r ∷ rs) h = (h.0, rows_All P f rs h.1)

-- A recovery leaves the runs that pass a test which does not tell busy from paused.
pub recover_unfinished-ids :
    (now : ℕ) (db : Db) (test : RunStatus → Bool)
    → ((s : RunStatus) → is_busy s ≡ true → test RunStatus.paused ≡ test s)
    → HasUniqueIds db
    → ids_with test (recover_unfinished now db).1 ≡ ids_with test db
unfolding recover_unfinished unfinished_rows
recover_unfinished-ids now db test blind u = recover_runs-ids now test (unfinished_rows db) db (
    rows_All (IsNeutral now test db) (λ r. last_lifecycle_event r.run_id none db.events) _
      (All-map (λ r found. (r, found.0, blind r.status found.1))
        (select_runs (λ r. is_busy r.status) db) (select-Found is_busy db u)))
