-- ===== src/Runtime/Store/Laws.antt =====
-- What the writes and queries of RuntimeStore do to the ids of the runs in given statuses.
use native.Mathlib.Omega.{arith}
use exam_sage.Common.{
  ℕ, String, ◌≡◌, refl, ◌↔◌, sym, ap, ◌∙◌, Bool, true, false, Option, none, some, List, [], ◌∷◌, ok,
  head?, ◌++◌, filter, map, All, All-filter, All-order_by, filter-All, order_by-eq-nil, order_by,
  eq_refl,
}
use mathlib.Core.Path.{subst}
use mathlib.Core.List.{append-nil}
use mathlib.Core.Option.{some-injective}
use exam_sage.Common.Table.{
  lookup, lookup-update, IsUnique, IsUnique-update, IsUnique-append, rows-lookup, lookup-append,
}
use exam_sage.Common.Table.Keys.{
  keys_of, keys_of-update_same, keys_of-update_new, keys_of-update_drop, keys_of-eq-map,
  keys_of_weaker, keys_of-append,
}
use exam_sage.Runtime.Models.{RunStatus, EventType, RunSnapshot, Payload}
use exam_sage.Runtime.Store.{
  Db, run_key, select_runs, created_no_later, set_status, append_event, set_status_and_append_event,
  update_run, insert_event, write_status, is_active, is_busy, create_run,
}

-- The ids of the runs in the statuses of a test, in table order.
abbrev pub ids_with : (RunStatus → Bool) → Db → List String
ids_with test db = keys_of run_key (λ r. test r.status) db.runs

abbrev pub find_row : String → Db → Option RunSnapshot
find_row k db = lookup run_key k db.runs

abbrev pub HasUniqueIds : Db → Type 0
HasUniqueIds db = IsUnique run_key db.runs

module _ (k : String) (status : RunStatus) (error : Option String) (now : ℕ) (db : Db)
    {r : RunSnapshot} (found : find_row k db ≡ some r) where
  pub set_status_found : set_status k status error now db ≡ ok (update_run k status error now db)
  unfolding set_status
  set_status_found = rw found

  pub settle_found :
      (t : EventType) (stage message : String) (payload : Payload)
      → set_status_and_append_event k status t stage message payload error now db
        ≡ ok (insert_event k t stage message payload now (update_run k status error now db))
  unfolding set_status_and_append_event
  settle_found t stage message payload = rw found

  pub find_row-update_run :
      find_row k (update_run k status error now db) ≡ some (write_status status error now r)
  unfolding update_run
  find_row-update_run =
      rw (lookup-update run_key k k (write_status status error now) db.runs (λ x. refl))
        (rw (eq_refl k) (rw found))

  module _ (test : RunStatus → Bool) where
    pub ids-update_same :
        test status ≡ test r.status
        → ids_with test (update_run k status error now db) ≡ ids_with test db
    unfolding update_run
    ids-update_same e =
        keys_of-update_same run_key (λ x. test x.status) k (write_status status error now) db.runs
          (λ y. refl) found e

    pub ids-update_new :
        ids_with test db ≡ []
        → test status ≡ true
        → ids_with test (update_run k status error now db) ≡ k ∷ []
    unfolding update_run
    ids-update_new n e =
        keys_of-update_new run_key (λ x. test x.status) k (write_status status error now) db.runs
          (λ y. refl) found n e

    pub ids-update_drop :
        {j : String}
        → ids_with test db ≡ j ∷ []
        → test r.status ≡ true
        → test status ≡ false
        → ids_with test (update_run k status error now db) ≡ []
    unfolding update_run
    ids-update_drop {j} n t e =
        keys_of-update_drop run_key (λ x. test x.status) k j (write_status status error now) db.runs
          (λ y. refl) found n t e

module _ (k : String) (t : EventType) (stage message : String) (payload : Payload) (now : ℕ) where
  pub append_event_found :
      (db : Db) {r : RunSnapshot}
      → find_row k db ≡ some r
      → append_event k t stage message payload now db
        ≡ ok (insert_event k t stage message payload now db)
  unfolding append_event
  append_event_found db found = rw found

pub HasUniqueIds-update_run :
    (k : String) (status : RunStatus) (error : Option String) (now : ℕ) (db : Db)
    → HasUniqueIds db
    → HasUniqueIds (update_run k status error now db)
unfolding update_run
HasUniqueIds-update_run k status error now db u =
    IsUnique-update run_key k (write_status status error now) db.runs (λ x. refl) u

nil_of_map_nil : (xs : List RunSnapshot) → map run_key xs ≡ [] → xs ≡ []
nil_of_map_nil [] e = refl
nil_of_map_nil (x ∷ xs) e = absurd (cc)

nil_of_head : (xs : List RunSnapshot) → head? xs ≡ none → xs ≡ []
nil_of_head [] e = refl
nil_of_head (x ∷ xs) e = absurd (cc)

-- A query that finds nothing, in terms of the ids.
pub select-none :
    (test : RunStatus → Bool) (db : Db)
    → (head? (select_runs (λ r. test r.status) db) ≡ none) ↔ (ids_with test db ≡ [])
unfolding select_runs order_by
select-none test db = (
  λ e.
      keys_of-eq-map run_key (λ r. test r.status) db.runs
      ∙ ap (map run_key) (
          order_by-eq-nil created_no_later (filter (λ r. test r.status) db.runs)
            (nil_of_head (order_by created_no_later (filter (λ r. test r.status) db.runs)) e)),
  λ e.
      let none_left : filter (λ r. test r.status) db.runs ≡ [] =
        nil_of_map_nil (filter (λ r. test r.status) db.runs)
          (sym (keys_of-eq-map run_key (λ r. test r.status) db.runs) ∙ e) in
      rw none_left,
)

abbrev Found : (RunStatus → Bool) → Db → RunSnapshot → Type 0
Found test db r = (find_row r.run_id db ≡ some r) × (test r.status ≡ true)

head-Found :
    (test : RunStatus → Bool) (db : Db) (xs : List RunSnapshot) {r : RunSnapshot}
    → All (Found test db) xs
    → head? xs ≡ some r
    → Found test db r
head-Found test db [] h e = absurd (cc)
head-Found test db (x ∷ xs) {r} h e = subst (Found test db) (some-injective x r e) h.0

both :
    (test : RunStatus → Bool) (db : Db) (xs : List RunSnapshot)
    → All (λ r. find_row r.run_id db ≡ some r) xs
    → All (λ r. test r.status ≡ true) xs
    → All (Found test db) xs
both test db [] h k = tt
both test db (x ∷ xs) h k = ((h.0, k.0), both test db xs h.1 k.1)

pub select-Found :
    (test : RunStatus → Bool) (db : Db)
    → HasUniqueIds db
    → All (Found test db) (select_runs (λ r. test r.status) db)
unfolding select_runs
select-Found test db u =
    All-order_by created_no_later (Found test db) (filter (λ r. test r.status) db.runs) (
      both test db (filter (λ r. test r.status) db.runs)
        (All-filter (λ r. find_row r.run_id db ≡ some r) (λ r. test r.status) db.runs
          (rows-lookup run_key db.runs u))
        (filter-All (λ r. test r.status) db.runs))

-- A query that finds a row: the row stands in the table under its id, and passes.
pub select-some :
    (test : RunStatus → Bool) (db : Db) {r : RunSnapshot}
    → HasUniqueIds db
    → head? (select_runs (λ r. test r.status) db) ≡ some r
    → (find_row r.run_id db ≡ some r) × (test r.status ≡ true)
select-some test db u e =
    head-Found test db (select_runs (λ r. test r.status) db) (select-Found test db u) e

busy_is_active : (s : RunStatus) → is_busy s ≡ true → is_active s ≡ true
busy_is_active s h = ground arith

-- Where no run is active, none is busy.
pub busy_nil : (db : Db) → ids_with is_active db ≡ [] → ids_with is_busy db ≡ []
busy_nil db e =
    keys_of_weaker run_key (λ r. is_active r.status) (λ r. is_busy r.status) db.runs
      (λ r. busy_is_active r.status) e

-- A created run is the last row; its id was new.
pub create_run-ok :
    (id thread profile message : String) (status : RunStatus) (workspace : Option String) (now : ℕ)
    (db : Db) {row : RunSnapshot} {db' : Db}
    → create_run id thread profile message status workspace now db ≡ ok (row, db')
    → (db' ≡ record db { runs = db.runs ++ row ∷ [] })
      × (row.run_id ≡ id)
      × (row.status ≡ status)
      × (find_row id db ≡ none)
unfolding create_run
create_run-ok id thread profile message status workspace now db h = ground arith

module _ (db : Db) (row : RunSnapshot) (fresh : find_row row.run_id db ≡ none) where
  pub find_row-append : find_row row.run_id (record db { runs = db.runs ++ row ∷ [] }) ≡ some row
  find_row-append =
      rw (lookup-append run_key row.run_id db.runs row) (rw fresh (rw (eq_refl row.run_id)))

  pub HasUniqueIds-append :
      HasUniqueIds db → HasUniqueIds (record db { runs = db.runs ++ row ∷ [] })
  HasUniqueIds-append u = IsUnique-append run_key db.runs row u fresh

pub ids-append_in :
    (test : RunStatus → Bool) (db : Db) (row : RunSnapshot)
    → test row.status ≡ true
    → ids_with test (record db { runs = db.runs ++ row ∷ [] }) ≡ ids_with test db ++ row.run_id ∷ []
ids-append_in test db row e = keys_of-append run_key (λ r. test r.status) db.runs row ∙ rw e

pub ids-append_out :
    (test : RunStatus → Bool) (db : Db) (row : RunSnapshot)
    → test row.status ≡ false
    → ids_with test (record db { runs = db.runs ++ row ∷ [] }) ≡ ids_with test db
ids-append_out test db row e =
    keys_of-append run_key (λ r. test r.status) db.runs row ∙ rw e (append-nil _)
