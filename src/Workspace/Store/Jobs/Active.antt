-- ===== src/Workspace/Store/Jobs/Active.antt =====
-- What a write may do to the jobs, and that it leaves a workspace at most one queued or running job.
use exam_sage.Common.{
  ◌≤◌, ◌+◌, String, Bool, true, false, ◌&&◌, not, none, some, List, [], ◌∷◌, ◌++◌, any, count,
  filter, ◌≡◌, refl, sym, arith, ◌==◌, eq_iff,
}
use exam_sage.Common.Table.{
  lookup, update, IsUnique, IsUnique-append, IsUnique-update, IsUnique-filter, lookup-append,
  lookup-update,
}
use exam_sage.Workspace.Models.{JobStatus, WorkspaceJob}
use exam_sage.Workspace.Store.{job_key, is_active, is_active_in, is_allowed, is_terminal}

abbrev pub outside : String → WorkspaceJob → Bool
outside workspace_id j = not (j.workspace_id == workspace_id)

-- A change of status that the program makes: an allowed one, or a restart of a running job.
abbrev pub is_change : JobStatus → JobStatus → Bool
is_change JobStatus.running JobStatus.queued = true
is_change s t = is_allowed s t

-- The writes to workspace_jobs: a row is added, which is the only active one of its workspace if it
-- is active; the status of an active row changes.
pub data Steps : List WorkspaceJob → List WorkspaceJob → Type 0 where
  stay : {js ks : List WorkspaceJob} → ks ≡ js → Steps js ks
  add :
      {js ks : List WorkspaceJob} (job : WorkspaceJob)
      → lookup job_key job.job_id js ≡ none
      → (is_active job.status && any (is_active_in job.workspace_id) js) ≡ false
      → ks ≡ js ++ job ∷ []
      → Steps js ks
  move :
      {js ks : List WorkspaceJob} (id : String) (f : WorkspaceJob → WorkspaceJob) {j : WorkspaceJob}
      → lookup job_key id js ≡ some j
      → is_change j.status (f j).status ≡ true
      → ((x : WorkspaceJob) → job_key (f x) ≡ job_key x)
      → ((x : WorkspaceJob) → (f x).workspace_id ≡ x.workspace_id)
      → ks ≡ update job_key id f js
      → Steps js ks
  both : {js ks ls : List WorkspaceJob} → Steps js ks → Steps ks ls → Steps js ls

count-append :
    (p : WorkspaceJob → Bool) (xs ys : List WorkspaceJob)
    → count p (xs ++ ys) ≡ count p xs + count p ys
count-append p [] ys = omega arith
count-append p (x ∷ xs) ys = ground (arith, count-append p xs ys)

any-count : (p : WorkspaceJob → Bool) (xs : List WorkspaceJob) → any p xs ≡ false → count p xs ≡ 0
any-count p [] h = refl
any-count p (x ∷ xs) h = ground (arith, any-count p xs)

count-filter_le :
    (p q : WorkspaceJob → Bool) (xs : List WorkspaceJob) → count p (filter q xs) ≤ count p xs
count-filter_le p q [] = omega arith
count-filter_le p q (x ∷ xs) = ground (arith, count-filter_le p q xs)

count-update_le :
    (p : WorkspaceJob → Bool) (id : String) (f : WorkspaceJob → WorkspaceJob)
    (xs : List WorkspaceJob) {j : WorkspaceJob}
    → lookup job_key id xs ≡ some j
    → (p (f j) ≡ true → p j ≡ true)
    → count p (update job_key id f xs) ≤ count p xs
unfolding lookup update
count-update_le p id f [] h k = omega arith
count-update_le p id f (x ∷ xs) {j} h k = ground (arith, count-update_le p id f xs {j = j})

-- At most one job of a workspace is queued or running.
abbrev pub IsSingle : List WorkspaceJob → Type 0
IsSingle js = (w : String) → count (is_active_in w) js ≤ 1

is_change-active : (s t : JobStatus) → is_change s t ≡ true → is_active s ≡ true
is_change-active JobStatus.queued t h = refl
is_change-active JobStatus.running t h = refl
is_change-active JobStatus.succeeded t h = absurd (cc)
is_change-active JobStatus.failed t h = absurd (cc)
is_change-active JobStatus.cancelled t h = absurd (cc)

single_added :
    (js : List WorkspaceJob) (job : WorkspaceJob) (w : String)
    → (is_active job.status && any (is_active_in job.workspace_id) js) ≡ false
    → count (is_active_in w) js ≤ 1
    → count (is_active_in w) (js ++ job ∷ []) ≤ 1
single_added js job w clash h = ground (
  arith,
  count-append (is_active_in w) js (job ∷ []),
  any-count (is_active_in job.workspace_id) js,
  eq_iff job.workspace_id w,
)

single_moved :
    (js : List WorkspaceJob) (id : String) (f : WorkspaceJob → WorkspaceJob) (w : String)
    {j : WorkspaceJob}
    → lookup job_key id js ≡ some j
    → is_change j.status (f j).status ≡ true
    → ((x : WorkspaceJob) → (f x).workspace_id ≡ x.workspace_id)
    → count (is_active_in w) (update job_key id f js) ≤ count (is_active_in w) js
single_moved js id f w {j} found ch work =
    count-update_le (is_active_in w) id f js found
      (λ h. rw (sym (work j)) (ground (arith, is_change-active j.status (f j).status ch)))

-- A write keeps that at most one job of each workspace is queued or running.
pub Steps-IsSingle : {js ks : List WorkspaceJob} → Steps js ks → IsSingle js → IsSingle ks
Steps-IsSingle (Steps.stay e) h = λ w. rw e (h w)
Steps-IsSingle {js} (Steps.add job new clash e) h = λ w. rw e (single_added js job w clash (h w))
Steps-IsSingle {js} (Steps.move id f found ch key work e) h =
    λ w. rw e (omega (arith, h w, single_moved js id f w found ch work))
Steps-IsSingle (Steps.both s t) h = Steps-IsSingle t (Steps-IsSingle s h)

-- Job ids stay unique.
pub Steps-IsUnique :
    {js ks : List WorkspaceJob} → Steps js ks → IsUnique job_key js → IsUnique job_key ks
Steps-IsUnique (Steps.stay e) h = rw e h
Steps-IsUnique {js} (Steps.add job new clash e) h = rw e (IsUnique-append job_key js job h new)
Steps-IsUnique {js} (Steps.move id f found ch key work e) h =
    rw e (IsUnique-update job_key id f js key h)
Steps-IsUnique (Steps.both s t) h = Steps-IsUnique t (Steps-IsUnique s h)

change-not_terminal : (s t : JobStatus) → is_change s t ≡ true → is_terminal s ≡ false
change-not_terminal JobStatus.queued t h = refl
change-not_terminal JobStatus.running t h = refl
change-not_terminal JobStatus.succeeded t h = absurd (cc)
change-not_terminal JobStatus.failed t h = absurd (cc)
change-not_terminal JobStatus.cancelled t h = absurd (cc)

-- A row with a terminal status is not written again.
pub Steps-keeps_terminal :
    {js ks : List WorkspaceJob}
    → Steps js ks
    → (id : String) {j : WorkspaceJob} → lookup job_key id js ≡ some j
    → is_terminal j.status ≡ true
    → lookup job_key id ks ≡ some j
Steps-keeps_terminal (Steps.stay e) id found h = rw e found
Steps-keeps_terminal {js} (Steps.add job new clash e) id found h =
    rw (e, lookup-append job_key id js job) (rw found refl)
Steps-keeps_terminal {js} (Steps.move i f {j = k} found_i ch key work e) id {j} found h =
    rw (e, lookup-update job_key i id f js key)
      (ground (arith, found_i, found, eq_iff i id, change-not_terminal k.status (f k).status ch, h))
Steps-keeps_terminal (Steps.both s t) id found h =
    Steps-keeps_terminal t id (Steps-keeps_terminal s id found h) h

-- Deleting the rows of a workspace keeps both.
module _ (v : String) (js : List WorkspaceJob) where
  pub outside-IsSingle : IsSingle js → IsSingle (filter (outside v) js)
  outside-IsSingle h = λ w. omega (arith, h w, count-filter_le (is_active_in w) (outside v) js)

  pub outside-IsUnique : IsUnique job_key js → IsUnique job_key (filter (outside v) js)
  outside-IsUnique h = IsUnique-filter job_key (outside v) js h
