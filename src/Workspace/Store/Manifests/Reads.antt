-- ===== src/Workspace/Store/Manifests/Reads.antt =====
-- What _revision reads.
use exam_sage.Common.{
  String, Bool, true, ◌&&◌, none, some, List, [], ◌∷◌, find, ◌≡◌, refl, ap, sym, arith, ok, ◌==◌,
  eq_iff, not_found, Option-cases, inl, inr, ◌∙◌, err, ok-injective,
}
use exam_sage.Workspace.Models.{ManifestRevision}
use exam_sage.Workspace.Store.{Db, RevisionRow}
use exam_sage.Workspace.Store.Manifests.{revision, find_revision, entries_of}

pub revision_same : (w r : String) (db : Db) → (revision w r db).1 ≡ db
unfolding revision
revision_same w r db = ground arith

find-passed {ℓ} :
    {A : Type ℓ} (p : A → Bool) (xs : List A) {x : A} → find p xs ≡ some x → p x ≡ true
find-passed p [] h = absurd (cc)
find-passed p (y ∷ ys) {x} h = ground (arith, find-passed p ys {x = x})

-- The revision that is found has the id that was asked for.
pub find_revision-id :
    (w r : String) (db : Db) {row : RevisionRow}
    → find_revision w r db ≡ some row
    → row.revision_id ≡ r
find_revision-id w r db {row} h = ground (
  arith,
  find-passed (λ x. x.workspace_id == w && x.revision_id == r) db.revisions h,
  eq_iff row.revision_id r,
)

-- The manifest of a row
abbrev pub manifest_of : (w r : String) → Db → RevisionRow → ManifestRevision
manifest_of w r db row = record {
  revision_id = row.revision_id;
  workspace_id = row.workspace_id;
  parent_revision_id = row.parent_revision_id;
  scan_job_id = row.scan_job_id;
  policy_version = row.policy_version;
  entries = entries_of w r db;
  created_at = row.created_at;
}

pub revision-found :
    (w r : String) (db : Db) {row : RevisionRow}
    → find_revision w r db ≡ some row
    → revision w r db ≡ (ok (manifest_of w r db row), db)
unfolding revision
revision-found w r db h = rw h refl

revision-missing :
    (w r : String) (db : Db) → find_revision w r db ≡ none → (revision w r db).0 ≡ err not_found
unfolding revision
revision-missing w r db h = rw h refl

pub revision-passed :
    (w r : String) (db : Db) {m : ManifestRevision}
    → (revision w r db).0 ≡ ok m
    → (row : RevisionRow) × (find_revision w r db ≡ some row) × (m ≡ manifest_of w r db row)
revision-passed w r db {m} h = elim (Option-cases (find_revision w r db)) [
  | inl e ↦ absurd (let clash = sym h ∙ revision-missing w r db e in cc)
  | inr (row, e) ↦ (row, e, ok-injective (sym h ∙ ap (λ p. p.0) (revision-found w r db e)))
]
