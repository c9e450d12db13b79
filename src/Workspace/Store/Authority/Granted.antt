-- ===== src/Workspace/Store/Authority/Granted.antt =====
-- What an approval grants: it can be held, and it names every selected file with its hash.
use mathlib.Core.Path.{subst}
use mathlib.Core.Option.{some-injective}
use exam_sage.Common.{
  ℕ, ◌≤◌, String, true, false, not, Option, none, some, List, [], ◌∷◌, ◌++◌, filter, map, any, leb,
  get_or, ◌≡◌, refl, sym, ap, ◌∙◌, arith, ◌==◌, eq_refl, All, All-filter, filter-append, if_both,
  ok, is_ok, ensure, OnOk, OnOk-bind, OnOk-check, OnOk-transaction, ok-injective, is_ok-transaction,
  ensure_same, ensure_passed, not-true, or_raise_same, or_raise_passed, not_found, stale,
  invalid_approval, integrity_error,
}
use exam_sage.Common.Table.{lookup-update}
use exam_sage.Workspace.Models.{ManifestEntry, ApprovalRecord}
use exam_sage.Workspace.Store.{
  Db, WorkspaceRow, RevisionRow, workspace_key, find_workspace, workspace_row, update_workspace,
  is_optional,
}
use exam_sage.Workspace.Store.Manifests.{revision, find_revision, entries_of}
use exam_sage.Workspace.Store.Manifests.Reads.{
  revision_same, revision-found, revision-passed, manifest_of, find_revision-id,
}
use exam_sage.Workspace.Store.Manifests.Changes.{
  approve, approve_body, approval_of, approved_workspace, insert_approval, blocks_approval,
  approve_row,
}
use exam_sage.Workspace.Store.Authority.{
  latest, approves, latest_approval, snapshot_with, snapshot_at, snapshot_of, snapshot, hold_body,
  hold_transmission_authority, is_approved,
}

abbrev NoLater : ApprovalRecord → ApprovalRecord → Type 0
NoLater a b = b.approved_at ≤ a.approved_at

latest-append :
    (best : Option ApprovalRecord) (xs : List ApprovalRecord) (a : ApprovalRecord)
    → ((b : ApprovalRecord) → best ≡ some b → NoLater a b)
    → All (NoLater a) xs
    → latest best (xs ++ a ∷ []) ≡ some a
unfolding latest
latest-append none [] a h hs = refl
latest-append (some b) [] a h hs = let le = h b refl in ground arith
latest-append none (x ∷ xs) a h hs =
    latest-append (some x) xs a (λ b e. subst (NoLater a) (some-injective x b e) hs.0) hs.1
latest-append (some b) (x ∷ xs) a h hs =
    if_both (λ o. o ≡ some a) (leb b.approved_at x.approved_at) (latest (some x) (xs ++ a ∷ []))
      (latest (some b) (xs ++ a ∷ []))
      (λ _. latest-append (some x) xs a (λ c e. subst (NoLater a) (some-injective x c e) hs.0) hs.1)
      (λ _. latest-append (some b) xs a h hs.1)

-- The new approval is the latest one, if none has a later time.
latest_approval-append :
    (w r : String) (xs : List ApprovalRecord) (a : ApprovalRecord)
    → approves w r a ≡ true
    → All (NoLater a) xs
    → latest none (filter (approves w r) (xs ++ a ∷ [])) ≡ some a
latest_approval-append w r xs a h hs =
    rw (filter-append (approves w r) xs (a ∷ []), h)
      (latest-append none (filter (approves w r) xs) a (λ b e. absurd (cc))
        (All-filter (NoLater a) (approves w r) xs hs))

module _ (w r : String) (s : Db) {row : WorkspaceRow} {a : ApprovalRecord} {v : RevisionRow}
    (found : find_workspace w s ≡ some row)
    (current : row.workspace.current_approved_revision_id ≡ some r)
    (approved : latest_approval w r s ≡ some a) (stored : find_revision w r s ≡ some v) where
  snapshot_with-found : snapshot_with w r row (some a) s ≡ (
    ok (
        some (record {
          workspace = row.workspace;
          approval = some a;
          revision = some (manifest_of w r s v);
        })),
    s,
  )
  unfolding snapshot_with
  snapshot_with-found = rw (revision-found w r s stored) refl

  snapshot-found : snapshot w s ≡ (
    ok (
        some (record {
          workspace = row.workspace;
          approval = some a;
          revision = some (manifest_of w r s v);
        })),
    s,
  )
  unfolding snapshot snapshot_of snapshot_at
  snapshot-found =
      ap (λ o. snapshot_of w o s) found
      ∙ ap (λ o. snapshot_at w row o s) current
      ∙ ap (λ o. snapshot_with w r row o s) approved
      ∙ snapshot_with-found

  hold-succeeds :
      (t : Option ℕ)
      → is_approved row.workspace.state ≡ true
      → is_optional row.workspace.current_draft_revision_id r ≡ true
      → a.revision_id ≡ r
      → is_ok (hold_transmission_authority w a.approval_id r t s).0 ≡ true
  unfolding hold_transmission_authority hold_body
  hold-succeeds t state draft named =
      is_ok-transaction (hold_body w a.approval_id r t) s
      ∙ rw
          (
            snapshot-found,
            state,
            draft,
            current,
            eq_refl a.approval_id,
            named,
            find_revision-id w r s stored,
            eq_refl r,
          )
          refl

insert_approval-adds :
    (a : ApprovalRecord) (db : Db)
    → OnOk (λ _ s. s ≡ record db { approvals = db.approvals ++ a ∷ [] }) (insert_approval a db)
unfolding insert_approval
insert_approval-adds a db =
    OnOk-check (λ _ s. s ≡ record db { approvals = db.approvals ++ a ∷ [] })
      (ensure (not (any (λ b. b.approval_id == a.approval_id) db.approvals)) integrity_error) _ db
      (ensure_same _ integrity_error db) (λ _ _. λ _ _. refl)

-- The database after the writes of approve
abbrev pub granted : (w r : String) → (t : Option ℕ) → (now : ℕ) → List ManifestEntry → Db → Db
granted w r t now es db =
    update_workspace w (approved_workspace r t now)
      (record db { entries = map (approve_row r (filter (λ e. e.included) es)) db.entries })

module _ (aid w r policy : String) (t : Option ℕ) (now : ℕ) (db : Db) where
  abbrev pub IsGranted : ApprovalRecord → Db → Type 0
  IsGranted a s =
      (row : WorkspaceRow) × (v : RevisionRow) × (find_workspace w db ≡ some row)
      × (is_optional row.workspace.current_draft_revision_id r ≡ true)
      × (find_revision w r db ≡ some v)
      × (any blocks_approval (filter (λ e. e.included) (entries_of w r db)) ≡ false)
      × (a ≡ approval_of aid w r policy (get_or t now) (entries_of w r db))
      × (s
          ≡ granted w r t now (entries_of w r db)
              (record db { approvals = db.approvals ++ a ∷ [] }))

  pub approve_body-IsGranted : OnOk IsGranted (approve_body aid w r policy t now db)
  unfolding approve_body
  approve_body-IsGranted =
      OnOk-check IsGranted (workspace_row w) _ db (or_raise_same not_found (find_workspace w db) db)
        (λ row found.
          OnOk-check IsGranted
            (ensure (is_optional row.workspace.current_draft_revision_id r) stale) _ db
            (ensure_same _ stale db)
            (λ _ draft. OnOk-check IsGranted (revision w r) _ db (revision_same w r db) (λ m read.
              OnOk-check IsGranted (ensure (m.policy_version == policy) invalid_approval) _ db
                (ensure_same _ invalid_approval db)
                (λ _ _.
                  OnOk-check IsGranted
                    (ensure (not (any blocks_approval (filter (λ e. e.included) m.entries)))
                      invalid_approval)
                    _ db (ensure_same _ invalid_approval db)
                    (λ _ clear.
                      OnOk-bind IsGranted
                        (insert_approval (approval_of aid w r policy (get_or t now) m.entries)) _ db
                        (λ _ inserted. λ a e.
                          let (v, stored, shape) = revision-passed w r db read in
                          let same = ap (λ x. x.entries) shape in
                          let made =
                            sym (ok-injective e)
                            ∙ ap (approval_of aid w r policy (get_or t now)) same in
                          let added =
                            insert_approval-adds
                              (approval_of aid w r policy (get_or t now) m.entries) db tt
                              inserted in
                          (
                            row,
                            v,
                            or_raise_passed not_found (find_workspace w db) db found,
                            ensure_passed _ stale db draft,
                            stored,
                            subst (λ es. any blocks_approval (filter (λ e. e.included) es) ≡ false)
                                same (not-true (ensure_passed _ invalid_approval db clear)),
                            made,
                            ap (granted w r t now m.entries) added
                                ∙ ap
                                    (λ es. granted w r t now es (record db {
                                      approvals =
                                          db.approvals
                                          ++ approval_of aid w r policy (get_or t now) m.entries
                                            ∷ [];
                                    }))
                                    same
                                ∙ ap
                                    (λ b.
                                      granted w r t now (entries_of w r db)
                                        (record db { approvals = db.approvals ++ b ∷ [] }))
                                    (ok-injective e),
                          )))))))

  module _ {row : WorkspaceRow} {v : RevisionRow} (found : find_workspace w db ≡ some row)
      (draft : is_optional row.workspace.current_draft_revision_id r ≡ true)
      (stored : find_revision w r db ≡ some v) (es : List ManifestEntry)
      (earlier : All (λ b. b.approved_at ≤ get_or t now) db.approvals)
      (verified_at : Option ℕ) where
    abbrev approval : ApprovalRecord
    approval = approval_of aid w r policy (get_or t now) es

    abbrev after : Db
    after = granted w r t now es (record db { approvals = db.approvals ++ approval ∷ [] })

    abbrev approved_row : WorkspaceRow
    approved_row = record row { workspace = approved_workspace r t now row.workspace }

    approved_row-found : find_workspace w after ≡ some approved_row
    approved_row-found =
        rw
          (
            lookup-update workspace_key w w
                (λ x. record x { workspace = approved_workspace r t now x.workspace }) db.workspaces
                (λ x. refl),
            eq_refl w,
            found,
          )
          refl

    approval-latest : latest_approval w r after ≡ some approval
    unfolding latest_approval approval_of
    approval-latest =
        latest_approval-append w r db.approvals approval (rw (eq_refl w, eq_refl r) refl) earlier

    granted-held : is_ok (hold_transmission_authority w aid r verified_at after).0 ≡ true
    unfolding approval_of
    granted-held =
        hold-succeeds w r after {row = approved_row} {a = approval} {v = v} approved_row-found refl
          approval-latest stored verified_at refl draft refl

  -- On the database that a successful approve leaves, hold_transmission_authority succeeds with
  -- the id and the revision of the approval, where no approval before it has a later time.
  pub approve-IsHeld :
      {a : ApprovalRecord}
      → (approve aid w r policy t now db).0 ≡ ok a
      → All (λ b. b.approved_at ≤ get_or t now) db.approvals
      → (verified_at : Option ℕ)
      → is_ok
          (hold_transmission_authority w aid r verified_at (approve aid w r policy t now db).1).0
        ≡ true
  unfolding approve
  approve-IsHeld {a} e earlier verified_at =
      let (row, v, found, draft, stored, clear, made, after) =
        OnOk-transaction IsGranted (approve_body aid w r policy t now) db approve_body-IsGranted a
          e in
      subst (λ s. is_ok (hold_transmission_authority w aid r verified_at s).0 ≡ true) (sym after)
        (subst
          (λ b.
            is_ok
              (hold_transmission_authority w aid r verified_at (
                granted w r t now (entries_of w r db)
                  (record db { approvals = db.approvals ++ b ∷ [] }))).0
            ≡ true)
          (sym made) (granted-held found draft stored (entries_of w r db) earlier verified_at))
