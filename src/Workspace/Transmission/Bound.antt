-- ===== src/Workspace/Transmission/Bound.antt =====
-- What leaves through the gate: only the bytes that the approval names, under an approval that is held.
use exam_sage.Common.{
  ℕ, String, Bool, true, false, ◌&&◌, not, Option, none, some, List, [], ◌∷◌, find, leb, if_both,
  ◌≡◌, refl, sym, ap, ◌∙◌, arith, ◌==◌, Result, ok, err, is_ok, Error,
}
use mathlib.Core.Path.{subst}
use mathlib.Core.Option.{some-injective}
use exam_sage.Workspace.Models.{WorkspaceRecord, ManifestRevision}
use exam_sage.Workspace.Store.{Db, is_optional}
use exam_sage.Workspace.Store.Manifests.Changes.{mark_entries_changed_latest, set_inclusion}
use exam_sage.Workspace.Store.Authority.{Snapshot, hold_transmission_authority}
use exam_sage.Workspace.Store.Authority.Revoked.{set_inclusion-IsRevoked}
use exam_sage.Workspace.Transmission.{
  Refusal, Answer, ReadGrant, Gate, Reading, Attempt, RootAnchor, RevalidatedEntry, after_mark,
  mark_and_refuse, refusal_of, same_text, grant_matches, root_matches, entry_matches,
  grant_remains_authorized, read_copy, read_root, read_held, read_authorized, open_grant,
  open_approved, purge_expired, pop_grant, fail,
}

-- Where the answer allows a read, P holds of what is read.
abbrev OnAllowed : (RevalidatedEntry → Type 0) → Answer RevalidatedEntry × Gate → Type 0
OnAllowed P r = (v : RevalidatedEntry) → r.0 ≡ Answer.allowed v → P v

module _ (P : RevalidatedEntry → Type 0) where
  after_mark-refuses :
      (first : String) (refusal : Refusal) (gate : Gate) (r : Result ManifestRevision × Db)
      → OnAllowed P (after_mark first refusal gate r)
  after_mark-refuses first refusal gate (ok m, db) = λ v e. absurd (cc)
  after_mark-refuses first refusal gate (err x, db) = λ v e. absurd (cc)

  fail-refuses :
      (code : String) (w : Reading) (g : ReadGrant) (gate : Gate) → OnAllowed P (fail code w g gate)
  unfolding mark_and_refuse
  fail-refuses code w g gate = after_mark-refuses g.entry_id (refusal_of code g) gate (
      mark_entries_changed_latest w.new_revision_id g.workspace_id (g.entry_id ∷ [])
        "approved_source_changed" w.now gate.db)

allowed-injective : (a b : RevalidatedEntry) → Answer.allowed a ≡ Answer.allowed b → a ≡ b
allowed-injective a b h = ap value h
  where
    value : Answer RevalidatedEntry → RevalidatedEntry
    value (Answer.allowed x) = x
    value (Answer.refused x) = a

-- The copy has the hash of the grant.
abbrev HasHash : ReadGrant → RevalidatedEntry → Type 0
HasHash g v = is_optional v.sha256 g.sha256 ≡ true

matches-HasHash : (g : ReadGrant) (v : RevalidatedEntry) → grant_matches g v ≡ true → HasHash g v
unfolding entry_matches
matches-HasHash g v h = ground arith

read_copy-HasHash :
    (w : Reading) (g : ReadGrant) (a : Attempt RevalidatedEntry) (gate : Gate)
    → OnAllowed (HasHash g) (read_copy w g a gate)
unfolding read_copy
read_copy-HasHash w g (Attempt.open_error code) gate =
    fail-refuses (HasHash g) "approved_source_changed" w g gate
read_copy-HasHash w g (Attempt.got x) gate =
    if_both (OnAllowed (HasHash g)) (grant_matches g x) (Answer.allowed x, gate)
      (fail "approved_source_changed" w g gate)
      (λ h v e. subst (HasHash g) (allowed-injective x v e) (matches-HasHash g x h))
      (λ _. fail-refuses (HasHash g) "approved_source_changed" w g gate)

read_root-HasHash :
    (w : Reading) (g : ReadGrant) (x : WorkspaceRecord) (a : Attempt RootAnchor) (gate : Gate)
    → OnAllowed (HasHash g) (read_root w g x a gate)
unfolding read_root
read_root-HasHash w g x (Attempt.open_error code) gate =
    fail-refuses (HasHash g) "approved_source_changed" w g gate
read_root-HasHash w g x (Attempt.got v) gate =
    if_both (OnAllowed (HasHash g)) (root_matches w.same_path x v) (read_copy w g w.copied gate)
      (fail "source_root_identity_changed" w g gate) (λ _. read_copy-HasHash w g w.copied gate)
      (λ _. fail-refuses (HasHash g) "source_root_identity_changed" w g gate)

abbrev IsAuthorized : ReadGrant → Snapshot → RevalidatedEntry → Type 0
IsAuthorized g s v = (grant_remains_authorized s g ≡ true) × HasHash g v

read_held-IsAuthorized :
    (w : Reading) (g : ReadGrant) (s : Snapshot) (gate : Gate)
    → OnAllowed (IsAuthorized g s) (read_held w g s gate)
unfolding read_held
read_held-IsAuthorized w g s gate =
    if_both (OnAllowed (IsAuthorized g s)) (not (grant_remains_authorized s g)) _ _
      (λ _ v e. absurd (cc))
      (λ kept.
        if_both (OnAllowed (IsAuthorized g s))
          (not (
            same_text s.workspace.root_device g.root_device
            && same_text s.workspace.root_file_id g.root_file_id))
          (fail "source_root_identity_changed" w g gate) (read_root w g s.workspace w.anchor gate)
          (λ _. fail-refuses (IsAuthorized g s) "source_root_identity_changed" w g gate)
          (λ _ v e. (ground arith, read_root-HasHash w g s.workspace w.anchor gate v e)))

abbrev IsHeld : ReadGrant → Result Snapshot × Db → RevalidatedEntry → Type 0
IsHeld g r v = (s : Snapshot) × (r.0 ≡ ok s) × IsAuthorized g s v

read_authorized-IsHeld :
    (w : Reading) (g : ReadGrant) (r : Result Snapshot × Db) (gate : Gate)
    → OnAllowed (IsHeld g r) (read_authorized w g r gate)
unfolding read_authorized
read_authorized-IsHeld w g (ok s, db) gate =
    λ v e. (s, refl, read_held-IsAuthorized w g s (record gate { db = db }) v e)
read_authorized-IsHeld w g (err Error.authority_revoked, db) gate = λ v e. absurd (cc)
read_authorized-IsHeld w g (err x, db) gate = λ v e. absurd (cc)

abbrev held_for : ReadGrant → Db → Result Snapshot × Db
held_for g db = hold_transmission_authority g.workspace_id g.approval_id g.revision_id none db

abbrev IsGranted : Reading → Option ReadGrant → Db → RevalidatedEntry → Type 0
IsGranted w o db v =
    (g : ReadGrant) × (o ≡ some g)
    × (leb g.expires_at w.consumed_at ≡ false)
    × IsHeld g (held_for g db) v

open_grant-IsGranted :
    (w : Reading) (o : Option ReadGrant) (gate : Gate)
    → OnAllowed (IsGranted w o gate.db) (open_grant w o gate)
unfolding open_grant
open_grant-IsGranted w none gate = λ v e. absurd (cc)
open_grant-IsGranted w (some g) gate =
    if_both (OnAllowed (IsGranted w (some g) gate.db)) (leb g.expires_at w.consumed_at) _ _
      (λ _ v e. absurd (cc))
      (λ live v e. (g, refl, live, read_authorized-IsHeld w g (held_for g gate.db) gate v e))

-- Where open_approved allows a read, the token has a grant that is not expired, its approval can be
-- held at that moment, the held snapshot still approves the entry of the grant with the hash of the
-- grant, and the copied bytes have that hash.
pub open_approved-IsApproved :
    (w : Reading) (token : String) (gate : Gate) {v : RevalidatedEntry}
    → (open_approved w token gate).0 ≡ Answer.allowed v
    → (g : ReadGrant) × (find (λ x. x.token == token) gate.read_grants ≡ some g)
      × (leb g.expires_at w.consumed_at ≡ false)
      × (s : Snapshot) × ((hold_transmission_authority g.workspace_id g.approval_id g.revision_id
            none gate.db).0
          ≡ ok s)
      × (grant_remains_authorized s g ≡ true)
      × (is_optional v.sha256 g.sha256 ≡ true)
unfolding open_approved
open_approved-IsApproved w token gate {v} e =
    let (g, found, live, (s, held, (kept, same))) =
      open_grant-IsGranted w (find (λ x. x.token == token) gate.read_grants)
        (record gate {
          read_grants = purge_expired w.consumed_at (pop_grant token gate.read_grants);
        })
        v e in
    (g, found, live, s, held, kept, same)

-- On the database that a successful set_inclusion leaves, the gate allows no read with the token
-- of a grant of the workspace, whatever the clock, the file system and the other grants.
pub set_inclusion-closes_gate :
    (new workspace_id r : String) (ids : List String) (included : Bool) (now : ℕ) (db : Db)
    {m : ManifestRevision}
    → (set_inclusion new workspace_id r ids included now db).0 ≡ ok m
    → (w : Reading) (token : String) (grants : List ReadGrant) (g : ReadGrant)
    → find (λ x. x.token == token) grants ≡ some g
    → g.workspace_id ≡ workspace_id
    → (v : RevalidatedEntry)
    → ¬ (
        (open_approved w token (record {
          db = (set_inclusion new workspace_id r ids included now db).1;
          read_grants = grants;
        })).0
        ≡ Answer.allowed v)
set_inclusion-closes_gate new workspace_id r ids included now db h w token grants g found own v e =
    let after = (set_inclusion new workspace_id r ids included now db).1 in
    let (k, taken, live, s, held, kept, same) =
      open_approved-IsApproved w token (record { db = after; read_grants = grants }) e in
    let owner : k.workspace_id ≡ workspace_id =
      ap (λ x. x.workspace_id) (some-injective k g (sym taken ∙ found)) ∙ own in
    let open_now = ap is_ok held in
    let closed =
      subst
        (λ x.
          is_ok (hold_transmission_authority x k.approval_id k.revision_id none after).0 ≡ false)
        (sym owner)
        (set_inclusion-IsRevoked new workspace_id r ids included now db h k.approval_id
          k.revision_id none) in
    absurd (let clash : true ≡ false = sym open_now ∙ closed in cc)
