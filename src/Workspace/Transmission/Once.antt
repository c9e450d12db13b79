-- ===== src/Workspace/Transmission/Once.antt =====
-- A read token can be used once.
use exam_sage.Common.{
  ℕ, String, Bool, false, ◌&&◌, not, Option, none, some, List, [], ◌∷◌, any, find, leb, if_both,
  ◌≡◌, refl, ap, ◌∙◌, arith, ◌==◌, Result, ok, err, Error,
}
use exam_sage.Workspace.Models.{WorkspaceRecord, ManifestRevision}
use exam_sage.Workspace.Store.{Db}
use exam_sage.Workspace.Store.Manifests.Changes.{mark_entries_changed_latest}
use exam_sage.Workspace.Store.Authority.{Snapshot, hold_transmission_authority}
use exam_sage.Workspace.Transmission.{
  Refusal, Answer, ReadGrant, Gate, Reading, Attempt, RootAnchor, RevalidatedEntry, after_mark,
  mark_and_refuse, refusal_of, same_text, grant_matches, root_matches, grant_remains_authorized,
  read_copy, read_root, read_held, read_authorized, open_grant, open_approved, purge_expired,
  pop_grant, fail,
}

-- The grants are as they were.
abbrev Kept : {A : Type 0} → Gate → Answer A × Gate → Type 0
Kept gate r = r.1.read_grants ≡ gate.read_grants

after_mark-Kept :
    (first : String) (refusal : Refusal) (gate : Gate) (r : Result ManifestRevision × Db)
    → Kept {A = RevalidatedEntry} gate (after_mark first refusal gate r)
after_mark-Kept first refusal gate (ok m, db) = refl
after_mark-Kept first refusal gate (err e, db) = refl

fail-Kept :
    (code : String) (w : Reading) (g : ReadGrant) (gate : Gate)
    → Kept {A = RevalidatedEntry} gate (fail code w g gate)
unfolding mark_and_refuse
fail-Kept code w g gate = after_mark-Kept g.entry_id (refusal_of code g) gate (
    mark_entries_changed_latest w.new_revision_id g.workspace_id (g.entry_id ∷ [])
      "approved_source_changed" w.now gate.db)

read_copy-Kept :
    (w : Reading) (g : ReadGrant) (a : Attempt RevalidatedEntry) (gate : Gate)
    → Kept gate (read_copy w g a gate)
unfolding read_copy
read_copy-Kept w g (Attempt.open_error code) gate = fail-Kept "approved_source_changed" w g gate
read_copy-Kept w g (Attempt.got v) gate =
    if_both (Kept gate) (grant_matches g v) (Answer.allowed v, gate)
      (fail "approved_source_changed" w g gate) (λ _. refl)
      (λ _. fail-Kept "approved_source_changed" w g gate)

read_root-Kept :
    (w : Reading) (g : ReadGrant) (x : WorkspaceRecord) (a : Attempt RootAnchor) (gate : Gate)
    → Kept gate (read_root w g x a gate)
unfolding read_root
read_root-Kept w g x (Attempt.open_error code) gate = fail-Kept "approved_source_changed" w g gate
read_root-Kept w g x (Attempt.got v) gate =
    if_both (Kept gate) (root_matches w.same_path x v) (read_copy w g w.copied gate)
      (fail "source_root_identity_changed" w g gate) (λ _. read_copy-Kept w g w.copied gate)
      (λ _. fail-Kept "source_root_identity_changed" w g gate)

read_held-Kept :
    (w : Reading) (g : ReadGrant) (s : Snapshot) (gate : Gate) → Kept gate (read_held w g s gate)
unfolding read_held
read_held-Kept w g s gate =
    if_both (Kept gate) (not (grant_remains_authorized s g)) _ _ (λ _. refl)
      (λ _.
        if_both (Kept gate)
          (not (
            same_text s.workspace.root_device g.root_device
            && same_text s.workspace.root_file_id g.root_file_id))
          (fail "source_root_identity_changed" w g gate) (read_root w g s.workspace w.anchor gate)
          (λ _. fail-Kept "source_root_identity_changed" w g gate)
          (λ _. read_root-Kept w g s.workspace w.anchor gate))

read_authorized-Kept :
    (w : Reading) (g : ReadGrant) (r : Result Snapshot × Db) (gate : Gate)
    → Kept gate (read_authorized w g r gate)
unfolding read_authorized
read_authorized-Kept w g (ok s, db) gate = read_held-Kept w g s (record gate { db = db })
read_authorized-Kept w g (err Error.authority_revoked, db) gate = refl
read_authorized-Kept w g (err e, db) gate = refl

open_grant-Kept :
    (w : Reading) (o : Option ReadGrant) (gate : Gate) → Kept gate (open_grant w o gate)
unfolding open_grant
open_grant-Kept w none gate = refl
open_grant-Kept w (some g) gate =
    if_both (Kept gate) (leb g.expires_at w.consumed_at) _ _ (λ _. refl)
      (λ _.
        read_authorized-Kept w g
          (hold_transmission_authority g.workspace_id g.approval_id g.revision_id none gate.db)
          gate)

popped :
    (token : String) (gs : List ReadGrant)
    → any (λ g. g.token == token) (pop_grant token gs) ≡ false
unfolding pop_grant
popped token [] = refl
popped token (g ∷ gs) = ground (arith, popped token gs)

purged :
    (p : ReadGrant → Bool) (now : ℕ) (gs : List ReadGrant)
    → any p gs ≡ false
    → any p (purge_expired now gs) ≡ false
unfolding purge_expired
purged p now [] h = refl
purged p now (g ∷ gs) h = ground (arith, purged p now gs)

-- A token is used up by open_approved, whether it allows the read or refuses it: no
-- grant with the token is left.
pub open_approved-uses_up :
    (w : Reading) (token : String) (gate : Gate)
    → any (λ g. g.token == token) (open_approved w token gate).1.read_grants ≡ false
unfolding open_approved
open_approved-uses_up w token gate =
    ap (any (λ g. g.token == token)) (
      open_grant-Kept w (find (λ g. g.token == token) gate.read_grants) (record gate {
        read_grants = purge_expired w.consumed_at (pop_grant token gate.read_grants);
      }))
    ∙ purged (λ g. g.token == token) w.consumed_at (pop_grant token gate.read_grants)
        (popped token gate.read_grants)
