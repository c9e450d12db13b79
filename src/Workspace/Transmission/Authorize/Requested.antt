-- ===== src/Workspace/Transmission/Authorize/Requested.antt =====
-- A request that is allowed gets one source for each requested id, in its order.
use exam_sage.Common.{
  String, Bool, true, ◌||◌, not, Option, none, some, List, [], ◌∷◌, map, if_both, ◌≡◌, refl, sym,
  ap, ◌∙◌, arith, ◌==◌, eq_iff, Result, ok, err, Error,
}
use exam_sage.Workspace.Models.{
  ManifestEntry, ManifestRevision, ApprovedEntryHash, ApprovalRecord, WorkspaceRecord,
}
use exam_sage.Workspace.Store.{Db, is_optional}
use exam_sage.Workspace.Store.Manifests.{default_policy_version}
use exam_sage.Workspace.Store.Manifests.Changes.{mark_entries_changed_latest}
use exam_sage.Workspace.Store.Authority.{
  Snapshot, transmission_authority_snapshot, hold_transmission_authority, is_approved,
}
use exam_sage.Workspace.Transmission.{
  Refusal, Answer, ReadGrant, Gate, purge_expired, mark_and_refuse, after_mark,
}
use exam_sage.Workspace.Transmission.Authorize.{
  Validation, Request, ApprovedSource, Selected, Check, last_with, has_repeats, first_of,
  select_one, add_selected, select_all, entry_of, source_of, grant_of, publish_held, check_sources,
  issue, check_selected, check_authority, check_snapshot, authorize, is_plain_source, is_empty,
}

last_with-passed {ℓ} :
    {A : Type ℓ} (p : A → Bool) (xs : List A) {x : A} → last_with p xs ≡ some x → p x ≡ true
unfolding last_with
last_with-passed p [] h = absurd (cc)
last_with-passed p (y ∷ ys) {x} h = ground (arith, last_with-passed p ys {x = x})

allowed-injective : {A : Type 0} {a b : A} → Answer.allowed a ≡ Answer.allowed b → a ≡ b
allowed-injective {A} {a} h = ap value h
  where
    value : Answer A → A
    value (Answer.allowed x) = x
    value (Answer.refused x) = a

-- Where the answer is a value, P holds of it.
abbrev OnAllowed : {A : Type 0} → (A → Type 0) → Answer A → Type 0
OnAllowed {A} P x = (a : A) → x ≡ Answer.allowed a → P a

select_one-entry :
    (w id : String) (e : Option ManifestEntry) (h : Option ApprovedEntryHash)
    → ((x : ManifestEntry) → e ≡ some x → x.entry_id ≡ id)
    → OnAllowed (λ s. entry_of s ≡ id) (select_one w id e h)
unfolding select_one
select_one-entry w id none h own = λ s k. absurd (cc)
select_one-entry w id (some e) none own = λ s k. absurd (cc)
select_one-entry w id (some e) (some h) own =
    if_both (OnAllowed (λ s. entry_of s ≡ id)) (not (is_optional e.sha256 h.sha256)) _ _
      (λ _ s k. absurd (cc))
      (λ _.
        if_both (OnAllowed (λ s. entry_of s ≡ id)) (not (is_plain_source e)) _
          (Answer.allowed (e, h.sha256)) (λ _ s k. absurd (cc))
          (λ _ s k. sym (ap entry_of (allowed-injective k)) ∙ own e refl))

add_selected-ids :
    (id : String) (ids : List String) (x : Answer (ManifestEntry × String)) (rest : Answer Selected)
    → OnAllowed (λ s. entry_of s ≡ id) x
    → OnAllowed (λ ss. map entry_of ss ≡ ids) rest
    → OnAllowed (λ ss. map entry_of ss ≡ id ∷ ids) (add_selected x rest)
add_selected-ids id ids (Answer.refused f) rest h hs = λ ss k. absurd (cc)
add_selected-ids id ids (Answer.allowed s) (Answer.refused f) h hs = λ ss k. absurd (cc)
add_selected-ids id ids (Answer.allowed s) (Answer.allowed ss) h hs =
    λ all k. sym (ap (map entry_of) (allowed-injective k)) ∙ cons_both (h s refl) (hs ss refl)
  where
    cons_both : {a b : String} {us vs : List String} → a ≡ b → us ≡ vs → a ∷ us ≡ b ∷ vs
    cons_both p q = rw (p, q) refl

select_all-ids :
    (w : String) (r : ManifestRevision) (a : ApprovalRecord) (ids : List String)
    → OnAllowed (λ ss. map entry_of ss ≡ ids) (select_all w r a ids)
unfolding select_all
select_all-ids w r a [] = λ ss k. sym (ap (map entry_of) (allowed-injective k))
select_all-ids w r a (id ∷ ids) =
    add_selected-ids id ids
      (select_one w id (last_with (λ e. e.entry_id == id) r.entries)
        (last_with (λ h. h.entry_id == id) a.entries))
      (select_all w r a ids)
      (select_one-entry w id (last_with (λ e. e.entry_id == id) r.entries)
        (last_with (λ h. h.entry_id == id) a.entries)
        (λ x k. (eq_iff x.entry_id id).0 (last_with-passed (λ e. e.entry_id == id) r.entries k)))
      (select_all-ids w r a ids)

sources-entries :
    (q : Request) (w : WorkspaceRecord) (a : ApprovalRecord) (r : ManifestRevision) (v : Validation)
    (ss : Selected)
    → map (λ s. s.entry_id) (map source_of (map (grant_of q w a r v) ss)) ≡ map entry_of ss
unfolding grant_of
sources-entries q w a r v [] = refl
sources-entries q w a r v (s ∷ ss) = ap (λ t. entry_of s ∷ t) (sources-entries q w a r v ss)

-- The sources are those of the ids.
abbrev Covers : List String → Answer (List ApprovedSource) → Type 0
Covers ids = OnAllowed (λ sources. map (λ s. s.entry_id) sources ≡ ids)

publish_held-Covers :
    (q : Request) (w first : String) (ids : List String) (grants : List ReadGrant) (gate : Gate)
    (r : Result Snapshot × Db)
    → map (λ s. s.entry_id) (map source_of grants) ≡ ids
    → Covers ids (publish_held q w first grants gate r).0
unfolding publish_held
publish_held-Covers q w first ids grants gate (ok s, db) h =
    λ src k. sym (ap (map (λ s. s.entry_id)) (allowed-injective k)) ∙ h
publish_held-Covers q w first ids grants gate (err Error.authority_revoked, db) h =
    λ src k. absurd (cc)
publish_held-Covers q w first ids grants gate (err e, db) h = λ src k. absurd (cc)

after_mark-Covers :
    (ids : List String) (first : String) (f : Refusal) (gate : Gate)
    (r : Result ManifestRevision × Db)
    → Covers ids (after_mark first f gate r).0
after_mark-Covers ids first f gate (ok m, db) = λ src k. absurd (cc)
after_mark-Covers ids first f gate (err e, db) = λ src k. absurd (cc)

issue-Covers :
    (q : Request) (w : WorkspaceRecord) (a : ApprovalRecord) (r : ManifestRevision) (first : String)
    (ss : Selected) (c : Check) (gate : Gate)
    → Covers (map entry_of ss) (issue q w a r first ss c gate).0
unfolding issue mark_and_refuse
issue-Covers q w a r first ss (Check.broken f) gate =
    after_mark-Covers (map entry_of ss) (first_of f.changed)
      (record { code = f.code; workspace_id = w.workspace_id; entry_id = f.entry_id }) gate
      (mark_entries_changed_latest q.new_revision_id w.workspace_id f.changed
        "approved_source_changed" q.now gate.db)
issue-Covers q w a r first ss (Check.sound v) gate =
    publish_held-Covers q w.workspace_id first (map entry_of ss) (map (grant_of q w a r v) ss) gate
      (hold_transmission_authority w.workspace_id a.approval_id r.revision_id (some q.verified_at)
        gate.db)
      (sources-entries q w a r v ss)

check_selected-Covers :
    (q : Request) (w : WorkspaceRecord) (a : ApprovalRecord) (r : ManifestRevision)
    (ids : List String) (x : Answer Selected) (gate : Gate)
    → OnAllowed (λ ss. map entry_of ss ≡ ids) x
    → Covers ids (check_selected q w a r ids x gate).0
unfolding check_selected
check_selected-Covers q w a r ids (Answer.refused f) gate h = λ src k. absurd (cc)
check_selected-Covers q w a r ids (Answer.allowed ss) gate h = λ src k.
    issue-Covers q w a r (first_of ids) ss (check_sources q w ids ss q.anchor) gate src k
    ∙ h ss refl

check_authority-Covers :
    (q : Request) (id : String) (ids : List String) (w : WorkspaceRecord)
    (a : Option ApprovalRecord) (r : Option ManifestRevision) (gate : Gate)
    → Covers ids (check_authority q id ids w a r gate).0
unfolding check_authority
check_authority-Covers q id ids w none r gate = λ src k. absurd (cc)
check_authority-Covers q id ids w (some a) none gate =
    if_both (λ (x : Answer (List ApprovedSource) × Gate). Covers ids x.0)
      (not (is_approved w.state)) _ _ (λ _ src k. absurd (cc))
      (λ _.
        if_both (λ (x : Answer (List ApprovedSource) × Gate). Covers ids x.0)
          (not (a.policy_version == default_policy_version)) _ _ (λ _ src k. absurd (cc))
          (λ _ src k. absurd (cc)))
check_authority-Covers q id ids w (some a) (some r) gate =
    if_both (λ (x : Answer (List ApprovedSource) × Gate). Covers ids x.0)
      (not (is_approved w.state)) _ _ (λ _ src k. absurd (cc))
      (λ _.
        if_both (λ (x : Answer (List ApprovedSource) × Gate). Covers ids x.0)
          (not (a.policy_version == default_policy_version)
            || not (r.policy_version == default_policy_version))
          _ (check_selected q w a r ids (select_all id r a ids) gate) (λ _ src k. absurd (cc))
          (λ _.
            check_selected-Covers q w a r ids (select_all id r a ids) gate
              (select_all-ids id r a ids)))

check_snapshot-Covers :
    (q : Request) (id : String) (ids : List String) (x : Result (Option Snapshot)) (gate : Gate)
    → Covers ids (check_snapshot q id ids x gate).0
unfolding check_snapshot
check_snapshot-Covers q id ids (err e) gate = λ src k. absurd (cc)
check_snapshot-Covers q id ids (ok none) gate = λ src k. absurd (cc)
check_snapshot-Covers q id ids (ok (some s)) gate =
    check_authority-Covers q id ids s.workspace s.approval s.revision gate

-- Where authorize allows a request, it returns one source for each requested id, in the order of the
-- request.
pub authorize-covers_request :
    (q : Request) (workspace_id : String) (ids : List String) (gate : Gate)
    {sources : List ApprovedSource}
    → (authorize q workspace_id ids gate).0 ≡ Answer.allowed sources
    → map (λ s. s.entry_id) sources ≡ ids
unfolding authorize
authorize-covers_request q workspace_id ids gate {sources} =
    if_both (λ (x : Answer (List ApprovedSource) × Gate). Covers ids x.0)
      (is_empty ids || has_repeats ids) _
      (check_snapshot q workspace_id ids (transmission_authority_snapshot workspace_id gate.db).0
        (record gate { read_grants = purge_expired q.started_at gate.read_grants }))
      (λ _ src k. absurd (cc))
      (λ _.
        check_snapshot-Covers q workspace_id ids
          (transmission_authority_snapshot workspace_id gate.db).0
          (record gate { read_grants = purge_expired q.started_at gate.read_grants }))
      sources
