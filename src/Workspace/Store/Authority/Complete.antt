-- ===== src/Workspace/Store/Authority/Complete.antt =====
-- An approval names every selected file with its hash.
use exam_sage.Common.{
  ℕ, String, Bool, true, false, ◌&&◌, ◌||◌, Option, none, some, List, [], ◌∷◌, filter, map, any,
  get_or, is_none, ◌≡◌, refl, ap, ◌∙◌, arith, ◌==◌, eq_refl, All, All-map, if_both, any-order_by,
  order_by, ok, OnOk-transaction,
}
use exam_sage.Workspace.Models.{ManifestEntry, ApprovedEntryHash, ApprovalRecord}
use exam_sage.Workspace.Store.{Db, is_optional}
use exam_sage.Workspace.Store.Manifests.{entries_of}
use exam_sage.Workspace.Store.Manifests.Changes.{
  approve, approve_body, approval_of, blocks_approval, approved_hash, is_eligible_state,
  id_no_later,
}
use exam_sage.Workspace.Store.Authority.Granted.{IsGranted, approve_body-IsGranted}

-- The approval of an entry with its hash
abbrev pub names : ManifestEntry → ApprovedEntryHash → Bool
names e h = h.entry_id == e.entry_id && is_optional e.sha256 h.sha256

any-map :
    (p : ApprovedEntryHash → Bool) (f : ManifestEntry → ApprovedEntryHash) (es : List ManifestEntry)
    → any p (map f es) ≡ any (λ e. p (f e)) es
any-map p f [] = refl
any-map p f (e ∷ es) = ap (λ b. p (f e) || b) (any-map p f es)

hash-names : (o : Option String) → is_none o ≡ false → is_optional o (get_or o "") ≡ true
hash-names none h = absurd (cc)
hash-names (some s) h = eq_refl s

one_eligible :
    (e : ManifestEntry)
    → blocks_approval e ≡ false
    → (is_none e.sha256 ≡ false) × (is_eligible_state e.state ≡ true)
one_eligible e h = (ground arith, ground arith)

one_named : (e : ManifestEntry) → blocks_approval e ≡ false → names e (approved_hash e) ≡ true
one_named e h = rw (eq_refl e.entry_id) (hash-names e.sha256 (one_eligible e h).0)

abbrev Covers : List ManifestEntry → ManifestEntry → Type 0
Covers chosen e =
    e.included ≡ true
    → (is_eligible_state e.state ≡ true) × (any (λ x. names e (approved_hash x)) chosen ≡ true)

wider :
    (x : ManifestEntry) (chosen : List ManifestEntry) (e : ManifestEntry)
    → Covers chosen e
    → Covers (x ∷ chosen) e
wider x chosen e h i = ((h i).0, ground (arith, (h i).1))

All-Covers :
    (es : List ManifestEntry)
    → any blocks_approval (filter (λ e. e.included) es) ≡ false
    → All (Covers (filter (λ e. e.included) es)) es
All-Covers [] h = tt
All-Covers (x ∷ xs) h =
    let rest = filter (λ e. e.included) xs in
    if_both (λ chosen. All (Covers chosen) (x ∷ xs)) x.included (x ∷ rest) rest
      (λ i.
        let clear : blocks_approval x ≡ false = ground arith in
        (
          (λ _. ((one_eligible x clear).1, ground (arith, one_named x clear))),
          All-map (wider x rest) xs (All-Covers xs (ground arith)),
        ))
      (λ i. ((λ j. absurd (ground arith)), All-Covers xs (ground arith)))

in_approval :
    (aid w r policy : String) (t : ℕ) (es : List ManifestEntry) {a : ApprovalRecord}
    → a ≡ approval_of aid w r policy t es
    → (x : ManifestEntry)
    → any (λ y. names x (approved_hash y)) (filter (λ e. e.included) es) ≡ true
    → any (names x) a.entries ≡ true
unfolding approval_of
in_approval aid w r policy t es {a} made x h =
    ap (λ b. any (names x) b.entries) made
    ∙ any-map (names x) approved_hash (order_by id_no_later (filter (λ e. e.included) es))
    ∙ any-order_by id_no_later (λ y. names x (approved_hash y)) (filter (λ e. e.included) es)
    ∙ h

-- A successful approve covers the selection: every entry of the revision that is included was pending
-- or approved, and the approval has an item with its id and its hash.
pub approve-covers_selection :
    (aid w r policy : String) (t : Option ℕ) (now : ℕ) (db : Db) {a : ApprovalRecord}
    → (approve aid w r policy t now db).0 ≡ ok a
    → All
        (λ e.
          e.included ≡ true → (is_eligible_state e.state ≡ true) × (any (names e) a.entries ≡ true))
        (entries_of w r db)
unfolding approve
approve-covers_selection aid w r policy t now db {a} e =
    let (row, v, found, draft, stored, clear, made, after) =
      OnOk-transaction (IsGranted aid w r policy t now db) (approve_body aid w r policy t now) db
        (approve_body-IsGranted aid w r policy t now db) a e in
    All-map
      (λ x h i.
        ((h i).0, in_approval aid w r policy (get_or t now) (entries_of w r db) made x (h i).1))
      (entries_of w r db) (All-Covers (entries_of w r db) clear)
