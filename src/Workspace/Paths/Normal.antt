-- ===== src/Workspace/Paths/Normal.antt =====
-- A normalized path is a normal form: its parts are read back, and normalizing it again keeps it.
use Prim.Native.Char.{Char, code}
use exam_sage.Common.{
  ℕ, String, Bool, true, false, List, [], ◌∷◌, eqb, any, take, if_both, Bool-cases, inl, inr, ok,
  ◌==◌, ◌≡◌, ◌≢◌, refl, ap, ◌∙◌, arith, eq_iff, All, All-filter, filter-All,
}
use exam_sage.Workspace.Paths.{
  has_code, slashed, split, is_part, parts, as_posix, is_absolute, checked, normalize_relative_path,
}

abbrev Lacks : ℕ → String → Type 0
Lacks n s = has_code n s ≡ false

-- A segment between two slashes that stands for a part.
abbrev pub IsPart : String → Type 0
IsPart w = (is_part w ≡ true) × (Lacks b'/' w)

split-segment : (w : String) → Lacks b'/' w → split w ≡ (w, [])
unfolding split has_code
split-segment String.[] h = refl
split-segment (String.◌∷◌ c s) h = ground (arith, split-segment s)

split-slashed : (w s : String) → Lacks b'/' w → split (slashed w s) ≡ (w, (split s).0 ∷ (split s).1)
unfolding split has_code slashed
split-slashed String.[] s h = refl
split-slashed (String.◌∷◌ c w) s h = ground (arith, split-slashed w s)

-- A list of parts is what parts reads from its text: nothing is lost in joining and splitting.
pub parts-as_posix :
    (w : String) (ws : List String) → All IsPart (w ∷ ws) → parts (as_posix (w ∷ ws)) ≡ w ∷ ws
unfolding parts as_posix
parts-as_posix w [] h = rw (split-segment w h.0.1, h.0.0) refl
parts-as_posix w (v ∷ ws) h =
    rw (split-slashed w (as_posix (v ∷ ws)) h.0.1, h.0.0)
      (ap (λ t. w ∷ t) (parts-as_posix v ws h.1))

-- The segments of a text have only its characters.
split-Lacks_slash : (v : String) → (Lacks b'/' (split v).0) × All (Lacks b'/') (split v).1
unfolding split has_code
split-Lacks_slash String.[] = (refl, tt)
split-Lacks_slash (String.◌∷◌ c s) =
    let (h, hs) = split-Lacks_slash s in
    if_both {A = String × List String} (λ t. Lacks b'/' t.0 × All (Lacks b'/') t.1)
      (eqb (code c) b'/') (String.[], (split s).0 ∷ (split s).1)
      (String.◌∷◌ c (split s).0, (split s).1) (λ e. (refl, (h, hs))) (λ e. (ground (arith, h), hs))

split-Lacks : (n : ℕ) (v : String) → Lacks n v → Lacks n (split v).0 × All (Lacks n) (split v).1
unfolding split has_code
split-Lacks n String.[] h = (refl, tt)
split-Lacks n (String.◌∷◌ c s) h =
    let (k, ks) = split-Lacks n s (ground arith) in
    if_both {A = String × List String} (λ t. Lacks n t.0 × All (Lacks n) t.1) (eqb (code c) b'/')
      (String.[], (split s).0 ∷ (split s).1) (String.◌∷◌ c (split s).0, (split s).1)
      (λ e. (refl, (k, ks))) (λ e. (ground (arith, k), ks))

pair_up : (P Q : String → Type 0) (ws : List String) → All P ws → All Q ws → All (λ w. P w × Q w) ws
pair_up P Q [] p q = tt
pair_up P Q (w ∷ ws) p q = ((p.0, q.0), pair_up P Q ws p.1 q.1)

pub parts-IsPart : (v : String) → All IsPart (parts v)
unfolding parts
parts-IsPart v =
    pair_up (λ w. is_part w ≡ true) (Lacks b'/') (parts v)
      (filter-All is_part ((split v).0 ∷ (split v).1))
      (All-filter (Lacks b'/') is_part ((split v).0 ∷ (split v).1) (split-Lacks_slash v))

parts-Lacks : (n : ℕ) (v : String) → Lacks n v → All (Lacks n) (parts v)
unfolding parts
parts-Lacks n v h = All-filter (Lacks n) is_part ((split v).0 ∷ (split v).1) (split-Lacks n v h)

slashed-Lacks :
    (n : ℕ) (s t : String) → eqb b'/' n ≡ false → Lacks n s → Lacks n t → Lacks n (slashed s t)
unfolding has_code slashed
slashed-Lacks n String.[] t other hs ht = ground arith
slashed-Lacks n (String.◌∷◌ c s) t other hs ht = ground (arith, slashed-Lacks n s t)

as_posix-Lacks :
    (n : ℕ) (w : String) (ws : List String)
    → eqb b'/' n ≡ false
    → All (Lacks n) (w ∷ ws)
    → Lacks n (as_posix (w ∷ ws))
unfolding as_posix
as_posix-Lacks n w [] other h = h.0
as_posix-Lacks n w (v ∷ ws) other h =
    slashed-Lacks n w (as_posix (v ∷ ws)) other h.0 (as_posix-Lacks n v ws other h.1)

abbrev is_blank : String → Bool
is_blank String.[] = true
is_blank (String.◌∷◌ c s) = false

cons-not_empty : (c : Char) (s : String) → (String.◌∷◌ c s == "") ≡ false
cons-not_empty c s = elim (Bool-cases (String.◌∷◌ c s == "")) [
  | inl e ↦ absurd (let blank = ap is_blank ((eq_iff (String.◌∷◌ c s) "").0 e) in cc)
  | inr e ↦ e
]

-- A text that begins with a part is neither empty nor absolute.
as_posix-starts :
    (w : String) (ws : List String)
    → IsPart w
    → (as_posix (w ∷ ws) == "" ≡ false) × (is_absolute (as_posix (w ∷ ws)) ≡ false)
unfolding as_posix is_absolute has_code slashed
as_posix-starts String.[] ws h = absurd (ground arith)
as_posix-starts (String.◌∷◌ c w) [] h = (cons-not_empty c w, ground arith)
as_posix-starts (String.◌∷◌ c w) (v ∷ ws) h =
    (cons-not_empty c (slashed w (as_posix (v ∷ ws))), ground arith)

checked-text :
    (ps : List String) {path : String} → checked ps ≡ ok path → (ps ≢ []) × (path ≡ as_posix ps)
unfolding checked
checked-text [] h = absurd (cc)
checked-text (w ∷ ws) {path} h = (ground arith, ground arith)

normalize-checked :
    (value : String) {path : String}
    → normalize_relative_path value ≡ ok path
    → Lacks 0 value × Lacks 92 value × (checked (parts value) ≡ ok path)
unfolding normalize_relative_path
normalize-checked value {path} h = (ground arith, ground arith, ground arith)

normalize-relative :
    (value : String) {path : String}
    → normalize_relative_path value ≡ ok path
    → is_absolute value ≡ false
unfolding normalize_relative_path
normalize-relative value {path} h = ground arith

checked-dots :
    (ps : List String) {path : String} → checked ps ≡ ok path → any (λ p. p == "..") ps ≡ false
unfolding checked
checked-dots [] h = refl
checked-dots (w ∷ ws) {path} h = ground arith

checked-drive :
    (ps : List String) {path : String}
    → checked ps ≡ ok path
    → any (has_code b':') (take 1 ps) ≡ false
unfolding checked
checked-drive [] h = refl
checked-drive (w ∷ ws) {path} h = ground arith

again :
    (ps : List String) {path : String}
    → All IsPart ps
    → All (Lacks 0) ps
    → All (Lacks 92) ps
    → checked ps ≡ ok path
    → normalize_relative_path path ≡ ok path
unfolding normalize_relative_path
again [] p z b h = absurd ((checked-text [] h).0 refl)
again (w ∷ ws) {path} p z b h =
    rw
      (
        (checked-text (w ∷ ws) h).1,
        (as_posix-starts w ws p.0).0,
        (as_posix-starts w ws p.0).1,
        as_posix-Lacks 0 w ws refl z,
        as_posix-Lacks 92 w ws refl b,
        parts-as_posix w ws p,
      )
      (h ∙ ap ok (checked-text (w ∷ ws) h).1)

-- normalize_relative_path is idempotent: what it returns for a path it returns unchanged.
pub normalize_relative_path_idem :
    (value : String) {path : String}
    → normalize_relative_path value ≡ ok path
    → normalize_relative_path path ≡ ok path
normalize_relative_path_idem value {path} h =
    let (z, b, e) = normalize-checked value h in
    again (parts value) (parts-IsPart value) (parts-Lacks 0 value z) (parts-Lacks 92 value b) e

-- A normalized path is relative, has no NUL, no backslash and no ".." segment, and its first segment
-- has no colon.
pub normalize_relative_path-IsSafe :
    (value : String) {path : String}
    → normalize_relative_path value ≡ ok path
    → (is_absolute path ≡ false)
      × Lacks 0 path
      × Lacks 92 path
      × (any (λ p. p == "..") (parts path) ≡ false)
      × (any (has_code b':') (take 1 (parts path)) ≡ false)
normalize_relative_path-IsSafe value {path} h =
    let e = normalize_relative_path_idem value h in
    let (z, b, c) = normalize-checked path e in
    (normalize-relative path e, z, b, checked-dots (parts path) c, checked-drive (parts path) c)
