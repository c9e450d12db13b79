-- ===== src/Workspace/Paths.antt =====
-- exam_predictor/workspace/models.py: normalize_relative_path, with the parts of PurePosixPath that it
-- uses.
pub mod Normal
use Prim.Native.Char.{code}
use exam_sage.Common.{
  ℕ, String, Bool, true, false, ◌||◌, not, List, [], ◌∷◌, eqb, filter, any, if◌then◌else◌, Result,
  ok, err, value_error, index_error, ◌==◌,
}

-- `c in text`
unfoldable pub has_code : ℕ → String → Bool
has_code n String.[] = false
has_code n (String.◌∷◌ c s) = eqb (code c) n || has_code n s

-- The first segment, and the others.
unfoldable pub split : String → String × List String
split String.[] = (String.[], [])
split (String.◌∷◌ c s) =
    let (w, ws) = split s in if eqb (code c) b'/' then (String.[], w ∷ ws) else (String.◌∷◌ c w, ws)

-- Segments that PurePosixPath keeps
abbrev pub is_part : String → Bool
is_part w = not (w == "" || w == ".")

-- PurePosixPath(value).parts of a relative path
unfoldable pub parts : String → List String
unfolding split
parts value = let (w, ws) = split value in filter is_part (w ∷ ws)

-- The text of two segments with a slash between them
unfoldable pub slashed : String → String → String
slashed String.[] t = String.◌∷◌ "/" t
slashed (String.◌∷◌ c s) t = String.◌∷◌ c (slashed s t)

-- PurePosixPath.as_posix of a relative path
unfoldable pub as_posix : List String → String
unfolding slashed
as_posix [] = "."
as_posix (w ∷ []) = w
as_posix (w ∷ v ∷ ws) = slashed w (as_posix (v ∷ ws))

unfoldable pub is_absolute : String → Bool
is_absolute String.[] = false
is_absolute (String.◌∷◌ c s) = eqb (code c) b'/'

-- The tests on the parts; parts[0] of no parts raises.
unfoldable pub checked : List String → Result String
unfolding has_code as_posix
checked [] = err index_error
checked (w ∷ ws) =
    if any (λ p. p == "..") (w ∷ ws) || has_code b':' w
    then err value_error
    else ok (as_posix (w ∷ ws))

-- normalize_relative_path
unfoldable pub normalize_relative_path : String → Result String
unfolding checked parts is_absolute
normalize_relative_path value =
    if value == "" || (has_code 0 value || has_code 92 value)
    then err value_error
    else if is_absolute value
    then err value_error
    else checked (parts value)
