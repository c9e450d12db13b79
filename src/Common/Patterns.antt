-- ===== src/Common/Patterns.antt =====
-- The regular expressions for identifiers and codes.
use Prim.Native.Char.{code}
use Prim.Native.Nat.{ℕ, zero, suc}
use Prim.Native.String.{String}
use mathlib.Core.Bool.{Bool, true, false, ◌&&◌, ◌||◌}
use exam_sage.Common.Tests.{leb, eqb}

unfoldable pub is_alnum : ℕ → Bool
is_alnum c = (leb 48 c && leb c 57) || ((leb 65 c && leb c 90) || (leb 97 c && leb c 122))

-- [...]{0,n}
unfoldable pub up_to : (ℕ → Bool) → ℕ → String → Bool
up_to p n String.[] = true
up_to p zero (String.◌∷◌ c s) = false
up_to p (suc n) (String.◌∷◌ c s) = p (code c) && up_to p n s

is_code_char : ℕ → Bool
is_code_char c = (leb 97 c && leb c 122) || ((leb 48 c && leb c 57) || eqb c 95)

-- [a-z][a-z0-9_]{0,119}
unfoldable pub is_error_code : String → Bool
unfolding is_code_char up_to
is_error_code String.[] = false
is_error_code (String.◌∷◌ c s) = (leb 97 (code c) && leb (code c) 122) && up_to is_code_char 119 s

is_id_char : ℕ → Bool
unfolding is_alnum
is_id_char c = is_alnum c || (eqb c 95 || eqb c 45)

-- [A-Za-z0-9][A-Za-z0-9_-]{0,127}
unfoldable pub is_safe_id : String → Bool
unfolding is_alnum is_id_char up_to
is_safe_id String.[] = false
is_safe_id (String.◌∷◌ c s) = is_alnum (code c) && up_to is_id_char 127 s
