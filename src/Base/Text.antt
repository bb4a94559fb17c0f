-- ===== src/Base/Text.antt =====
-- Texts as the Go standard library handles them: code points, `strings.Split`, `strings.HasSuffix`.
use Prim.Native.Nat.{ℕ, ◌-◌}
use Prim.Native.Char.{Char, code}
use Prim.Native.String.{String, slice, len}
use mathlib.Core.Bool.{Bool, ◌&&◌}
use mathlib.Core.List.{List, [], ◌∷◌}
use text.Mathlib.Text.{◌==◌}
use idp_mgmt_operator.Base.Tests.{leb, nat_eq, if◌then◌else◌}

-- The code points of a text: its bytes, if it is ASCII.
abbrev pub codes : String → List ℕ
codes String.[] = []
codes (String.◌∷◌ c s) = code c ∷ codes s

abbrev pub push_char : Char → List String → List String
push_char c [] = (String.◌∷◌ c "") ∷ []
push_char c (p ∷ ps) = (String.◌∷◌ c p) ∷ ps

-- `strings.Split(s, sep)` for a separator of one character
unfoldable pub split_at : ℕ → String → List String
split_at sep String.[] = "" ∷ []
split_at sep (String.◌∷◌ c s) =
    if nat_eq (code c) sep then "" ∷ split_at sep s else push_char c (split_at sep s)

-- `strings.HasSuffix`
unfoldable pub has_suffix : String → String → Bool
has_suffix s suffix = leb (len suffix) (len s) && slice s (len s - len suffix) (len s) == suffix
