-- ===== src/Base/Patterns.antt =====
-- The regular expressions that several components share, as tests on the characters.
use Prim.Native.Nat.{ℕ, zero, suc}
use Prim.Native.Char.{Char, code}
use Prim.Native.String.{String}
use mathlib.Core.Bool.{Bool, true, false, ◌&&◌, ◌||◌}
use eacl_demo.Base.Tests.{leb, ◌==◌, if◌then◌else◌}

abbrev pub code_within : ℕ → ℕ → Char → Bool
code_within low high c = leb low (code c) && leb (code c) high

abbrev pub is_lower_or_digit : Char → Bool
is_lower_or_digit c = code_within 97 122 c || code_within 48 57 c

-- The rest of `[a-z0-9]+(?:-[a-z0-9]+)*$`, where the flag says that a word has begun.
pub slug_rest : Bool → String → Bool
slug_rest begun String.[] = begun
slug_rest begun (String.◌∷◌ c s) =
    let word = slug_rest true s in
    let dash = slug_rest false s in
    if is_lower_or_digit c then word else begun && code c == 45 && dash

-- `/^[a-z0-9]+(?:-[a-z0-9]+)*$/u`
unfoldable pub is_slug : String → Bool
unfolding slug_rest
is_slug s = slug_rest false s

-- `/^[0-9a-f]{n}$/u`
unfoldable pub is_hex_text : ℕ → String → Bool
is_hex_text zero String.[] = true
is_hex_text zero (String.◌∷◌ c s) = false
is_hex_text (suc n) String.[] = false
is_hex_text (suc n) (String.◌∷◌ c s) =
    (code_within 48 57 c || code_within 97 102 c) && is_hex_text n s
