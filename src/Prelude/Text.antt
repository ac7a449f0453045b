-- ===== src/Prelude/Text.antt =====
-- Python's text operations that the source uses, on code points: `strip`, `lower`, `in`,
-- `startswith`. White space and case are those of ASCII.
use Prim.Native.Nat.{ℕ, ◌+◌, ◌-◌}
use Prim.Native.Char.{Char, code}
use Prim.Native.String.{String, char_at}
use mathlib.Core.Path.{◌≡◌, refl}
use mathlib.Core.Bool.{Bool, true, false, ◌||◌, ◌&&◌}
use mathlib.Core.Option.{Option, none, some}
use mathlib.Core.List.{List, [], ◌∷◌, map}
use native.Mathlib.Omega.{arith}
use text.Mathlib.Text.{◌==◌}
use esim_opensource_mcp.Prelude.Lists.{length, all, any}
use esim_opensource_mcp.Prelude.Tests.{eqb, leb, if◌then◌else◌}

abbrev pub codes : String → List ℕ
codes String.[] = []
codes (String.◌∷◌ c s) = code c ∷ codes s

-- The space, and the controls from tab to carriage return.
abbrev is_space : ℕ → Bool
is_space c = eqb c 32 || (leb 9 c && leb c 13)

unfoldable pub lstrip : String → String
lstrip String.[] = ""
lstrip (String.◌∷◌ c s) = let rest = lstrip s in if is_space (code c) then rest else String.◌∷◌ c s

unfoldable pub rstrip : String → String
rstrip String.[] = ""
rstrip (String.◌∷◌ c s) =
    let rest = rstrip s in if is_space (code c) && rest == "" then "" else String.◌∷◌ c rest

unfoldable pub strip : String → String
unfolding lstrip rstrip
strip s = rstrip (lstrip s)

abbrev lower_code : ℕ → ℕ
lower_code c = if leb 65 c && leb c 90 then c + 32 else c

-- `s.lower()`, as code points
unfoldable pub lower : String → List ℕ
lower s = map lower_code (codes s)

-- `s.startswith(prefix)`
unfoldable pub starts_with : List ℕ → List ℕ → Bool
starts_with [] s = true
starts_with (p ∷ ps) [] = false
starts_with (p ∷ ps) (c ∷ s) = eqb p c && starts_with ps s

-- `needle in s`
unfoldable pub contains : List ℕ → List ℕ → Bool
unfolding starts_with
contains needle [] = starts_with needle []
contains needle (c ∷ s) = starts_with needle (c ∷ s) || contains needle s

unfoldable pub eq_codes : List ℕ → List ℕ → Bool
eq_codes [] [] = true
eq_codes (p ∷ ps) (c ∷ s) = eqb p c && eq_codes ps s
eq_codes _ _ = false

pub eq_codes_refl : (s : List ℕ) → eq_codes s s ≡ true
unfolding eq_codes
eq_codes_refl [] = refl
eq_codes_refl (c ∷ s) = ground (arith, eq_codes_refl s)

abbrev pub is_digit : ℕ → Bool
is_digit c = leb 48 c && leb c 57

-- `[A-Za-z0-9._~-]`
abbrev is_reference_code : ℕ → Bool
is_reference_code c =
    is_digit c
    || ((leb 65 c && leb c 90)
        || ((leb 97 c && leb c 122) || (eqb c 46 || (eqb c 95 || (eqb c 126 || eqb c 45)))))

abbrev pub sized : ℕ → ℕ → List ℕ → Bool
sized least most cs = leb least (length cs) && leb (length cs) most

-- `^[A-Za-z0-9._~-]{1,128}$`
unfoldable pub is_reference : String → Bool
is_reference s = sized 1 128 (codes s) && all is_reference_code (codes s)

-- `any(c.isspace() or ord(c) < 0x20 for c in s)`
unfoldable pub has_space_or_control : String → Bool
has_space_or_control s = any (λ c. is_space c || leb c 31) (codes s)

-- `value or ""`
abbrev pub or_empty : Option String → String
or_empty none = ""
or_empty (some s) = s

strip_both : strip "  a b " ≡ "a b"
unfolding strip
strip_both = refl

abbrev capital : Char → Char
capital c =
    if leb 97 (code c) && leb (code c) 122
    then char_at "ABCDEFGHIJKLMNOPQRSTUVWXYZ" (code c - 97)
    else c

-- `s.upper()`
unfoldable pub upper : String → String
upper String.[] = ""
upper (String.◌∷◌ c s) = String.◌∷◌ (capital c) (upper s)

-- `s.replace(",", "")`
unfoldable pub without_commas : String → String
without_commas String.[] = ""
without_commas (String.◌∷◌ c s) =
    let rest = without_commas s in if eqb (code c) 44 then rest else String.◌∷◌ c rest
