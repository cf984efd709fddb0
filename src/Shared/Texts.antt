-- ===== src/Shared/Texts.antt =====
-- The shapes of texts that the program checks with regular expressions.
use Prim.Native.Nat.{ℕ}
use Prim.Native.Char.{Char, code}
use Prim.Native.String.{String, [], ◌∷◌, count}
use mathlib.Core.Bool.{Bool, true, false, ◌&&◌, ◌||◌}
use mathlib.Core.List.{List}
use text.Mathlib.Text.{◌==◌ as str_eq}
use resilient_datacenter.Shared.Tests.{◌==◌, leb}

abbrev pub hex_digit : Char → Bool
hex_digit c = (leb 48 (code c) && leb (code c) 57) || (leb 97 (code c) && leb (code c) 102)

abbrev pub all_chars : (Char → Bool) → String → Bool
all_chars p [] = true
all_chars p (c ∷ s) = p c && all_chars p s

-- re.fullmatch('[a-f0-9]{n}', s)
abbrev pub is_hex : ℕ → String → Bool
is_hex n s = (count s == n) && all_chars hex_digit s

abbrev pub digit : Char → Bool
digit c = leb 48 (code c) && leb (code c) 57

abbrev pub lower : Char → Bool
lower c = leb 97 (code c) && leb (code c) 122

abbrev pub label_char : Char → Bool
label_char c = lower c || digit c || (code c == 45)

-- re.fullmatch('[a-z][a-z0-9-]{0,62}', s)
abbrev pub identifier : String → Bool
identifier [] = false
identifier (c ∷ s) = lower c && leb (count s) 62 && all_chars label_char s

abbrev pub ends_alnum : Char → String → Bool
ends_alnum c [] = lower c || digit c
ends_alnum c (d ∷ s) = ends_alnum d s

-- re.fullmatch('[a-z0-9](?:[a-z0-9-]{0,61}[a-z0-9])?', s)
abbrev pub label : String → Bool
label [] = false
label (c ∷ s) = (lower c || digit c) && leb (count s) 62 && all_chars label_char s && ends_alnum c s

-- A text that is read up to the next dot, before the parts that follow it.
abbrev pub onto_first : Char → List String → List String
onto_first c List.[] = List.◌∷◌ (c ∷ []) List.[]
onto_first c (List.◌∷◌ p ps) = List.◌∷◌ (c ∷ p) ps

-- s.split('.')
unfoldable pub parts : String → List String
parts [] = List.◌∷◌ [] List.[]
parts (c ∷ s) =
    let rest = parts s in
    elim (code c == 46) [ true ↦ List.◌∷◌ [] rest | false ↦ onto_first c rest ]

-- s.endswith(t)
abbrev pub ends_with : String → String → Bool
ends_with t [] = str_eq t []
ends_with t (c ∷ s) = str_eq t (c ∷ s) || ends_with t s

abbrev pub digit_or_dot : Char → Bool
digit_or_dot c = digit c || (code c == 46)

-- s.startswith(t)
unfoldable pub starts_with : String → String → Bool
starts_with [] s = true
starts_with (c ∷ t) [] = false
starts_with (c ∷ t) (d ∷ s) =
    let rest = starts_with t s in elim (code c == code d) [ true ↦ rest | false ↦ false ]
