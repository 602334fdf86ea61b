-- ===== src/Base/Texts.antt =====
-- The functions of Go's `strings` that the program calls, on texts of ASCII characters.
use Prim.Native.Char.{Char, code}
use Prim.Native.String.{String}
use mathlib.Core.Path.{◌≡◌, refl}
use mathlib.Core.Bool.{Bool, true, false}
use mathlib.Core.Option.{none, some}
use text.Mathlib.Text.{find?}
use downloader.Base.Tests.{if◌then◌else◌, nat_eq}

-- `strings.Contains`.
abbrev pub text_contains : String → String → Bool
text_contains s part = elim (find? s part) [ none ↦ false | some _ ↦ true ]

abbrev pub joined : String → String → String
joined String.[] t = t
joined (String.◌∷◌ c s) t = String.◌∷◌ c (joined s t)

-- The character of the second text at the place where the first text has `c`, or `c` itself.
abbrev exchange : Char → String → String → Char
exchange c String.[] lower = c
exchange c (String.◌∷◌ u upper) String.[] = c
exchange c (String.◌∷◌ u upper) (String.◌∷◌ l lower) =
    if nat_eq (code c) (code u) then l else exchange c upper lower

-- One character of `strings.ToLower`.
abbrev lower_char : Char → Char
lower_char c = exchange c "ABCDEFGHIJKLMNOPQRSTUVWXYZ" "abcdefghijklmnopqrstuvwxyz"

unfoldable pub to_lower : String → String
to_lower String.[] = String.[]
to_lower (String.◌∷◌ c s) = String.◌∷◌ (lower_char c) (to_lower s)

to_lower_runs : to_lower "Ethereum 2" ≡ "ethereum 2"
unfolding to_lower
to_lower_runs = refl

text_contains_runs : text_contains "constraint failed: UNIQUE" "UNIQUE" ≡ true
text_contains_runs = refl
