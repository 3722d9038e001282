-- ===== src/Prelude/Texts.antt =====
-- Operations on texts: String.prototype.includes, split and what follows a last separator.
use Prim.Native.Nat.{ℕ, ◌+◌, ◌-◌, ◌*◌}
use Prim.Native.Char.{code}
use mathlib.Core.Bool.{Bool, ◌&&◌, ◌||◌}
use mathlib.Core.Option.{Option, none, some}
use mathlib.Core.List.{List, [], ◌∷◌}
use Prim.Native.String.{String}
use text.Mathlib.Text.{starts_with}
use trustflow_backend.Prelude.Tests.{if◌then◌else◌, leb, ◌==◌}

abbrev pub includes : String → String → Bool
includes String.[] part = starts_with String.[] part
includes (String.◌∷◌ c s) part = starts_with (String.◌∷◌ c s) part || includes s part

-- text.split(separator), where the separator is one character, given by its code.
unfoldable pub split : ℕ → String → List String
split separator String.[] = "" ∷ []
split separator (String.◌∷◌ c s) =
    let parts = split separator s in
    if code c == separator
    then "" ∷ parts
    else elim parts [ [] ↦ [] | part ∷ rest ↦ String.◌∷◌ c part ∷ rest ]

abbrev last_part : List String → String
last_part [] = ""
last_part (part ∷ []) = part
last_part (part ∷ next ∷ rest) = last_part (next ∷ rest)

-- text.slice(text.lastIndexOf(separator) + 1)
unfoldable pub after_last : ℕ → String → String
unfolding split
after_last separator text = last_part (split separator text)

-- The value of a text of decimal digits.
unfoldable pub digits : ℕ → String → Option ℕ
digits value String.[] = some value
digits value (String.◌∷◌ c s) =
    let rest = digits (value * 10 + (code c - b'0')) s in
    if leb b'0' (code c) && leb (code c) b'9' then rest else none
