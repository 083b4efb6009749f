-- ===== src/Base/Text.antt =====
-- Texts walked character by character.
use Prim.Native.Nat.{ℕ}
use Prim.Native.Char.{Char, code}
use Prim.Native.String.{String, ◌++◌}
use mathlib.Core.Bool.{true, false, ◌||◌}
use mathlib.Core.List.{List, [], ◌∷◌}
use kexcore_oidc.Base.Tests.{eqb, if◌then◌else◌}

-- Go's `s + t`.
abbrev pub concat : String → String → String
concat s t = s ++ t

-- The part of a text before the first of two characters, or all of it:
-- `if i := strings.IndexAny(s, "ab"); i >= 0 { s = s[:i] }`.
unfoldable pub cut_at : ℕ → ℕ → String → String
cut_at a b String.[] = String.[]
cut_at a b (String.◌∷◌ c s) = elim (eqb (code c) a || eqb (code c) b) [
  | true ↦ String.[]
  | false ↦ String.◌∷◌ c (cut_at a b s)
]

-- A piece of a split text with one more character in front of the first.
abbrev pub grow_first : Char → List String → List String
grow_first c [] = String.◌∷◌ c String.[] ∷ []
grow_first c (s ∷ ss) = String.◌∷◌ c s ∷ ss

-- `strings.Split` by one character.
unfoldable pub split : ℕ → String → List String
split sep String.[] = String.[] ∷ []
split sep (String.◌∷◌ c s) =
    let rest = split sep s in if eqb (code c) sep then String.[] ∷ rest else grow_first c rest
