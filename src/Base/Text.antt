-- ===== src/Base/Text.antt =====
-- Texts walked character by character, as the program's calls of `split`, `trim`, `slice` and
-- `join` do. A character is a code point, which for the texts the program splits is a UTF-16 unit.
pub mod Laws
use Prim.Native.Char.{Char, code}
use Prim.Native.String
use fernbank.Base.{
  ℕ, ◌≡◌, refl, Bool, true, false, ◌||◌, List, [], ◌∷◌, String, if◌then◌else◌, eqb, Option, none,
  some,
}

infixr 65 ◌+++◌
abbrev pub ◌+++◌ : String → String → String
◌+++◌ = String.◌++◌

abbrev pub onto_head : Char → List String → List String
onto_head c [] = String.◌∷◌ c String.[] ∷ []
onto_head c (part ∷ parts) = String.◌∷◌ c part ∷ parts

-- `text.split(sep)` for a separator of one character.
unfoldable pub split : ℕ → String → List String
split sep String.[] = String.[] ∷ []
split sep (String.◌∷◌ c s) =
    let parts = split sep s in if eqb (code c) sep then String.[] ∷ parts else onto_head c parts

-- `parts.join(sep)`.
unfoldable pub join : String → List String → String
join sep [] = String.[]
join sep (part ∷ []) = part
join sep (part ∷ next ∷ parts) = part +++ sep +++ join sep (next ∷ parts)

abbrev pub is_empty : String → Bool
is_empty String.[] = true
is_empty (String.◌∷◌ c s) = false

-- The blanks that `trim` removes, of those that a header can hold.
abbrev is_blank : ℕ → Bool
is_blank c = eqb c 32 || (eqb c 9 || (eqb c 10 || eqb c 13))

unfoldable pub trim_start : String → String
trim_start String.[] = String.[]
trim_start (String.◌∷◌ c s) =
    let rest = trim_start s in if is_blank (code c) then rest else String.◌∷◌ c s

abbrev drop_if_blank : Char → String → String
drop_if_blank c String.[] = if is_blank (code c) then String.[] else String.◌∷◌ c String.[]
drop_if_blank c (String.◌∷◌ d s) = String.◌∷◌ c (String.◌∷◌ d s)

unfoldable pub trim_end : String → String
trim_end String.[] = String.[]
trim_end (String.◌∷◌ c s) = drop_if_blank c (trim_end s)

unfoldable pub trim : String → String
unfolding trim_start trim_end
trim s = trim_end (trim_start s)

-- What is left of a text behind a prefix, if it starts with that.
unfoldable pub strip_prefix : String → String → Option String
strip_prefix String.[] s = some s
strip_prefix (String.◌∷◌ p ps) String.[] = none
strip_prefix (String.◌∷◌ p ps) (String.◌∷◌ c s) =
    let rest = strip_prefix ps s in if eqb (code p) (code c) then rest else none

-- An optional text that the program tests for truth: the empty text is false.
abbrev pub truthy : Option String → Option String
truthy none = none
truthy (some s) = if is_empty s then none else some s

split_two : split b'.' "ab.c" ≡ "ab" ∷ "c" ∷ []
unfolding split
split_two = refl

trim_both : trim " 1.2 " ≡ "1.2"
unfolding trim
trim_both = refl
