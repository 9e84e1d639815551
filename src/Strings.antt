-- ===== src/Strings.antt =====
-- What the program uses of Go's packages `strings` and `path`: Split at one character, Join, and the
-- paths of `path.Join`, `path.Dir` and `path.Base`.
pub mod Split
pub mod FilePath
pub mod Order
pub mod Decimal
use Prim.Native.Char.{Char, code}
use Prim.Native.String
use netcon_problem_managemen.Prelude.{String, List, [], ◌∷◌, eqb, concat, if◌then◌else◌}

-- A separator of one character.
abbrev pub single : Char → String
single c = String.◌∷◌ c String.[]

-- A character in front of the first part.
pub extend : Char → List String → List String
extend c [] = single c ∷ []
extend c (part ∷ parts) = (String.◌∷◌ c part) ∷ parts

-- `strings.Split`
unfoldable pub split : Char → String → List String
unfolding extend
split sep String.[] = String.[] ∷ []
split sep (String.◌∷◌ c s) =
    let rest = split sep s in if eqb (code c) (code sep) then String.[] ∷ rest else extend c rest

-- `strings.Join`
unfoldable pub join : String → List String → String
join sep [] = String.[]
join sep (part ∷ []) = part
join sep (part ∷ (next ∷ parts)) = concat part (concat sep (join sep (next ∷ parts)))
