-- ===== src/Strings/Order.antt =====
-- `<=` of Go's strings, and `sort.Strings`.
pub mod Sorted
use Prim.Native.Char.{Char, code}
use Prim.Native.String
use netcon_problem_managemen.Prelude.{String, Bool, true, false, List, [], ◌∷◌, ltb, if◌then◌else◌}

-- `<=` of Go's strings.
pub at_most : String → String → Bool
at_most String.[] t = true
at_most (String.◌∷◌ c s) String.[] = false
at_most (String.◌∷◌ c s) (String.◌∷◌ d t) =
    let rest = at_most s t in
    if ltb (code c) (code d) then true else if ltb (code d) (code c) then false else rest

unfoldable pub insert : String → List String → List String
insert name [] = name ∷ []
insert name (next ∷ names) =
    let rest = insert name names in if at_most name next then name ∷ next ∷ names else next ∷ rest

-- `sort.Strings`
unfoldable pub sort : List String → List String
sort [] = []
sort (name ∷ names) = insert name (sort names)
