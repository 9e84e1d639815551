-- ===== src/Strings/FilePath.antt =====
-- `path.Clean`, `path.Join`, `path.Dir` and `path.Base`, by the rules of their documentation: on Unix
-- `filepath` has the same functions.
pub mod Names
pub mod Parents
pub mod Rooted
mod Examples
use Prim.Native.Char.{Char, code}
use Prim.Native.String
use mathlib.Core.List.{reverse}
use netcon_problem_managemen.Prelude.{
  String, Bool, true, false, not, ◌||◌, List, [], ◌∷◌, ◌==◌, eqb, concat, filter_by, if◌then◌else◌,
}
use netcon_problem_managemen.Strings.{split, join}

pub is_rooted : String → Bool
is_rooted String.[] = false
is_rooted (String.◌∷◌ c s) = eqb (code c) b'/'

-- One element of a path, on the elements so far, the last one first.
pub resolve : Bool → List String → String → List String
resolve rooted stack part =
    if part == "" || part == "."
    then stack
    else if part == ".."
    then elim stack [
      | [] ↦ if rooted then [] else ".." ∷ []
      | top ∷ rest ↦ if top == ".." then ".." ∷ top ∷ rest else rest
    ]
    else part ∷ stack

pub resolve_all : Bool → List String → List String → List String
resolve_all rooted stack [] = stack
resolve_all rooted stack (part ∷ parts) = resolve_all rooted (resolve rooted stack part) parts

pub print_path : Bool → List String → String
print_path true parts = concat "/" (join "/" parts)
print_path false [] = "."
print_path false (part ∷ parts) = join "/" (part ∷ parts)

pub clean : String → String
unfolding is_rooted resolve resolve_all print_path
clean path =
    if path == ""
    then "."
    else print_path (is_rooted path) (reverse (resolve_all (is_rooted path) [] (split "/" path)))

pub path_join : List String → String
unfolding clean
path_join elements = elim (filter_by (λ e. not (e == "")) elements) [
  | [] ↦ ""
  | used ∷ more ↦ clean (join "/" (used ∷ more))
]

-- All parts but the last.
pub init : List String → List String
init [] = []
init (part ∷ []) = []
init (part ∷ (next ∷ parts)) = part ∷ init (next ∷ parts)

pub dir : String → String
unfolding init clean
dir path = elim (init (split "/" path)) [
  | [] ↦ clean ""
  | part ∷ parts ↦ clean (concat (join "/" (part ∷ parts)) "/")
]

-- The first part that is not empty, of the parts in reverse.
pub last_part : List String → String
last_part [] = "/"
last_part (part ∷ parts) = if part == "" then last_part parts else part

pub base : String → String
unfolding last_part
base path = if path == "" then "." else last_part (reverse (split "/" path))
