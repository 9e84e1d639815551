-- ===== src/AccessHelper/Menu.antt =====
-- cmd/access-helper/main.go, `askUserForNode`. It panics on a nil pointer that is dereferenced and on
-- an index out of range, and its loop does not end where every further read fails.
pub mod Selected
pub mod Endless
mod Examples
use Prim.Native.Char.{Char, code}
use Prim.Native.String
use netcon_problem_managemen.Prelude.Int.{ℤ, pos, negsuc}
use netcon_problem_managemen.Prelude.{
  ℕ, zero, suc, ◌+◌, ◌-◌, ◌*◌, ◌^◌, String, Bool, true, false, not, ◌&&◌, Option, none, some, List,
  [], ◌∷◌, ◌==◌, eqb, ltb, leb, length, if◌then◌else◌,
}
use netcon_problem_managemen.Strings.Order.{sort}
use netcon_problem_managemen.Strings.Decimal.{parse_uint}
use netcon_problem_managemen.Clab.{NodeDefinition, Config, get_value}

-- What a read of a line gives: the line without its newline, an error, or the end of the input; or
-- that this read and every later one fails with an error, as on a terminal that is gone. What is read
-- is a list of these, after which the input is at its end.
pub data Input : Type 0 where
  line : String → Input
  unreadable : Input
  end_of_input : Input
  broken : Input

-- How the question for a node ends: with a panic, never, or with a name, the empty one for the exit.
pub data Asked : Type 0 where
  panicked endless : Asked
  answered : String → Asked

abbrev admin_only_key : String
admin_only_key = "netcon.janog.gr.jp/adminOnly"

unfoldable pub admin_only : NodeDefinition → Bool
admin_only node = elim (get_value admin_only_key node.labels) [
  | none ↦ false
  | some v ↦ v == "true"
]

-- The loop over the nodes.
unfoldable pub visible : Bool → List (String × Option NodeDefinition) → Option (List String)
visible is_admin [] = some []
visible is_admin ((name, none) ∷ nodes) = none
visible is_admin ((name, some node) ∷ nodes) = elim (visible is_admin nodes) [
  | none ↦ none
  | some names ↦ if admin_only node && not is_admin then some names else some (name ∷ names)
]

abbrev negate : ℕ → ℤ
negate zero = pos 0
negate (suc n) = negsuc n

-- `strconv.ParseInt(s, 10, 64)`
unfoldable pub parse_int : String → Option ℤ
parse_int String.[] = none
parse_int (String.◌∷◌ c s) =
    let sign = eqb (code c) b'-' in
    let unsigned : String = if sign then s else if eqb (code c) b'+' then s else String.◌∷◌ c s in
    elim (parse_uint 64 unsigned) [
      | none ↦ none
      | some n ↦
          if not sign
          then if leb (2 ^ 63) n then none else some (pos n)
          else if ltb (2 ^ 63) n
          then none
          else some (negate n)
    ]

unfoldable pub get_elem? : List String → ℕ → Option String
get_elem? [] n = none
get_elem? (name ∷ names) zero = some name
get_elem? (name ∷ names) (suc n) = get_elem? names n

pub data Choice : Type 0 where
  again leave out_of_range : Choice
  node : String → Choice

unfoldable pub select_numbered : List String → ℤ → Choice
select_numbered names (negsuc n) = again
select_numbered names (pos selected) =
    if eqb selected 0
    then leave
    else if not (leb 1 selected && leb selected (length names))
    then again
    else elim (get_elem? names (selected - 1)) [ none ↦ out_of_range | some name ↦ node name ]

-- The body of the loop, on a line.
unfoldable pub choose : List String → String → Choice
choose names input =
    if input == ""
    then again
    else if input == "exit"
    then leave
    else elim (parse_int input) [ none ↦ again | some selected ↦ select_numbered names selected ]

-- The loop over the lines, with what it leaves of them.
unfoldable pub select_node : List String → List Input → Asked × List Input
select_node names [] = (answered "", [])
select_node names (end_of_input ∷ inputs) = (answered "", inputs)
select_node names (broken ∷ inputs) = (endless, broken ∷ inputs)
select_node names (unreadable ∷ inputs) = select_node names inputs
select_node names (line text ∷ inputs) = elim (choose names text) [
  | again ↦ select_node names inputs
  | leave ↦ (answered "", inputs)
  | out_of_range ↦ (panicked, inputs)
  | node name ↦ (answered name, inputs)
]

unfoldable pub ask_user_for_node : Config → Bool → List Input → Asked × List Input
ask_user_for_node config is_admin inputs = elim (visible is_admin config.topology.nodes) [
  | none ↦ (panicked, inputs)
  | some names ↦ select_node (sort names) inputs
]
