-- ===== src/Strings/Order/Sorted.antt =====
-- Sorting keeps the elements.
use netcon_problem_managemen.Prelude.{String, ◌↔◌, Bool-cases, inl, inr, List, [], ◌∷◌, In, arith}
use netcon_problem_managemen.Strings.Order.{at_most, insert, sort}

In-insert :
    (name new : String) (names : List String) → In name (insert new names) ↔ In name (new ∷ names)
unfolding insert
In-insert name new [] = ground arith
In-insert name new (next ∷ names) = elim (Bool-cases (at_most new next)) [
  | inl here ↦ ground arith
  | inr later ↦ ground (arith, In-insert name new names)
]

pub In-sort : (name : String) (names : List String) → In name (sort names) ↔ In name names
unfolding sort
In-sort name [] = ground arith
In-sort name (new ∷ names) = ground (arith, In-insert name new (sort names), In-sort name names)
