-- ===== src/AccessHelper/Menu/Endless.antt =====
-- When the menu does not end.
use netcon_problem_managemen.Prelude.Int.{ℤ, pos, negsuc}
use netcon_problem_managemen.Prelude.{
  ℕ, ◌<◌, String, Bool, ◌≡◌, ◌≢◌, ◌⊎◌, ◌↔◌, inl, inr, refl, ap, sym, ◌∙◌, none, some, List, [], ◌∷◌,
  ◌==◌, eq_iff, eqb, leb, length, In, arith, Bool-cases, Option-cases,
}
use netcon_problem_managemen.Strings.Order.{sort}
use netcon_problem_managemen.Strings.Decimal.{parse_uint, digits}
use netcon_problem_managemen.Clab.{Config}
use netcon_problem_managemen.AccessHelper.Menu.{
  Input, line, unreadable, end_of_input, broken, Asked, panicked, endless, answered, visible, again,
  leave, select_numbered, choose, parse_int, select_node, ask_user_for_node,
}
use netcon_problem_managemen.AccessHelper.Menu.Selected.{choose_cases}

pub Asked-cases :
    (a : Asked) → (a ≡ panicked) ⊎ ((a ≡ endless) ⊎ ((name : String) × (a ≡ answered name)))
Asked-cases panicked = inl refl
Asked-cases endless = inr (inl refl)
Asked-cases (answered name) = inr (inr (name, refl))

-- A line that is no answer, among so many nodes: it is not the word for the exit, and not a number
-- from 0 to theirs.
pub data Unusable (count : ℕ) (text : String) : Type 0 where
  no_number : text ≢ "exit" → parse_int text ≡ none → Unusable count text
  negative : (n : ℕ) → parse_int text ≡ some (negsuc n) → Unusable count text
  too_large : (n : ℕ) → parse_int text ≡ some (pos n) → count < n → Unusable count text

-- A read after which the question is asked again.
pub data Retried (count : ℕ) : Input → Type 0 where
  unread : Retried count unreadable
  unusable : (text : String) → Unusable count text → Retried count (line text)

-- Every read fails from some point on, and before it the question is only asked again.
pub data Breaks (count : ℕ) : List Input → Type 0 where
  now : (inputs : List Input) → Breaks count (broken ∷ inputs)
  later :
      (input : Input) (inputs : List Input)
      → Retried count input
      → Breaks count inputs
      → Breaks count (input ∷ inputs)

parse_exit : parse_int "exit" ≡ none
unfolding parse_int parse_uint digits
parse_exit = refl

parse_empty : parse_int "" ≡ none
unfolding parse_int
parse_empty = refl

choose_exit : (names : List String) → choose names "exit" ≡ leave
unfolding choose
choose_exit names = refl

again-Unusable :
    (names : List String) (text : String) → choose names text ≡ again → Unusable (length names) text
unfolding choose select_numbered
again-Unusable names text h = elim (Option-cases (parse_int text)) [
  | inl bad ↦ no_number (λ e. ground (arith, sym h ∙ ap (choose names) e ∙ choose_exit names)) bad
  | inr (negsuc n, good) ↦ negative n good
  | inr (pos n, good) ↦ elim (Bool-cases (text == "")) [
    | inl empty ↦
        absurd (ground (arith, sym good ∙ ap parse_int ((eq_iff text "").0 empty) ∙ parse_empty))
    | inr some_text ↦ elim (Bool-cases (leb n (length names))) [
      | inr above ↦ too_large n good (ground arith)
      | inl below ↦ elim (choose_cases names text) [
        | inl same ↦ elim (Bool-cases (eqb n 0)) [
          | inl zero_ ↦ absurd (ground arith)
          | inr counted ↦ too_large n good (ground arith)
        ]
        | inr (inl same) ↦ absurd (ground arith)
        | inr (inr (chosen, same, at)) ↦ absurd (ground arith)
      ]
    ]
  ]
]

number-not_exit : (text : String) (n : ℤ) → parse_int text ≡ some n → text ≢ "exit"
number-not_exit text n good e = ground (arith, sym good ∙ ap parse_int e ∙ parse_exit)

Unusable-again :
    (names : List String) (text : String) → Unusable (length names) text → choose names text ≡ again
unfolding choose select_numbered
Unusable-again names text (no_number other bad) = ground (arith, eq_iff text "exit", other)
Unusable-again names text (negative n good) =
    ground (arith, eq_iff text "exit", number-not_exit text (negsuc n) good)
Unusable-again names text (too_large n good above) =
    ground (arith, eq_iff text "exit", number-not_exit text (pos n) good)

select_node-Breaks :
    (names : List String) (inputs : List Input)
    → (select_node names inputs).0 ≡ endless
    → Breaks (length names) inputs
unfolding select_node
select_node-Breaks names [] h = absurd (ground arith)
select_node-Breaks names (end_of_input ∷ inputs) h = absurd (ground arith)
select_node-Breaks names (broken ∷ inputs) h = now inputs
select_node-Breaks names (unreadable ∷ inputs) h =
    later unreadable inputs unread (select_node-Breaks names inputs h)
select_node-Breaks names (line text ∷ inputs) h = elim (choose_cases names text) [
  | inl same ↦
      later (line text) inputs (unusable text (again-Unusable names text same))
        (select_node-Breaks names inputs (ground arith))
  | inr (inl same) ↦ absurd (ground arith)
  | inr (inr (chosen, same, at)) ↦ absurd (ground arith)
]

Breaks-select_node :
    (names : List String) (inputs : List Input)
    → Breaks (length names) inputs
    → (select_node names inputs).0 ≡ endless
unfolding select_node
Breaks-select_node names inputs (now rest) = refl
Breaks-select_node names inputs (later _ rest unread breaks) = Breaks-select_node names rest breaks
Breaks-select_node names inputs (later _ rest (unusable text bad) breaks) =
    ground (arith, Unusable-again names text bad, Breaks-select_node names rest breaks)

Breaks-In : {count : ℕ} (inputs : List Input) → Breaks count inputs → In broken inputs
Breaks-In inputs (now rest) = inl refl
Breaks-In inputs (later input rest retried breaks) = inr (Breaks-In rest breaks)

-- The question for a node is asked for ever exactly if every node of the topology has a definition,
-- and the reads of stdin fail from some point on, with an error that is not the end of the input,
-- before there is an answer: before it there are only failed reads, and lines that are neither the
-- word for the exit nor a number from 0 to that of the nodes in the menu.
pub ask_user_for_node_endless_iff :
    (config : Config) (is_admin : Bool) (inputs : List Input)
    → ((ask_user_for_node config is_admin inputs).0 ≡ endless) ↔ (
        (names : List String) × (visible is_admin config.topology.nodes ≡ some names)
        × Breaks (length (sort names)) inputs)
unfolding ask_user_for_node
ask_user_for_node_endless_iff config is_admin inputs =
    elim (Option-cases (visible is_admin config.topology.nodes)) [
      | inl nil ↦ ground arith
      | inr (names, good) ↦ (
        λ h. (names, good, select_node-Breaks (sort names) inputs (ground arith)),
        λ (names', good', breaks).
            ground (arith, good', Breaks-select_node (sort names') inputs breaks),
      )
    ]

pub ask_user_for_node-endless :
    (config : Config) (is_admin : Bool) (inputs : List Input)
    → (ask_user_for_node config is_admin inputs).0 ≡ endless
    → In broken inputs
ask_user_for_node-endless config is_admin inputs h =
    let (names, good, breaks) = (ask_user_for_node_endless_iff config is_admin inputs).0 h in
    Breaks-In inputs breaks

-- What a question leaves of the input stood in it.
select_node-rest :
    (names : List String) (inputs : List Input) (input : Input)
    → In input (select_node names inputs).1
    → In input inputs
unfolding select_node
select_node-rest names [] input at = at
select_node-rest names (end_of_input ∷ inputs) input at = inr at
select_node-rest names (broken ∷ inputs) input at = at
select_node-rest names (unreadable ∷ inputs) input at = inr (select_node-rest names inputs input at)
select_node-rest names (line text ∷ inputs) input at = elim (choose_cases names text) [
  | inl same ↦ inr (select_node-rest names inputs input (rw (same, select_node) at at))
  | inr (inl same) ↦ inr (rw (same, select_node) at at)
  | inr (inr (chosen, same, _)) ↦ inr (rw (same, select_node) at at)
]

pub ask_user_for_node-rest :
    (config : Config) (is_admin : Bool) (inputs : List Input) (input : Input)
    → In input (ask_user_for_node config is_admin inputs).1
    → In input inputs
unfolding ask_user_for_node
ask_user_for_node-rest config is_admin inputs input at =
    elim (Option-cases (visible is_admin config.topology.nodes)) [
      | inl nil ↦ rw (nil, ask_user_for_node) at at
      | inr (names, good) ↦
          select_node-rest (sort names) inputs input (rw (good, ask_user_for_node) at at)
    ]
