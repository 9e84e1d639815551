-- ===== src/AccessHelper/Menu/Selected.antt =====
-- What the menu offers and gives.
use netcon_problem_managemen.Prelude.Int.{pos, negsuc}
use netcon_problem_managemen.Prelude.{
  ℕ, zero, suc, ◌-◌, ◌<◌, String, Bool, true, false, ◌≡◌, ◌≢◌, ◌⊎◌, ◌↔◌, inl, inr, refl, ap, Option,
  none, some, List, [], ◌∷◌, ◌==◌, eqb, leb, ◌&&◌, not, length, In, arith, Bool-cases, Option-cases,
}
use netcon_problem_managemen.Strings.Order.{sort}
use netcon_problem_managemen.Strings.Order.Sorted.{In-sort}
use netcon_problem_managemen.Clab.{NodeDefinition, Config}
use netcon_problem_managemen.AccessHelper.Menu.{
  Input, line, unreadable, end_of_input, broken, panicked, answered, admin_only, visible, get_elem?,
  again, leave, node, select_numbered, choose, parse_int, select_node, ask_user_for_node,
}

-- Administrators may see every node.
abbrev pub Allowed : Bool → NodeDefinition → Type 0
Allowed is_admin definition = (admin_only definition ≡ false) ⊎ (is_admin ≡ true)

-- The names that the menu may offer.
abbrev Offered : Bool → String → List (String × Option NodeDefinition) → Type 0
Offered is_admin name nodes =
    (definition : NodeDefinition) × In (name, some definition) nodes × Allowed is_admin definition

Offered-cons :
    (is_admin : Bool) (name other : String) (definition : NodeDefinition)
    (nodes : List (String × Option NodeDefinition))
    → Offered is_admin name ((other, some definition) ∷ nodes)
      ↔ (((name ≡ other) × Allowed is_admin definition) ⊎ Offered is_admin name nodes)
Offered-cons is_admin name other definition nodes = (
  λ (given, at, allowed). elim at [
    | inl same ↦ inl (ap (λ n. n.0) same, ground (arith, ap (λ n. n.1) same))
    | inr later ↦ inr (given, later, allowed)
  ],
  λ s. elim s [
    | inl (same, allowed) ↦ (definition, inl (λ i. (same i, some definition)), allowed)
    | inr (given, later, allowed) ↦ (given, inr later, allowed)
  ],
)

Allowed-iff :
    (is_admin : Bool) (definition : NodeDefinition)
    → Allowed is_admin definition ↔ ((admin_only definition && not is_admin) ≡ false)
Allowed-iff is_admin definition = ground arith

visible_iff :
    (is_admin : Bool) (nodes : List (String × Option NodeDefinition)) (names : List String)
    (name : String)
    → visible is_admin nodes ≡ some names
    → In name names ↔ Offered is_admin name nodes
unfolding visible
visible_iff is_admin [] names name h = (λ at. absurd (ground arith), λ offered. absurd offered.1)
visible_iff is_admin ((other, none) ∷ nodes) names name h = absurd (ground arith)
visible_iff is_admin ((other, some definition) ∷ nodes) names name h =
    elim (Option-cases (visible is_admin nodes)) [
      | inl nil ↦ absurd (ground arith)
      | inr (rest, good) ↦
          let (found, back) = visible_iff is_admin nodes rest name good in
          let head = Offered-cons is_admin name other definition nodes in
          let allowed = Allowed-iff is_admin definition in
          elim (Bool-cases (admin_only definition && not is_admin)) [
            | inl hidden ↦
                let listed : names ≡ rest = ground arith in
                rw listed (ground (arith, found, back, head, allowed))
            | inr shown ↦
                let listed : names ≡ other ∷ rest = ground arith in
                rw listed (ground (arith, found, back, head, allowed))
          ]
    ]

get_elem?-In :
    (names : List String) (n : ℕ)
    → n < length names
    → (name : String) × (get_elem? names n ≡ some name) × In name names
unfolding get_elem?
get_elem?-In [] n h = absurd (ground arith)
get_elem?-In (name ∷ names) zero h = (name, refl, inl refl)
get_elem?-In (name ∷ names) (suc n) h =
    let (found, e, at) = get_elem?-In names n (ground arith) in (found, e, inr at)

-- No line makes the menu index out of range, and the node that a line selects is one of the list.
pub choose_cases :
    (names : List String) (text : String)
    → (choose names text ≡ again)
      ⊎ ((choose names text ≡ leave)
          ⊎ ((name : String) × (choose names text ≡ node name) × In name names))
unfolding choose select_numbered
choose_cases names text = elim (Option-cases (parse_int text)) [
  | inl bad ↦ ground arith
  | inr (negsuc n, good) ↦ ground arith
  | inr (pos n, good) ↦ elim (Bool-cases (leb 1 n && leb n (length names))) [
    | inr outside ↦ ground arith
    | inl inside ↦
        let (name, e, at) = get_elem?-In names (n - 1) (ground arith) in
        elim (Bool-cases (text == "")) [
          | inl empty ↦ ground arith
          | inr some_text ↦ elim (Bool-cases (text == "exit")) [
            | inl exit ↦ ground arith
            | inr number ↦ elim (Bool-cases (eqb n 0)) [
              | inl nothing ↦ ground arith
              | inr counted ↦ inr (inr (name, ground arith, at))
            ]
          ]
        ]
  ]
]

select_node-In :
    (names : List String) (inputs : List Input) (name : String)
    → (select_node names inputs).0 ≡ answered name
    → (name ≡ "") ⊎ In name names
unfolding select_node
select_node-In names [] name h = inl (ground arith)
select_node-In names (end_of_input ∷ inputs) name h = inl (ground arith)
select_node-In names (broken ∷ inputs) name h = absurd (ground arith)
select_node-In names (unreadable ∷ inputs) name h = select_node-In names inputs name h
select_node-In names (line text ∷ inputs) name h = elim (choose_cases names text) [
  | inl same ↦ select_node-In names inputs name (ground arith)
  | inr (inl same) ↦ inl (ground arith)
  | inr (inr (chosen, same, at)) ↦ ground arith
]

select_node_total :
    (names : List String) (inputs : List Input) → (select_node names inputs).0 ≢ panicked
unfolding select_node
select_node_total names [] = λ e. ground arith
select_node_total names (end_of_input ∷ inputs) = λ e. ground arith
select_node_total names (broken ∷ inputs) = λ e. ground arith
select_node_total names (unreadable ∷ inputs) = select_node_total names inputs
select_node_total names (line text ∷ inputs) = elim (choose_cases names text) [
  | inl same ↦ λ e. select_node_total names inputs (ground arith)
  | inr (inl same) ↦ λ e. ground arith
  | inr (inr (chosen, same, at)) ↦ λ e. ground arith
]

-- A selection uses up a line.
select_node_shorter :
    (names : List String) (inputs : List Input) (name : String)
    → (select_node names inputs).0 ≡ answered name
    → name ≢ ""
    → length (select_node names inputs).1 < length inputs
unfolding select_node
select_node_shorter names [] name h full = absurd (full (ground arith))
select_node_shorter names (end_of_input ∷ inputs) name h full = absurd (full (ground arith))
select_node_shorter names (broken ∷ inputs) name h full = absurd (ground arith)
select_node_shorter names (unreadable ∷ inputs) name h full =
    ground (arith, select_node_shorter names inputs name h full)
select_node_shorter names (line text ∷ inputs) name h full = elim (choose_cases names text) [
  | inl same ↦ ground (arith, select_node_shorter names inputs name)
  | inr (inl same) ↦ absurd (full (ground arith))
  | inr (inr (chosen, same, at)) ↦ ground arith
]

visible-none_iff :
    (is_admin : Bool) (nodes : List (String × Option NodeDefinition))
    → (visible is_admin nodes ≡ none) ↔ ((name : String) × In (name, none) nodes)
unfolding visible
visible-none_iff is_admin [] = (λ e. absurd (ground arith), λ n. absurd n.1)
visible-none_iff is_admin ((other, none) ∷ nodes) = (λ e. (other, inl refl), λ n. refl)
visible-none_iff is_admin ((other, some definition) ∷ nodes) =
    let (found, back) = visible-none_iff is_admin nodes in
    (
      λ e. elim (Option-cases (visible is_admin nodes)) [
        | inl nil ↦ let (name, at) = found nil in (name, inr at)
        | inr (names, good) ↦ elim (Bool-cases (admin_only definition && not is_admin)) [
          | inl hidden ↦ absurd (ground arith)
          | inr shown ↦ absurd (ground arith)
        ]
      ],
      λ (name, at). elim at [
        | inl same ↦ absurd (ground (arith, ap (λ n. n.1) same))
        | inr later ↦ ground (arith, back (name, later))
      ],
    )

-- Whatever is entered, what the menu gives is the end, for which it stands the empty name, or a node
-- of the topology, which for a participant is none of the administrators' nodes.
pub ask_user_for_node-Offered :
    (config : Config) (is_admin : Bool) (inputs : List Input) (name : String)
    → (ask_user_for_node config is_admin inputs).0 ≡ answered name
    → (name ≡ "") ⊎ Offered is_admin name config.topology.nodes
unfolding ask_user_for_node
ask_user_for_node-Offered config is_admin inputs name h =
    elim (Option-cases (visible is_admin config.topology.nodes)) [
      | inl nil ↦ absurd (ground arith)
      | inr (names, good) ↦ ground (
        arith,
        select_node-In (sort names) inputs name,
        In-sort name names,
        visible_iff is_admin config.topology.nodes names name good,
      )
    ]

-- The menu panics exactly if the topology names a node without a definition: no line makes it index
-- out of range.
pub ask_user_for_node_panics_iff :
    (config : Config) (is_admin : Bool) (inputs : List Input)
    → ((ask_user_for_node config is_admin inputs).0 ≡ panicked)
      ↔ ((name : String) × In (name, none) config.topology.nodes)
unfolding ask_user_for_node
ask_user_for_node_panics_iff config is_admin inputs =
    elim (Option-cases (visible is_admin config.topology.nodes)) [
      | inl nil ↦ ground (arith, visible-none_iff is_admin config.topology.nodes)
      | inr (names, good) ↦ ground (
        arith,
        select_node_total (sort names) inputs,
        visible-none_iff is_admin config.topology.nodes,
      )
    ]

pub ask_user_for_node_shorter :
    (config : Config) (is_admin : Bool) (inputs : List Input) (name : String)
    → (ask_user_for_node config is_admin inputs).0 ≡ answered name
    → name ≢ ""
    → length (ask_user_for_node config is_admin inputs).1 < length inputs
unfolding ask_user_for_node
ask_user_for_node_shorter config is_admin inputs name h full =
    elim (Option-cases (visible is_admin config.topology.nodes)) [
      | inl nil ↦ absurd (ground arith)
      | inr (names, good) ↦ ground (arith, select_node_shorter (sort names) inputs name)
    ]
