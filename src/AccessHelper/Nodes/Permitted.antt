-- ===== src/AccessHelper/Nodes/Permitted.antt =====
-- Which nodes access-helper lets a user reach.
use netcon_problem_managemen.Prelude.{
  Result, ok, err, ◌≢◌, ◌∙◌, String, Bool, not, ◌&&◌, ◌≡◌, ◌⊎◌, inl, inr, ap, sym, Option, some,
  List, [], ◌∷◌, ◌==◌, eq_iff, concat, arith, Bool-cases, Option-cases, Result-cases, In,
}
use netcon_problem_managemen.Kube.{ApiError}
use netcon_problem_managemen.AccessHelper.Shells.{access_ssh, access_exec, Terminal}
use netcon_problem_managemen.Host.{Host}
use netcon_problem_managemen.Clab.{
  NodeDefinition, Config, Codecs, ContainerLabClient, ContainerDetails, inspect,
}
use netcon_problem_managemen.AccessHelper.Menu.{Input, answered, ask_user_for_node, admin_only}
use netcon_problem_managemen.AccessHelper.Menu.Selected.{Allowed, ask_user_for_node-Offered}
use netcon_problem_managemen.AccessHelper.Nodes.{
  outcome, no_such_node, internal_error, find_node, find_container, container_prefix, access_node,
  access_container,
}

-- A node of the topology that the user may reach.
abbrev pub Permitted : Bool → String → Config → Type 0
Permitted is_admin name config =
    (definition : NodeDefinition) × (find_node name config.topology.nodes ≡ some definition)
    × Allowed is_admin definition

outcome-found : (result : Result ApiError (Unit {0})) → outcome result ≢ no_such_node
unfolding outcome
outcome-found (ok _) = λ e. ground (arith, e)
outcome-found (err problem) = λ e. ground (arith, e)

module _ {C : Type 0} (h : Host C) (codecs : Codecs) (terminal : Terminal C)
    (client : ContainerLabClient) (config : Config) (name : String) (is_admin : Bool) where
  -- A node is either not permitted, and then it is reported as missing and nothing is asked of the
  -- machine; or it is permitted, and then either a session is opened on the container of the name
  -- that containerlab gives the node, among those that the inspection lists, or there is an internal
  -- error.
  pub access_node_cases :
      (c : C)
      → ((access_node h codecs terminal client config name is_admin c ≡ (no_such_node, c))
          × (Permitted is_admin name config → ⊥))
        ⊎ ((definition : NodeDefinition) × (find_node name config.topology.nodes ≡ some definition)
            × Allowed is_admin definition
            × (((access_node h codecs terminal client config name is_admin c).0 ≡ internal_error)
                ⊎ ((containers : List ContainerDetails) × (details : ContainerDetails) × ((inspect h
                        codecs client c).0
                      ≡ ok containers)
                    × (find_container (concat (container_prefix config) name) containers
                        ≡ some details)
                    × (access_node h codecs terminal client config name is_admin c
                        ≡ access_container h codecs terminal definition details is_admin
                            (inspect h codecs client c).1))))
  unfolding access_node
  access_node_cases c = elim (Option-cases (find_node name config.topology.nodes)) [
    | inl missing ↦ inl (ground arith, λ (d, found, allowed). ground arith)
    | inr (definition, found) ↦ elim (Bool-cases (admin_only definition && not is_admin)) [
      | inl hidden ↦ inl (ground arith, λ (d, same, allowed). ground arith)
      | inr shown ↦ inr (
        definition,
        found,
        ground arith,
        elim (Result-cases (inspect h codecs client c).0) [
          | inr (e, bad) ↦ inl (ground arith)
          | inl (containers, inspected) ↦
              elim (Option-cases
                (find_container (concat (container_prefix config) name) containers)) [
                  | inl stopped ↦ inl (ground arith)
                  | inr (details, running) ↦
                      inr (containers, details, inspected, running, ground arith)
                ]
        ],
      )
    ]
  ]

  access_container-found :
      (definition : NodeDefinition) (details : ContainerDetails) (c : C)
      → (access_container h codecs terminal definition details is_admin c).0 ≢ no_such_node
  unfolding access_container
  access_container-found definition details c e =
      let executed : Result ApiError (Unit {0}) =
        (access_exec terminal definition details is_admin c).0 in
      elim (Option-cases (access_ssh terminal definition details is_admin c).0) [
        | inl stopped ↦ ground (arith, e, outcome-found executed)
        | inr (result, ended) ↦ ground (arith, e, outcome-found executed, outcome-found result)
      ]

  pub access_node-found :
      (c : C)
      → Permitted is_admin name config
      → (access_node h codecs terminal client config name is_admin c).0 ≢ no_such_node
  access_node-found c permitted = elim (access_node_cases c) [
    | inl (hidden, forbidden) ↦ absurd (forbidden permitted)
    | inr (definition, found, allowed, inl problem) ↦ λ e. ground (arith, problem, e)
    | inr (definition, found, allowed, inr (containers, details, inspected, running, same)) ↦ λ e.
        access_container-found definition details (inspect h codecs client c).1
          (ap (λ r. r.0) (sym same) ∙ e)
  ]

-- The names of the nodes are distinct, as the keys of a map are.
unfoldable pub Distinct : List (String × Option NodeDefinition) → Type 0
Distinct [] = Unit
Distinct ((name, given) ∷ nodes) =
    ((other : Option NodeDefinition) → In (name, other) nodes → ⊥) × Distinct nodes

find_node-In :
    (name : String) (definition : NodeDefinition) (nodes : List (String × Option NodeDefinition))
    → Distinct nodes
    → In (name, some definition) nodes
    → find_node name nodes ≡ some definition
unfolding find_node Distinct
find_node-In name definition [] distinct at = absurd at
find_node-In name definition ((other, given) ∷ nodes) distinct at = elim at [
  | inl same ↦ ground (arith, eq_iff name other, ap (λ n. n.0) same, ap (λ n. n.1) same)
  | inr later ↦ elim (Bool-cases (name == other)) [
    | inr apart ↦ ground (arith, find_node-In name definition nodes distinct.1 later)
    | inl same ↦
        let named : name ≡ other = (eq_iff name other).0 same in
        absurd (distinct.0 (some definition) (rw (sym named) later))
  ]
]

-- A node that the menu gives is permitted: its user is never told that there is no such node. The
-- names of the nodes are distinct.
pub ask_user_for_node-Permitted :
    (config : Config) (is_admin : Bool) (inputs : List Input) (name : String)
    → Distinct config.topology.nodes
    → name ≢ ""
    → (ask_user_for_node config is_admin inputs).0 ≡ answered name
    → Permitted is_admin name config
ask_user_for_node-Permitted config is_admin inputs name distinct full asked =
    elim (ask_user_for_node-Offered config is_admin inputs name asked) [
      | inl empty ↦ absurd (full empty)
      | inr (definition, at, allowed) ↦
          (definition, find_node-In name definition config.topology.nodes distinct at, allowed)
    ]
