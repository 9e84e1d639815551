-- ===== src/AccessHelper/Runs.antt =====
-- The whole run of access-helper.
use netcon_problem_managemen.Prelude.{
  Result, Result-cases, String, All, In, some, [], ◌∷◌, ℕ, zero, suc, ◌<◌, Bool, ◌≡◌, ◌≢◌, ◌⊎◌, inl,
  inr, refl, none, List, ◌==◌, eq_iff, length, arith, Bool-cases, Option-cases,
}
use netcon_problem_managemen.Kube.{ApiError}
use netcon_problem_managemen.Host.{Host}
use netcon_problem_managemen.AccessHelper.Nodes.{
  AccessOutcome, no_such_node, internal_error, accessed, panics, access_failed, access_node,
}
use netcon_problem_managemen.AccessHelper.Nodes.Permitted.{
  Distinct, access_node-found, ask_user_for_node-Permitted,
}
use netcon_problem_managemen.Clab.{
  new_client, load_topology_file, Config, Codecs, ContainerLabClient,
}
use netcon_problem_managemen.AccessHelper.Menu.{Input, broken, ask_user_for_node}
use netcon_problem_managemen.AccessHelper.Menu.Selected.{ask_user_for_node_shorter}
use netcon_problem_managemen.AccessHelper.Menu.Endless.{
  Asked-cases, ask_user_for_node-endless, ask_user_for_node-rest,
}
use netcon_problem_managemen.AccessHelper.Shells.{Terminal}
use netcon_problem_managemen.AccessHelper.{run_menu, run_args, run}

AccessOutcome-cases :
    (a : AccessOutcome)
    → (a ≡ panics)
      ⊎ ((a ≡ no_such_node)
          ⊎ ((a ≡ internal_error) ⊎ ((a ≡ accessed) ⊎ ((e : ApiError) × (a ≡ access_failed e)))))
AccessOutcome-cases panics = inl refl
AccessOutcome-cases no_such_node = inr (inl refl)
AccessOutcome-cases internal_error = inr (inr (inl refl))
AccessOutcome-cases accessed = inr (inr (inr (inl refl)))
AccessOutcome-cases (access_failed e) = inr (inr (inr (inr (e, refl))))

module _ {C : Type 0} (h : Host C) (codecs : Codecs) (terminal : Terminal C) (is_admin : Bool)
    (client : ContainerLabClient) (config : Config) where
  run_menu_ends :
      (fuel : ℕ) (inputs : List Input) (c : C)
      → length inputs < fuel
      → ¬ In broken inputs
      → (run_menu h codecs terminal is_admin client config fuel inputs c).0 ≢ none
  unfolding run_menu
  run_menu_ends zero inputs c enough sound = ground arith
  run_menu_ends (suc fuel) inputs c enough sound =
      elim (Asked-cases (ask_user_for_node config is_admin inputs).0) [
        | inl nil ↦ λ e. ground arith
        | inr (inl stuck) ↦ absurd (sound (ask_user_for_node-endless config is_admin inputs stuck))
        | inr (inr (name, asked)) ↦ elim (Bool-cases (name == "")) [
          | inl empty ↦ λ e. ground arith
          | inr full ↦
              let rest : List Input = (ask_user_for_node config is_admin inputs).1 in
              let c' : C = (access_node h codecs terminal client config name is_admin c).1 in
              let less : length (ask_user_for_node config is_admin inputs).1 < length inputs =
                ask_user_for_node_shorter config is_admin inputs name asked
                  (λ e. ground (arith, eq_iff name "", e)) in
              let ends : (run_menu h codecs terminal is_admin client config fuel rest c').0 ≢ none =
                run_menu_ends fuel rest c' (ground arith)
                  (λ at. sound (ask_user_for_node-rest config is_admin inputs broken at)) in
              elim (Option-cases
                (run_menu h codecs terminal is_admin client config fuel rest c').0) [
                  | inl out ↦ absurd (ends out)
                  | inr (accesses, more) ↦
                      elim (AccessOutcome-cases
                        (access_node h codecs terminal client config name is_admin c).0) [
                          | inl stops ↦ λ e. ground arith
                          | inr (inl goes) ↦ λ e. ground arith
                          | inr (inr (inl goes)) ↦ λ e. ground arith
                          | inr (inr (inr (inl goes))) ↦ λ e. ground arith
                          | inr (inr (inr (inr (problem, goes)))) ↦ λ e. ground arith
                        ]
                ]
        ]
      ]

  -- Whoever uses the menu, nobody is told of a node that it gave that there is no such node. The names
  -- of the nodes are distinct.
  pub run_menu-found :
      Distinct config.topology.nodes
      → (fuel : ℕ) (inputs : List Input) (c : C) (accesses : List AccessOutcome)
      → (run_menu h codecs terminal is_admin client config fuel inputs c).0 ≡ some accesses
      → All (λ (a : AccessOutcome). a ≢ no_such_node) accesses
  unfolding run_menu
  run_menu-found distinct zero inputs c accesses ended = absurd (ground arith)
  run_menu-found distinct (suc fuel) inputs c accesses ended =
      elim (Asked-cases (ask_user_for_node config is_admin inputs).0) [
        | inl nil ↦
            let only : accesses ≡ panics ∷ [] = ground arith in
            rw only ((λ e. ground (arith, e)), tt)
        | inr (inl stuck) ↦ absurd (ground arith)
        | inr (inr (name, asked)) ↦ elim (Bool-cases (name == "")) [
          | inl empty ↦ let nothing : accesses ≡ [] = ground arith in rw nothing tt
          | inr full ↦
              let rest : List Input = (ask_user_for_node config is_admin inputs).1 in
              let access : AccessOutcome =
                (access_node h codecs terminal client config name is_admin c).0 in
              let c' : C = (access_node h codecs terminal client config name is_admin c).1 in
              let found : access ≢ no_such_node =
                access_node-found h codecs terminal client config name is_admin c (
                  ask_user_for_node-Permitted config is_admin inputs name distinct
                    (λ e. ground (arith, eq_iff name "", e)) asked) in
              elim (Option-cases
                (run_menu h codecs terminal is_admin client config fuel rest c').0) [
                  | inl out ↦ elim (AccessOutcome-cases access) [
                    | inl stops ↦
                        let only : accesses ≡ panics ∷ [] = ground arith in
                        rw only ((λ e. ground (arith, e)), tt)
                    | inr goes ↦ absurd (ground (arith, goes))
                  ]
                  | inr (more, done) ↦ elim (AccessOutcome-cases access) [
                    | inl stops ↦
                        let only : accesses ≡ panics ∷ [] = ground arith in
                        rw only ((λ e. ground (arith, e)), tt)
                    | inr goes ↦
                        let all : accesses ≡ access ∷ more = ground (arith, goes) in
                        rw all (found, run_menu-found distinct fuel rest c' more done)
                  ]
                ]
        ]
      ]

module _ {C : Type 0} (h : Host C) (codecs : Codecs) (terminal : Terminal C) (is_admin : Bool) where
  run_args_end :
      (client : ContainerLabClient) (config : Config) (fuel : ℕ) (args : List String)
      (inputs : List Input) (c : C)
      → length inputs < fuel
      → ¬ In broken inputs
      → (run_args h codecs terminal is_admin client config fuel args inputs c).0 ≢ none
  unfolding run_args
  run_args_end client config fuel [] inputs c enough sound =
      run_menu_ends h codecs terminal is_admin client config fuel inputs c enough sound
  run_args_end client config fuel (name ∷ []) inputs c enough sound = λ e. ground (arith, e)
  run_args_end client config fuel (name ∷ other ∷ more) inputs c enough sound =
      run_menu_ends h codecs terminal is_admin client config fuel inputs c enough sound

  -- A run of access-helper in which no read of stdin fails for ever ends, whatever else stdin, the path,
  -- the topology and the arguments are: as many prompts as there are lines, and one more, are enough.
  run_ends :
      (is_terminal : Bool) (abs : String → Result ApiError String) (path : String) (fuel : ℕ)
      (args : List String) (inputs : List Input) (c : C)
      → length inputs < fuel
      → ¬ In broken inputs
      → (run h codecs terminal is_admin is_terminal abs path fuel args inputs c).0 ≢ none
  unfolding run
  run_ends is_terminal abs path fuel args inputs c enough sound e = elim (Bool-cases is_terminal) [
    | inr piped ↦ ground (arith, e)
    | inl shown ↦ elim (Result-cases (abs path)) [
      | inr (problem, bad) ↦ ground (arith, e)
      | inl (file, good) ↦
          let client : ContainerLabClient = new_client file in
          elim (Result-cases (load_topology_file h codecs client c).0) [
            | inr (problem, bad) ↦ ground (arith, e)
            | inl (config, loaded) ↦ ground (
              arith,
              e,
              run_args_end client config fuel args inputs (load_topology_file h codecs client c).1
                  enough sound,
            )
          ]
    ]
  ]
