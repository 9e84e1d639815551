-- ===== src/AccessHelper/Examples.antt =====
-- A lab with one router, which is for administrators only.
use netcon_problem_managemen.Samples.Remote.{cooked, willing}
use netcon_problem_managemen.Prelude.{
  some, none, [], ◌∷◌, ◌⊎◌, true, refl, All, ℕ, String, false, List, ok, ◌≡◌, ◌≢◌, ◌↔◌, ◌<◌, concat,
  In, length,
}
use netcon_problem_managemen.Strings.Order.{sort, insert}
use netcon_problem_managemen.Strings.Decimal.{parse_uint, digits}
use netcon_problem_managemen.Clab.{
  NodeDefinition, ContainerDetails, ContainerLabClient, get_value, inspect,
}
use netcon_problem_managemen.AccessHelper.Menu.{
  Input, line, unreadable, broken, panicked, endless, answered, admin_only, visible, get_elem?,
  parse_int, choose, select_numbered, select_node, ask_user_for_node,
}
use netcon_problem_managemen.AccessHelper.Menu.Selected.{Allowed, ask_user_for_node_panics_iff}
use netcon_problem_managemen.AccessHelper.Menu.Endless.{Breaks, ask_user_for_node_endless_iff}
use netcon_problem_managemen.AccessHelper.Shells.{label_for, Terminal, load_parameters}
use netcon_problem_managemen.AccessHelper.Shells.Parameters.{load_parameters_port}
use netcon_problem_managemen.AccessHelper.Nodes.{
  AccessOutcome, no_such_node, internal_error, find_node, container_prefix, find_container,
  access_node, access_container,
}
use netcon_problem_managemen.AccessHelper.Nodes.Permitted.{Permitted, access_node_cases, Distinct}
use netcon_problem_managemen.AccessHelper.{run_menu}
use netcon_problem_managemen.AccessHelper.Runs.{run_menu-found}
use netcon_problem_managemen.Samples.Machine.{Site, site, machine, codecs, lab, router}

abbrev client : ContainerLabClient
client = record { working_directory_path = "data/env"; topology_file_name = "manifest.yml" }

abbrev terminal : Terminal Site
terminal = record {
  tty = record { get_termios = λ c. (ok cooked, c); set_termios = λ termios c. (ok tt, c) };
  ssh = willing;
  docker = λ args c. (ok tt, c);
  shlex = λ text. ok (text ∷ []);
}

abbrev inputs : List Input
inputs = line "two" ∷ unreadable ∷ line "+1" ∷ []

r1_selected : (ask_user_for_node lab true inputs).0 ≡ answered "r1"
unfolding get_value ask_user_for_node visible admin_only sort insert select_node choose
    select_numbered parse_int parse_uint digits get_elem?
r1_selected = refl

hidden : (ask_user_for_node lab false inputs).0 ≡ answered ""
unfolding get_value ask_user_for_node visible admin_only sort insert select_node choose
    select_numbered parse_int parse_uint digits get_elem?
hidden = refl

ask_user_for_node_panics_iff_example :
    ((ask_user_for_node lab true inputs).0 ≡ panicked)
    ↔ ((name : String) × In (name, none) lab.topology.nodes)
ask_user_for_node_panics_iff_example = ask_user_for_node_panics_iff lab true inputs

access_node_cases_example :
    let c = (site []).cluster in
    ((access_node machine codecs terminal client lab "r1" false c ≡ (no_such_node, c))
      × (Permitted false "r1" lab → ⊥))
    ⊎ ((definition : NodeDefinition) × (find_node "r1" lab.topology.nodes ≡ some definition)
        × Allowed false definition
        × (((access_node machine codecs terminal client lab "r1" false c).0 ≡ internal_error)
            ⊎ ((containers : List ContainerDetails) × (details : ContainerDetails) × ((inspect
                    machine codecs client c).0
                  ≡ ok containers)
                × (find_container (concat (container_prefix lab) "r1") containers ≡ some details)
                × (access_node machine codecs terminal client lab "r1" false c
                    ≡ access_container machine codecs terminal definition details false
                        (inspect machine codecs client c).1))))
access_node_cases_example =
    access_node_cases machine codecs terminal client lab "r1" false (site []).cluster

abbrev port : ℕ
port = 2222

parameters : load_parameters (router "r1.cfg") false ≡ ok ("clab", "clab@123", port)
unfolding load_parameters parse_uint label_for get_value digits
parameters = refl

load_parameters_port_example :
    (port < 65536)
    × (((get_value "netcon.janog.gr.jp/sshPort" (router "r1.cfg").labels ≡ none) × (port ≡ 22))
        ⊎ ((text : String) × (get_value "netcon.janog.gr.jp/sshPort" (router "r1.cfg").labels
              ≡ some text)
            × (parse_uint 16 text ≡ some port)))
load_parameters_port_example =
    load_parameters_port (router "r1.cfg") false "clab" "clab@123" port parameters

one_access :
    (run_menu machine codecs terminal true client lab 2 (line "1" ∷ []) (site []).cluster).0
    ≡ some (internal_error ∷ [])
unfolding run_menu access_node find_node inspect get_value ask_user_for_node visible admin_only sort
    insert select_node choose select_numbered parse_int parse_uint digits get_elem?
one_access = refl

run_menu-found_example : All (λ (a : AccessOutcome). a ≢ no_such_node) (internal_error ∷ [])
unfolding Distinct
run_menu-found_example =
    run_menu-found machine codecs terminal true client lab ((λ other at. at), tt) 2 (line "1" ∷ [])
      (site []).cluster (internal_error ∷ []) one_access

ask_user_for_node_endless_iff_example :
    ((ask_user_for_node lab true (line "two" ∷ broken ∷ [])).0 ≡ endless) ↔ (
      (names : List String) × (visible true lab.topology.nodes ≡ some names)
      × Breaks (length (sort names)) (line "two" ∷ broken ∷ []))
ask_user_for_node_endless_iff_example =
    ask_user_for_node_endless_iff lab true (line "two" ∷ broken ∷ [])

-- It is asked for ever here.
never_answered : (ask_user_for_node lab true (line "two" ∷ broken ∷ [])).0 ≡ endless
unfolding get_value ask_user_for_node visible admin_only sort insert select_node choose
    select_numbered parse_int parse_uint digits get_elem?
never_answered = refl
