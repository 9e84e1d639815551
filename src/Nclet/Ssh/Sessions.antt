-- ===== src/Nclet/Ssh/Sessions.antt =====
-- controllers/nclet/ssh_server.go, `handle`: the command that a session runs. `pty.Start` is a
-- parameter; the copying between the terminals and the error of `Wait`, which is only traced, are left
-- out.
pub mod Arguments
use netcon_problem_managemen.Prelude.{
  String, Bool, not, List, [], ◌∷◌, ◌++◌, ◌==◌, Result, ok, err, if◌then◌else◌,
}
use netcon_problem_managemen.Kube.{ApiError}
use netcon_problem_managemen.Host.{H, pure, ◌>>=◌}
use netcon_problem_managemen.Strings.FilePath.{path_join}
use netcon_problem_managemen.Nclet.Ssh.{User, parse_user}

-- The arguments of access-helper.
pub helper_args : String → User → List String
helper_args otlp_endpoint user =
    let args : List String =
      "-t" ∷ path_join ("data" ∷ user.problem_environment_name ∷ "manifest.yml" ∷ []) ∷ [] in
    let for_admin : List String = if user.admin then args ++ "--admin" ∷ [] else args in
    let traced : List String =
      if not (otlp_endpoint == "") then for_admin ++ "--enable-otel" ∷ [] else for_admin in
    if not (user.node_name == "") then traced ++ user.node_name ∷ [] else traced

-- The part of `handle` before the command is started.
pub session_args : String → String → String → Result String (List String)
session_args raw_command otlp_endpoint user_name =
    if not (raw_command == "")
    then err "command execution is not supported"
    else elim (parse_user user_name) [
      | err e ↦ err "invalid user format"
      | ok user ↦ ok (helper_args otlp_endpoint user)
    ]

module _ {C : Type 0} (start : String → List String → H C (Result ApiError (Unit {0}))) where
  handle : String → String → String → H C (Result String (Unit {0}))
  handle raw_command otlp_endpoint user_name =
      elim (session_args raw_command otlp_endpoint user_name) [
        | err e ↦ pure (err e)
        | ok args ↦ do
          started ← start "access-helper" args
          pure (elim started [ err e ↦ err "failed to start pty" | ok _ ↦ ok tt ])
      ]
