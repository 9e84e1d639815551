-- ===== src/AccessHelper/Shells.antt =====
-- cmd/access-helper/ssh.go, exec.go and helper.go: the two ways into a node.
pub mod Parameters
use Prim.Native.Char.{Char, code}
use Prim.Native.String
use netcon_problem_managemen.Prelude.{
  ℕ, String, Bool, Option, none, some, List, [], ◌∷◌, ◌++◌, ◌==◌, eqb, Result, ok, err,
  if◌then◌else◌,
}
use netcon_problem_managemen.Api.{Labels}
use netcon_problem_managemen.Kube.{ApiError, failed}
use netcon_problem_managemen.Host.{H, pure, ◌>>=◌}
use netcon_problem_managemen.AccessHelper.Ssh.{Tty, Ssh, connect}
use netcon_problem_managemen.Clab.{NodeDefinition, ContainerDetails, get_value}
use netcon_problem_managemen.Strings.Decimal.{parse_uint}

-- The terminal, the ssh package, the run of `docker` with arguments, where an exit status is no error,
-- and `shlex.Split`.
pub record Terminal (C : Type 0) : Type 0 where
  pub tty : Tty C
  pub ssh : Ssh C
  pub docker : List String → H C (Result ApiError (Unit {0}))
  pub shlex : String → Result ApiError (List String)

-- The value of a label, or for an administrator of the label for administrators.
unfoldable pub label_for : String → String → String → Labels → Bool → String
label_for admin_key key default labels is_admin =
    let common : String = elim (get_value key labels) [ none ↦ default | some v ↦ v ] in
    elim (get_value admin_key labels) [ none ↦ common | some v ↦ if is_admin then v else common ]

unfoldable pub load_parameters : NodeDefinition → Bool → Result ApiError (String × String × ℕ)
load_parameters node is_admin =
    let username =
      label_for "netcon.janog.gr.jp/sshUsernameForAdmin" "netcon.janog.gr.jp/sshUsername" "clab"
        node.labels is_admin in
    let password =
      label_for "netcon.janog.gr.jp/sshPasswordForAdmin" "netcon.janog.gr.jp/sshPassword" "clab@123"
        node.labels is_admin in
    elim (get_value "netcon.janog.gr.jp/sshPort" node.labels) [
      | none ↦ ok (username, password, 22)
      | some v ↦ elim (parse_uint 16 v) [
        | none ↦ err (failed "could not parse port")
        | some port ↦ ok (username, password, port)
      ]
    ]

-- `address[:strings.Index(address, "/")]`, which panics without a slash.
host_of : String → Option String
host_of String.[] = none
host_of (String.◌∷◌ c s) =
    let rest = host_of s in
    if eqb (code c) b'/'
    then some ""
    else elim rest [ none ↦ none | some host ↦ some (String.◌∷◌ c host) ]

module _ {C : Type 0} (terminal : Terminal C) where
  -- `access`: the exit status of the session is dropped, and its trace is only for the theorems.
  access_host : String → ℕ → String → String → H C (Result ApiError (Unit {0}))
  access_host host port username password c =
      let (result, (c', trace)) =
        connect terminal.tty terminal.ssh host port username password (c, []) in
      (elim result [ err e ↦ err e | ok status ↦ ok tt ], c')

  -- `none` where the program panics.
  pub access_ssh :
      NodeDefinition → ContainerDetails → Bool → H C (Option (Result ApiError (Unit {0})))
  access_ssh node details is_admin = elim (load_parameters node is_admin) [
    | err e ↦ pure (some (err e))
    | ok (username, password, port) ↦ elim (host_of details.ipv4_address) [
      | none ↦ pure none
      | some host ↦ do done ← access_host host port username password; pure (some done)
    ]
  ]

  pub access_exec : NodeDefinition → ContainerDetails → Bool → H C (Result ApiError (Unit {0}))
  access_exec node details is_admin =
      elim (terminal.shlex (
        label_for "netcon.janog.gr.jp/execCommandForAdmin" "netcon.janog.gr.jp/execCommand" "sh"
          node.labels is_admin)) [
            | err e ↦ pure (err e)
            | ok commands ↦ terminal.docker (("exec" ∷ "-it" ∷ details.name ∷ []) ++ commands)
          ]
