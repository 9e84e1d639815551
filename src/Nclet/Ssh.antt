-- ===== src/Nclet/Ssh.antt =====
-- controllers/nclet/ssh_server.go: the user names and the password authentication.
pub mod Users
pub mod Passwords
pub mod Sessions
pub mod Server
mod Examples
use netcon_problem_managemen.Prelude.{
  ℕ, String, Bool, true, false, not, ◌||◌, List, [], ◌∷◌, ◌==◌, eqb, Result, ok, err, if◌then◌else◌,
}
use netcon_problem_managemen.Strings.{split}
use netcon_problem_managemen.Api.{condition_assigned}
use netcon_problem_managemen.Condition.{is_true, get_problem_environment_condition}
use netcon_problem_managemen.Kube.{ApiError, Client, M, pure, fetch, ◌>>=◌}

-- The type `User`.
pub record User : Type 0 where
  pub problem_environment_name : String
  pub node_name : String
  pub admin : Bool

-- The check of the first part, and the user.
pub user_of : String → String → String → Result String User
user_of kind name node =
    if not (kind == "nc" || kind == "ncadmin")
    then err "invalid format"
    else ok record { problem_environment_name = name; node_name = node; admin = kind == "ncadmin" }

pub parse_parts : List String → Result String User
parse_parts (kind ∷ name ∷ []) = user_of kind name ""
parse_parts (kind ∷ name ∷ node ∷ []) = user_of kind name node
parse_parts _ = err "invalid format"

pub parse_user : String → Result String User
parse_user user = parse_parts (split "_" user)

module _ {C : Type 0} (k : Client C) (admin_password : String) where
  pub handle_password_authentication : String → String → M C (Result String (Unit {0}))
  handle_password_authentication user_name password = elim (parse_user user_name) [
    | err e ↦ pure (err "invalid user format")
    | ok user ↦
        if user.admin
        then pure (if not (password == admin_password) then err "invalid password" else ok tt)
        else (do
          got ← fetch (k.get_problem_environment "netcon" user.problem_environment_name)
          pure (elim got [
            | err e ↦ err "problem environment not found"
            | ok pe ↦
                if not (is_true (get_problem_environment_condition pe condition_assigned))
                then err "problem environment not assigned"
                else if not (password == pe.status.password)
                then err "invalid password"
                else ok tt
          ]))
  ]
