-- ===== src/Nclet/Ssh/Examples.antt =====
-- Logins of a participant and of an administrator.
use netcon_problem_managemen.Startup.Nclet.{choose_admin_password}
use netcon_problem_managemen.Startup.Nclet.Chosen.{administrator_password}
use netcon_problem_managemen.Crypto.{generate_password, rune_count}
use netcon_problem_managemen.Crypto.Alphabet.{Alphanumeric}
use netcon_problem_managemen.Prelude.Int.{pos}
use netcon_problem_managemen.Prelude.{
  none, err, ◌≢◌, ◌⊎◌, String, arith, ◌≡◌, ◌↔◌, refl, true, ok, [], ◌∷◌,
}
use netcon_problem_managemen.Condition.{get_problem_environment_condition, get_condition}
use netcon_problem_managemen.Nclet.Ssh.{
  User, parse_parts, parse_user, user_of, handle_password_authentication,
}
use netcon_problem_managemen.Strings.Split.{Free}
use netcon_problem_managemen.Strings.{split}
use netcon_problem_managemen.Nclet.Ssh.Users.{Formatted, parse_user_iff}
use netcon_problem_managemen.Nclet.Ssh.Passwords.{Admitted, handle_password_authentication_iff}
use netcon_problem_managemen.Samples.{server, world, handed_out}
use netcon_problem_managemen.Strings.FilePath.Names.{FileName-of, FileName}
use netcon_problem_managemen.Nclet.Ssh.Sessions.{session_args}
use netcon_problem_managemen.Nclet.Ssh.Sessions.Arguments.{participant_becomes_admin}

abbrev operator : User
operator = record { problem_environment_name = "p1-abc"; node_name = "r1"; admin = true }

parse_user_iff_example :
    (parse_user "ncadmin_p1-abc_r1" ≡ ok operator) ↔ Formatted "ncadmin_p1-abc_r1" operator
parse_user_iff_example = parse_user_iff "ncadmin_p1-abc_r1" operator

parsed_operator : parse_user "ncadmin_p1-abc_r1" ≡ ok operator
unfolding parse_user split parse_parts user_of
parsed_operator = refl

handle_password_authentication_iff_example :
    ((handle_password_authentication server "secret" "ncadmin_p1-abc_r1" "secret" (world [])).0
      ≡ ok tt)
    ↔ ((user : User) × Formatted "ncadmin_p1-abc_r1" user
        × Admitted server "secret" "secret" (world []) user)
handle_password_authentication_iff_example =
    handle_password_authentication_iff server "secret" "ncadmin_p1-abc_r1" "secret" (world [])

env_FileName : FileName "env"
unfolding Free
env_FileName = FileName-of "env" (ground arith) refl refl refl

participant_becomes_admin_example :
    ((handle_password_authentication server "secret" "nc_env_--admin"
        (handed_out "env").status.password
        (world (handed_out "env" ∷ []))).0
      ≡ ok tt)
    × (session_args "" "" "nc_env_--admin" ≡ session_args "" "" "ncadmin_env")
unfolding Free get_problem_environment_condition get_condition
participant_becomes_admin_example =
    participant_becomes_admin server "secret" (handed_out "env") (world (handed_out "env" ∷ []))
      (refl, (refl, (refl, tt))) refl refl

-- The password of the administrators where none is given and the random source fails.
abbrev empty_chosen : String
empty_chosen = choose_admin_password (λ i. none) ""

administrator_password_example :
    let given : String = "" in
    (((handle_password_authentication server empty_chosen "ncadmin_p1-abc_r1" "" (world [])).0
        ≡ ok tt)
      ↔ (given ≡ empty_chosen))
    × (((given ≢ "") × (empty_chosen ≡ given))
        ⊎ ((given ≡ "") × (rune_count empty_chosen ≡ 64) × Alphanumeric empty_chosen)
        ⊎ ((given ≡ "")
            × ((e : String) × (generate_password (λ i. none) (pos 64) ≡ err e))
            × (empty_chosen ≡ "")))
administrator_password_example =
    administrator_password server (world []) (λ i. none) "" "ncadmin_p1-abc_r1" "" operator
      parsed_operator refl
