-- ===== src/Nclet/Ssh/Sessions/Arguments.antt =====
-- With which arguments the sessions of a worker run access-helper.
use text.Mathlib.TextLemmas.{append_assoc}
use netcon_problem_managemen.Prelude.{
  String, ◌≡◌, refl, ap, sym, ◌∙◌, inl, inr, ◌↔◌, true, false, List, [], ◌∷◌, eq_iff, arith, concat,
  ok, Result-cases,
}
use netcon_problem_managemen.Api.{ProblemEnvironment, Worker, condition_assigned, condition_true}
use netcon_problem_managemen.Condition.{get_problem_environment_condition}
use netcon_problem_managemen.Kube.{Client, World}
use netcon_problem_managemen.Gateway.{get_problem_environment_for}
use netcon_problem_managemen.Strings.Split.{Free}
use netcon_problem_managemen.Strings.FilePath.{path_join}
use netcon_problem_managemen.Strings.FilePath.Names.{FileName}
use netcon_problem_managemen.Clab.{new_client_for, topology_file_path}
use netcon_problem_managemen.Clab.Paths.{new_client_for_paths, manifest_path}
use netcon_problem_managemen.Nclet.Ssh.{User, parse_user, handle_password_authentication}
use netcon_problem_managemen.Nclet.Ssh.Users.{Plain, Formatted, parse_user_iff}
use netcon_problem_managemen.Nclet.Ssh.Passwords.{handle_password_authentication_iff, participant}
use netcon_problem_managemen.Nclet.Ssh.Sessions.{helper_args, session_args}

-- A session runs access-helper exactly if it asks for no command and its user name has one of the
-- formats, with the arguments of the user that it names.
session_args_iff :
    (raw_command otlp_endpoint name : String) (args : List String)
    → (session_args raw_command otlp_endpoint name ≡ ok args) ↔ (
        (raw_command ≡ "")
        × (user : User) × Formatted name user
        × (args ≡ helper_args otlp_endpoint user))
unfolding session_args
session_args_iff raw_command otlp_endpoint name args = (
  λ h. elim (Result-cases (parse_user name)) [
    | inr (e, bad) ↦ absurd (ground (arith, eq_iff raw_command ""))
    | inl (user, good) ↦ (
      ground (arith, eq_iff raw_command ""),
      user,
      (parse_user_iff name user).0 good,
      ground (arith, eq_iff raw_command ""),
    )
  ],
  λ (silent, user, format, same).
      ground (arith, eq_iff raw_command "", (parse_user_iff name user).1 format),
)

-- The user name that the gateway hands out for an environment opens a session on the topology file
-- that the containerlab client of the environment uses. The name of the environment is a plain file
-- name without an underscore, and tracing is off.
session_args-access :
    (pe : ProblemEnvironment) (worker : Worker)
    → Plain pe.meta.name
    → FileName pe.meta.name
    → session_args "" "" (get_problem_environment_for pe worker).user
      ≡ ok ("-t" ∷ topology_file_path (new_client_for pe) ∷ [])
unfolding get_problem_environment_for
session_args-access pe worker plain named =
    let user : User = record {
      problem_environment_name = pe.meta.name;
      node_name = "";
      admin = false;
    } in
    let format : Formatted (concat "nc_" pe.meta.name) user =
      inl (refl, plain, append_assoc "nc" "_" pe.meta.name) in
    let opened : path_join ("data" ∷ pe.meta.name ∷ "manifest.yml" ∷ [])
        ≡ topology_file_path (new_client_for pe) =
      manifest_path pe.meta.name named ∙ sym (new_client_for_paths pe named).2 in
    (session_args_iff "" "" (concat "nc_" pe.meta.name)
        ("-t" ∷ topology_file_path (new_client_for pe) ∷ [])).1
      (refl, user, format, unfold helper_args in ap (λ p. "-t" ∷ p ∷ []) (sym opened))

-- A participant who asks for the node `--admin` of an environment logs in with the password of the
-- environment, and the session runs access-helper with the arguments of an administrator's session.
-- The server has the environment under its name, without an underscore in it, and it is assigned;
-- tracing is off.
pub participant_becomes_admin :
    {C : Type 0} (k : Client C) (admin_password : String) (pe : ProblemEnvironment) (w : World C)
    → Plain pe.meta.name
    → (k.get_problem_environment "netcon" pe.meta.name w.cluster).0 ≡ ok pe
    → get_problem_environment_condition pe condition_assigned ≡ condition_true
    → let name = concat "nc_" (concat pe.meta.name "_--admin") in
      ((handle_password_authentication k admin_password name pe.status.password w).0 ≡ ok tt)
      × (session_args "" "" name ≡ session_args "" "" (concat "ncadmin_" pe.meta.name))
participant_becomes_admin k admin_password pe w plain got assigned =
    let name : String = concat "nc_" (concat pe.meta.name "_--admin") in
    let user : User = record {
      problem_environment_name = pe.meta.name;
      node_name = "--admin";
      admin = false;
    } in
    let boss : User = record user { node_name = ""; admin = true } in
    let format : Formatted name user = inr (
      plain,
      unfold Free in ground arith,
      append_assoc "nc" "_" (concat pe.meta.name "_--admin"),
    ) in
    let boss_format : Formatted (concat "ncadmin_" pe.meta.name) boss =
      inl (refl, plain, append_assoc "ncadmin" "_" pe.meta.name) in
    (
      (handle_password_authentication_iff k admin_password name pe.status.password w).1
          (user, format, participant pe refl got assigned refl),
      (session_args_iff "" "" name (helper_args "" user)).1 (refl, user, format, refl)
          ∙ sym (
              (session_args_iff "" "" (concat "ncadmin_" pe.meta.name) (helper_args "" user)).1
                (refl, boss, boss_format, unfold helper_args in refl)),
    )
