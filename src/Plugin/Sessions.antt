-- ===== src/Plugin/Sessions.antt =====
-- The sessions that the plugin opens, as nclet's SSH server reads them.
use text.Mathlib.TextLemmas.{append_assoc}
use netcon_problem_managemen.Prelude.{
  ◌||◌, eqb, String, ◌≡◌, refl, ◌∙◌, inl, inr, Bool, true, false, ok, arith, ◌==◌, concat,
  if◌then◌else◌, Result-cases, Bool-cases,
}
use netcon_problem_managemen.Api.{ProblemEnvironment}
use netcon_problem_managemen.Kube.{Client, World}
use netcon_problem_managemen.Nclet.Ssh.{User, parse_user}
use netcon_problem_managemen.Nclet.Ssh.Users.{Plain, kind_of, parse_user_iff}
use netcon_problem_managemen.Plugin.{Session, open_session}

session_user : Bool → String → String
session_user admin name = if admin then concat "ncadmin_" name else concat "nc_" name

session_user-kind_of :
    (admin : Bool) (name : String)
    → session_user admin name ≡ concat (kind_of admin) (concat "_" name)
unfolding session_user
session_user-kind_of true name = append_assoc "ncadmin" "_" name
session_user-kind_of false name = append_assoc "nc" "_" name

-- The user name of a session that the plugin opens is read by nclet as this environment, without a
-- node, and as an administrator exactly if `--admin` is given, for names without an underscore.
open_session-parse_user :
    {C : Type 0} (k : Client C) (namespace : String) (admin : Bool) (name : String) (w : World C)
    (pe : ProblemEnvironment) (session : Session)
    → (k.get_problem_environment namespace name w.cluster).0 ≡ ok pe
    → Plain pe.meta.name
    → (open_session k namespace admin name w).0 ≡ ok session
    → parse_user session.user
      ≡ ok (record { problem_environment_name = pe.meta.name; node_name = ""; admin = admin })
unfolding open_session session_user
open_session-parse_user k namespace admin name w pe session got plain opened =
    let user : User = record {
      problem_environment_name = pe.meta.name;
      node_name = "";
      admin = admin;
    } in
    let named : session.user ≡ session_user admin pe.meta.name =
      elim (Bool-cases (pe.spec.worker_name == "")) [
        | inl unscheduled ↦ absurd (ground arith)
        | inr scheduled ↦
            elim (Result-cases
              (k.get_worker pe.spec.worker_name
                (k.get_problem_environment namespace name w.cluster).1).0) [
                  | inr (e, missing) ↦ absurd (ground arith)
                  | inl (worker, found) ↦
                      elim (Bool-cases (
                        (worker.status.worker_info.external_ip_address == "")
                        || eqb worker.status.worker_info.external_port 0)) [
                          | inl unready ↦ absurd (ground arith)
                          | inr fine ↦ elim (Bool-cases admin) [
                            | inl as_admin ↦ ground arith
                            | inr plainly ↦ ground arith
                          ]
                        ]
                ]
      ] in
    (parse_user_iff session.user user).1
      (inl (refl, plain, named ∙ session_user-kind_of admin pe.meta.name))
