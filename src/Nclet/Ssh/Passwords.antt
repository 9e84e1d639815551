-- ===== src/Nclet/Ssh/Passwords.antt =====
-- Who the password authentication lets in.
use text.Mathlib.TextLemmas.{append_assoc}
use netcon_problem_managemen.Prelude.{
  Bool-cases, String, ◌≡◌, refl, inl, inr, ◌↔◌, true, false, eq_iff, arith, concat, ok,
  Result-cases,
}
use netcon_problem_managemen.Api.{ProblemEnvironment, Worker, condition_assigned, condition_true}
use netcon_problem_managemen.Condition.{get_problem_environment_condition}
use netcon_problem_managemen.Condition.Laws.{is_true_iff}
use netcon_problem_managemen.Kube.{Client, World}
use netcon_problem_managemen.Gateway.{get_problem_environment_for}
use netcon_problem_managemen.Nclet.Ssh.{User, parse_user, handle_password_authentication}
use netcon_problem_managemen.Nclet.Ssh.Users.{Plain, Formatted, parse_user_iff}

module _ {C : Type 0} (k : Client C) (admin_password : String) where
  -- An administrator with the administrators' password, or a participant with the password of an
  -- environment that the server has and that is assigned.
  pub data Admitted (password : String) (w : World C) (user : User) : Type 0 where
    administrator : user.admin ≡ true → password ≡ admin_password → Admitted password w user
    participant :
        (pe : ProblemEnvironment)
        → user.admin ≡ false
        → (k.get_problem_environment "netcon" user.problem_environment_name w.cluster).0 ≡ ok pe
        → get_problem_environment_condition pe condition_assigned ≡ condition_true
        → password ≡ pe.status.password
        → Admitted password w user

  module _ (name password : String) (w : World C) (user : User)
      (parsed : parse_user name ≡ ok user) where
    login_granted :
        (handle_password_authentication k admin_password name password w).0 ≡ ok tt
        → Admitted password w user
    unfolding handle_password_authentication
    login_granted h = elim (Bool-cases user.admin) [
      | inl admin ↦ administrator admin (ground (arith, eq_iff password admin_password))
      | inr plain ↦
          elim (Result-cases
            (k.get_problem_environment "netcon" user.problem_environment_name w.cluster).0) [
              | inr (e, missing) ↦ absurd (ground arith)
              | inl (pe, got) ↦
                  let assigned =
                    is_true_iff (get_problem_environment_condition pe condition_assigned) in
                  participant pe plain got (ground (arith, assigned))
                    (ground (arith, eq_iff password pe.status.password))
            ]
    ]

    login_let_in :
        Admitted password w user
        → (handle_password_authentication k admin_password name password w).0 ≡ ok tt
    unfolding handle_password_authentication
    login_let_in (administrator admin same) = ground (arith, eq_iff password admin_password)
    login_let_in (participant pe plain got assigned same) = ground (
      arith,
      is_true_iff (get_problem_environment_condition pe condition_assigned),
      eq_iff password pe.status.password,
    )

  -- A login succeeds exactly if the user name has one of the formats and the user that it names is an
  -- administrator with the administrators' password, or a participant with the password of an
  -- environment that the server has under the name, and that is assigned.
  pub handle_password_authentication_iff :
      (name password : String) (w : World C)
      → ((handle_password_authentication k admin_password name password w).0 ≡ ok tt)
        ↔ ((user : User) × Formatted name user × Admitted password w user)
  unfolding handle_password_authentication
  handle_password_authentication_iff name password w = (
    λ h. elim (Result-cases (parse_user name)) [
      | inr (e, bad) ↦ absurd (ground arith)
      | inl (user, good) ↦
          (user, (parse_user_iff name user).0 good, login_granted name password w user good h)
    ],
    λ (user, format, admitted).
        login_let_in name password w user ((parse_user_iff name user).1 format) admitted,
  )

-- What the gateway hands out logs in: with the user name and the password of an access to an
-- environment without an underscore in its name, the login succeeds as long as the server has the
-- environment under its name and it is assigned.
access_logs_in :
    {C : Type 0} (k : Client C) (admin_password : String) (pe : ProblemEnvironment)
    (worker : Worker) (w : World C)
    → Plain pe.meta.name
    → (k.get_problem_environment "netcon" pe.meta.name w.cluster).0 ≡ ok pe
    → get_problem_environment_condition pe condition_assigned ≡ condition_true
    → let access = get_problem_environment_for pe worker in
      (handle_password_authentication k admin_password access.user access.password w).0 ≡ ok tt
unfolding get_problem_environment_for
access_logs_in k admin_password pe worker w plain got assigned =
    let user : User = record {
      problem_environment_name = pe.meta.name;
      node_name = "";
      admin = false;
    } in
    (handle_password_authentication_iff k admin_password (concat "nc_" pe.meta.name)
        pe.status.password w).1
      (
        user,
        inl (refl, plain, append_assoc "nc" "_" pe.meta.name),
        participant pe refl got assigned refl,
      )

-- An administrator is let in with the administrators' password alone.
pub handle_password_authentication-admin :
    {C : Type 0} (k : Client C) (admin_password name password : String) (w : World C) (user : User)
    → parse_user name ≡ ok user
    → user.admin ≡ true
    → ((handle_password_authentication k admin_password name password w).0 ≡ ok tt)
      ↔ (password ≡ admin_password)
unfolding handle_password_authentication
handle_password_authentication-admin k admin_password name password w user parsed admin =
    ground (arith, parsed, admin, eq_iff password admin_password)
