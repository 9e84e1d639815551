-- ===== src/AccessHelper/Ssh/Nested.antt =====
-- What an SSH session acquires and releases.
use netcon_problem_managemen.Prelude.{
  ℕ, String, Bool, true, false, ◌≡◌, refl, Option, none, some, List, [], ◌∷◌, Result, arith,
  Result-cases, inl, inr, if◌then◌else◌, Option-cases,
}
use netcon_problem_managemen.Kube.{ApiError}
use netcon_problem_managemen.Host.{H}
use netcon_problem_managemen.AccessHelper.Ssh.{
  Tty, Ssh, Resource, client, session, raw_terminal, window_changes, stdin_copy, acquired, released,
  restored, Trace, T, call, note, ◌>>◌, deferring, checked, make_raw, restore, finish, run_shell,
  run_pty, run_session, connect,
}

same_resource : Resource → Resource → Bool
same_resource client client = true
same_resource session session = true
same_resource raw_terminal raw_terminal = true
same_resource window_changes window_changes = true
same_resource stdin_copy stdin_copy = true
same_resource _ _ = false

-- Only what was acquired last can be released.
pop : Resource → List Resource → Option (List Resource)
pop r [] = none
pop r (top ∷ held) = if same_resource r top then some held else none

then_pop : Resource → Option (List Resource) → Option (List Resource)
then_pop r none = none
then_pop r (some held) = pop r held

-- What is held after the trace, the last acquired first; `none` where something is released that is
-- not the last acquired of what is held.
pub held : Trace → Option (List Resource)
held [] = some []
held (acquired r ∷ earlier) = elim (held earlier) [ none ↦ none | some rs ↦ some (r ∷ rs) ]
held (released r ∷ earlier) = then_pop r (held earlier)
held (restored answer ∷ earlier) = then_pop raw_terminal (held earlier)

module _ {C : Type 0} where
  -- Nothing is held at the end of the body that was not held before.
  abbrev Balanced : {A : Type 0} → T C A → Type 0
  Balanced m = (c : C) (trace : Trace) → held (m (c, trace)).1.1 ≡ held trace

  checked-Balanced :
      {A B : Type 0} (m : H C (Result ApiError A)) (next : A → T C (Result ApiError B))
      → ((a : A) → Balanced (next a))
      → Balanced (checked m next)
  unfolding checked
  checked-Balanced m next then_each c trace = elim (Result-cases (m c).0) [
    | inl (a, good) ↦ ground (arith, then_each a (m c).1 trace)
    | inr (e, bad) ↦ ground arith
  ]

  deferring-Balanced :
      {A : Type 0} (r : Resource) (release : T C (Unit {0})) (body : T C A)
      → same_resource r r ≡ true
      → ((c : C) (trace : Trace) → held (release (c, trace)).1.1 ≡ then_pop r (held trace))
      → Balanced body
      → Balanced (note (acquired r) >> deferring release body)
  unfolding deferring held then_pop pop
  deferring-Balanced r release body same releases inside c trace =
      let after = body (c, acquired r ∷ trace) in
      let left = releases after.1.0 after.1.1 in
      let kept = inside c (acquired r ∷ trace) in
      elim (Option-cases (held trace)) [
        | inl broken ↦ ground (arith, left, kept)
        | inr (rs, fine) ↦ ground (arith, left, kept)
      ]

module _ {C : Type 0} (tty : Tty C) (ssh : Ssh C) where
  run_shell-Balanced : Balanced (run_shell tty ssh)
  unfolding run_shell held same_resource
  run_shell-Balanced =
      deferring-Balanced stdin_copy (note (released stdin_copy))
        (checked ssh.shell (λ _. finish tty ssh)) refl (λ c trace. refl)
        (checked-Balanced ssh.shell (λ _. finish tty ssh) (λ _ c trace. unfold finish in refl))

  run_pty-Balanced : (width height : ℕ) → Balanced (run_pty tty ssh width height)
  unfolding run_pty held same_resource
  run_pty-Balanced width height =
      checked-Balanced (ssh.request_pty "xterm-256color" height width) _ (λ _.
        deferring-Balanced window_changes (note (released window_changes))
          (checked ssh.stdin_pipe (λ _. run_shell tty ssh)) refl (λ c trace. refl)
          (checked-Balanced ssh.stdin_pipe (λ _. run_shell tty ssh) (λ _. run_shell-Balanced)))

  run_session-Balanced : Balanced (run_session tty ssh)
  unfolding run_session restore held same_resource
  run_session-Balanced = checked-Balanced ssh.get_size _ (λ size.
      checked-Balanced (make_raw tty) _ (λ state.
        deferring-Balanced raw_terminal (restore tty state) (run_pty tty ssh size.0 size.1) refl
          (λ c trace. refl) (run_pty-Balanced size.0 size.1)))

  connect-Balanced :
      (host : String) (port : ℕ) (username password : String)
      → Balanced (connect tty ssh host port username password)
  unfolding connect held same_resource
  connect-Balanced host port username password =
      checked-Balanced (ssh.dial host port username password) _ (λ _.
        deferring-Balanced client (call ssh.close_client >> note (released client)) _ refl
          (λ c trace. refl)
          (checked-Balanced ssh.new_session _ (λ _.
            deferring-Balanced session (call ssh.close_session >> note (released session))
              (run_session tty ssh) refl (λ c trace. refl) run_session-Balanced)))

  -- On every path, errors included, an SSH session releases all that it acquired, the connection, the
  -- session, the raw mode of the terminal, the notifications of window changes and the copying of
  -- stdin, each when everything acquired after it has been released.
  pub connect_releases :
      (host : String) (port : ℕ) (username password : String) (c : C)
      → held (connect tty ssh host port username password (c, [])).1.1 ≡ some []
  unfolding held
  connect_releases host port username password c = connect-Balanced host port username password c []
