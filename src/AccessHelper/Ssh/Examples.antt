-- ===== src/AccessHelper/Ssh/Examples.antt =====
-- An SSH session whose shell exits with the status 1.
use netcon_problem_managemen.AccessHelper.Ssh.{
  Termios, Tty, acquired, released, restored, client, session, raw_terminal, window_changes,
  stdin_copy, connect, checked, deferring, run_session, run_pty, run_shell, finish, make_raw,
  restore,
}
use netcon_problem_managemen.AccessHelper.Ssh.Nested.{held, connect_releases}
use netcon_problem_managemen.AccessHelper.Ssh.Restored.{
  TtyLaws, Aside, restore_failed, connect_restores,
}
use netcon_problem_managemen.Prelude.{some, [], ◌∷◌, ◌⊎◌, ◌≡◌, true, ok, arith, refl}
use netcon_problem_managemen.Samples.Remote.{cooked, willing}

-- A terminal and nothing else.
abbrev lone : Tty Termios
lone = record { get_termios = λ c. (ok c, c); set_termios = λ termios c. (ok tt, termios) }

lone-TtyLaws : TtyLaws lone (λ c. c)
lone-TtyLaws = record {
  get_same = λ c. refl;
  got = λ c termios read. ground (arith, read);
  set = λ termios c done. refl;
  set_failed = λ termios c e failed. absurd (ground (arith, failed));
}

willing-Aside : Aside willing (λ (c : Termios). c)
willing-Aside = record {
  dial = λ host port username password c. refl;
  new_session = λ c. refl;
  get_size = λ c. refl;
  close_session = λ c. refl;
  close_client = λ c. refl;
}

connect_releases_example :
    held (connect lone willing "192.0.2.1" 22 "clab" "clab@123" (cooked, [])).1.1 ≡ some []
connect_releases_example = connect_releases lone willing "192.0.2.1" 22 "clab" "clab@123" cooked

connect_restores_example :
    let (c', trace) = (connect lone willing "192.0.2.1" 22 "clab" "clab@123" (cooked, [])).1 in
    (c' ≡ cooked) ⊎ (restore_failed trace ≡ true)
connect_restores_example =
    connect_restores lone willing (λ c. c) lone-TtyLaws willing-Aside "192.0.2.1" 22 "clab"
      "clab@123" cooked

-- The trace of such a session, the newest first.
connect_trace :
    (connect lone willing "192.0.2.1" 22 "clab" "clab@123" (cooked, [])).1.1
    ≡ released client
      ∷ released session
      ∷ restored (ok tt)
      ∷ released window_changes
      ∷ released stdin_copy
      ∷ acquired stdin_copy
      ∷ acquired window_changes
      ∷ acquired raw_terminal
      ∷ acquired session
      ∷ acquired client
      ∷ []
unfolding connect run_session run_pty run_shell finish make_raw restore checked deferring
connect_trace = refl
