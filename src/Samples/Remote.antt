-- ===== src/Samples/Remote.antt =====
-- A terminal, and a remote side of an SSH session.
use netcon_problem_managemen.Prelude.{true, ok}
use netcon_problem_managemen.AccessHelper.Ssh.{Termios, Ssh, exited}

abbrev pub cooked : Termios
cooked = record { flag = λ f. true; char_size = 8; vmin = 1; vtime = 0; other = "" }

-- A remote side that accepts everything; its shell exits with the status 1.
abbrev pub willing : {C : Type 0} → Ssh C
willing = record {
  dial = λ host port username password c. (ok tt, c);
  new_session = λ c. (ok tt, c);
  get_size = λ c. (ok (80, 24), c);
  request_pty = λ kind height width c. (ok tt, c);
  stdin_pipe = λ c. (ok tt, c);
  shell = λ c. (ok tt, c);
  wait = λ c. (exited 1, c);
  close_session = λ c. (tt, c);
  close_client = λ c. (tt, c);
}
