-- ===== src/AccessHelper/Ssh.antt =====
-- cmd/access-helper/ssh.go from the connection on, and term.go. The ssh package, the size of the
-- terminal and the ioctls that read and write its settings are parameters. A trace holds what the
-- session acquires and releases, the newest first; the goroutines are the window notifications and
-- the copying of stdin, which a release ends.
pub mod Nested
pub mod Restored
mod Examples
use netcon_problem_managemen.Prelude.{
  ℕ, String, Bool, true, false, Option, some, List, [], ◌∷◌, Result, ok, err, if◌then◌else◌,
}
use netcon_problem_managemen.Kube.{ApiError}
use netcon_problem_managemen.Host.{H, pure, ◌>>=◌}

-- The flags of a termios that the program changes.
pub data Flag : Type 0 where
  ignbrk brkint parmrk istrip inlcr igncr icrnl ixon : Flag
  opost : Flag
  echo echonl icanon isig iexten : Flag
  parenb : Flag

-- unix.Termios: the flags, the bits of a character (CSIZE), and `Cc` at VMIN and VTIME; what the
-- program does not look at is `other`.
pub record Termios : Type 0 where
  pub flag : Flag → Bool
  pub char_size : ℕ
  pub vmin : ℕ
  pub vtime : ℕ
  pub other : String

-- What makeRaw makes of the settings: it clears all of these flags.
pub raw_settings : Termios → Termios
raw_settings termios = record termios { flag = λ f. false; char_size = 8; vmin = 0; vtime = 1 }

-- The ioctls TCGETS and TCSETS on stdin.
pub record Tty (C : Type 0) : Type 0 where
  pub get_termios : H C (Result ApiError Termios)
  pub set_termios : Termios → H C (Result ApiError (Unit {0}))

-- How the wait for the remote shell ends: an exit status is `exited 0` without an error, and an
-- ExitError otherwise.
pub data Waited : Type 0 where
  exited : ℕ → Waited
  wait_failed : ApiError → Waited

-- The calls of the ssh package, and `term.GetSize` of stdin, with width and height.
pub record Ssh (C : Type 0) : Type 0 where
  pub dial : String → ℕ → String → String → H C (Result ApiError (Unit {0}))
  pub new_session : H C (Result ApiError (Unit {0}))
  pub get_size : H C (Result ApiError (ℕ × ℕ))
  -- The kind of terminal, its height and its width.
  pub request_pty : String → ℕ → ℕ → H C (Result ApiError (Unit {0}))
  pub stdin_pipe : H C (Result ApiError (Unit {0}))
  pub shell : H C (Result ApiError (Unit {0}))
  pub wait : H C Waited
  pub close_session : H C (Unit {0})
  pub close_client : H C (Unit {0})

pub data Resource : Type 0 where
  client session raw_terminal window_changes stdin_copy : Resource

-- `restored` is the release of the terminal, with what the ioctl answers.
pub data Action : Type 0 where
  acquired released : Resource → Action
  restored : Result ApiError (Unit {0}) → Action

abbrev pub Trace : Type 0
Trace = List Action

-- A body over the machine and the trace.
abbrev pub T : Type 0 → Type 0 → Type 0
T C A = C × Trace → A × (C × Trace)

module _ {C : Type 0} where
  -- A call of a parameter.
  abbrev pub call : {A : Type 0} → H C A → T C A
  call m (c, trace) = ((m c).0, ((m c).1, trace))

  abbrev pub note : Action → T C (Unit {0})
  note action (c, trace) = (tt, (c, action ∷ trace))

  infixl 5 ◌>>◌
  abbrev pub ◌>>◌ : {B : Type 0} → T C (Unit {0}) → T C B → T C B
  ◌>>◌ m n c = n (m c).1

  -- `defer release` at the start of the body: the release runs when the body has returned.
  pub deferring : {A : Type 0} → T C (Unit {0}) → T C A → T C A
  deferring release body = do result ← body; release; pure result

  -- A call whose error is returned at once.
  pub checked :
      {A B : Type 0}
      → H C (Result ApiError A)
      → (A → T C (Result ApiError B))
      → T C (Result ApiError B)
  checked m next = do answer ← call m; elim answer [ err e ↦ pure (err e) | ok a ↦ next a ]

module _ {C : Type 0} (tty : Tty C) where
  -- makeRaw: it answers with the old settings.
  pub make_raw : H C (Result ApiError Termios)
  make_raw = do
    got ← tty.get_termios
    elim got [
      | err e ↦ pure (err e)
      | ok old ↦ do
        set ← tty.set_termios (raw_settings old)
        pure (elim set [ err e ↦ err e | ok _ ↦ ok old ])
    ]

  pub restore : Termios → T C (Unit {0})
  restore state = do set ← call (tty.set_termios state); note (restored set)

  module _ (ssh : Ssh C) where
    -- The exit status is an answer, not an error.
    pub finish : T C (Result ApiError ℕ)
    finish = do
      waited ← call ssh.wait
      pure (elim waited [ exited status ↦ ok status | wait_failed e ↦ err e ])

    -- With the pipe to stdin.
    pub run_shell : T C (Result ApiError ℕ)
    run_shell = do
      note (acquired stdin_copy)
      deferring (note (released stdin_copy)) (checked ssh.shell (λ _. finish))

    -- With the terminal in raw mode.
    pub run_pty : ℕ → ℕ → T C (Result ApiError ℕ)
    run_pty width height = checked (ssh.request_pty "xterm-256color" height width) (λ _. do
      note (acquired window_changes)
      deferring (note (released window_changes)) (checked ssh.stdin_pipe (λ _. run_shell)))

    -- With a session.
    pub run_session : T C (Result ApiError ℕ)
    run_session = checked ssh.get_size (λ size. checked make_raw (λ state. do
      note (acquired raw_terminal)
      deferring (restore state) (run_pty size.0 size.1)))

    -- `_access` from `ssh.Dial` on.
    pub connect : String → ℕ → String → String → T C (Result ApiError ℕ)
    connect host port username password = checked (ssh.dial host port username password) (λ _. do
      note (acquired client)
      deferring (do call ssh.close_client; note (released client))
          (checked ssh.new_session (λ _. do
            note (acquired session)
            deferring (do call ssh.close_session; note (released session)) run_session)))
