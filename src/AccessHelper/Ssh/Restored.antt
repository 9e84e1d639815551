-- ===== src/AccessHelper/Ssh/Restored.antt =====
-- The settings of the terminal around an SSH session.
use netcon_problem_managemen.Prelude.{
  refl, ◌∙◌, ℕ, String, Bool, true, false, ◌≡◌, ◌⊎◌, inl, inr, [], ◌∷◌, Result, ok, err, arith,
  Result-cases,
}
use netcon_problem_managemen.Kube.{ApiError}
use netcon_problem_managemen.Host.{H}
use netcon_problem_managemen.AccessHelper.Ssh.{
  deferring, make_raw, restore, run_pty, run_session, connect, raw_settings, acquired, released,
  raw_terminal, client, session, note, call, ◌>>◌, Termios, Tty, Ssh, restored, Trace, T, checked,
}

-- TCGETS answers with the settings of the terminal, and TCSETS either fails or sets them.
pub record TtyLaws {C : Type 0} (tty : Tty C) (settings : C → Termios) : Type 0 where
  pub get_same : (c : C) → settings (tty.get_termios c).1 ≡ settings c
  pub got : (c : C) (termios : Termios) → (tty.get_termios c).0 ≡ ok termios → settings c ≡ termios
  pub set :
      (termios : Termios) (c : C)
      → (tty.set_termios termios c).0 ≡ ok tt
      → settings (tty.set_termios termios c).1 ≡ termios
  pub set_failed :
      (termios : Termios) (c : C) (e : ApiError)
      → (tty.set_termios termios c).0 ≡ err e
      → settings (tty.set_termios termios c).1 ≡ settings c

-- These calls leave the settings of the terminal alone.
pub record Aside {C : Type 0} (ssh : Ssh C) (settings : C → Termios) : Type 0 where
  pub dial :
      (host : String) (port : ℕ) (username password : String) (c : C)
      → settings (ssh.dial host port username password c).1 ≡ settings c
  pub new_session : (c : C) → settings (ssh.new_session c).1 ≡ settings c
  pub get_size : (c : C) → settings (ssh.get_size c).1 ≡ settings c
  pub close_session : (c : C) → settings (ssh.close_session c).1 ≡ settings c
  pub close_client : (c : C) → settings (ssh.close_client c).1 ≡ settings c

-- Did the ioctl that gives the terminal its settings back fail?
pub restore_failed : Trace → Bool
restore_failed [] = false
restore_failed (restored (err e) ∷ earlier) = true
restore_failed (_ ∷ earlier) = restore_failed earlier

module _ {C : Type 0} (settings : C → Termios) where
  abbrev Steady : {A : Type 0} → T C A → Type 0
  Steady m = (c : C) (trace : Trace) → settings (m (c, trace)).1.0 ≡ settings c

  -- At the end of the body the settings are as before it, or they could not be given back.
  abbrev Restores : {A : Type 0} → T C A → Type 0
  Restores m =
      (c : C) (trace : Trace)
      → (settings (m (c, trace)).1.0 ≡ settings c) ⊎ (restore_failed (m (c, trace)).1.1 ≡ true)

  checked-Restores :
      {A B : Type 0} (m : H C (Result ApiError A)) (next : A → T C (Result ApiError B))
      → ((c : C) → settings (m c).1 ≡ settings c)
      → ((a : A) → Restores (next a))
      → Restores (checked m next)
  unfolding checked
  checked-Restores m next aside then_each c trace = elim (Result-cases (m c).0) [
    | inl (a, good) ↦ elim (then_each a (m c).1 trace) [
      | inl same ↦ inl (ground (arith, aside c, same))
      | inr failed ↦ inr (ground (arith, failed))
    ]
    | inr (e, bad) ↦ inl (ground (arith, aside c))
  ]

  deferring-Restores :
      {A : Type 0} (first release : T C (Unit {0})) (body : T C A)
      → Steady first
      → Steady release
      → ((c : C) (trace : Trace) → restore_failed (release (c, trace)).1.1 ≡ restore_failed trace)
      → Restores body
      → Restores (first >> deferring release body)
  unfolding deferring
  deferring-Restores first release body begins ends remembers inside c trace =
      let opened = first (c, trace) in
      let after = body opened.1 in
      elim (inside opened.1.0 opened.1.1) [
        | inl same ↦ inl (ends after.1.0 after.1.1 ∙ same ∙ begins c trace)
        | inr failed ↦ inr (remembers after.1.0 after.1.1 ∙ failed)
      ]

module _ {C : Type 0} (tty : Tty C) (ssh : Ssh C) (settings : C → Termios)
    (laws : TtyLaws tty settings) (aside : Aside ssh settings) where
  -- In raw mode, and back.
  raw_body-Restores :
      (width height : ℕ)
      → Restores settings (
          checked (make_raw tty) (λ state.
            note (acquired raw_terminal)
            >> deferring (restore tty state) (run_pty tty ssh width height)))
  unfolding checked make_raw deferring restore restore_failed
  raw_body-Restores width height c trace =
      let kept = laws.get_same c in
      let c1 : C = (tty.get_termios c).1 in
      elim (Result-cases (tty.get_termios c).0) [
        | inr (e, unread) ↦ inl (ground (arith, kept))
        | inl (old, read) ↦ elim (Result-cases (tty.set_termios (raw_settings old) c1).0) [
          | inr (e, unset) ↦
              inl (ground (arith, kept, laws.set_failed (raw_settings old) c1 e unset))
          | inl (tt, raw) ↦
              let c2 : C = (tty.set_termios (raw_settings old) c1).1 in
              let after = run_pty tty ssh width height (c2, acquired raw_terminal ∷ trace) in
              elim (Result-cases (tty.set_termios old after.1.0).0) [
                | inl (tt, back) ↦
                    inl (ground (arith, laws.got c old read, laws.set old after.1.0 back))
                | inr (e, stuck) ↦ inr (ground arith)
              ]
        ]
      ]

  -- Whatever the remote side answers, and whatever is done to the terminal during the session, after
  -- the session the terminal has the settings that it had before it, unless the ioctl that gives them
  -- back fails. The ioctls read and set the settings, and neither the connection nor its end, nor the
  -- question for the size of the terminal, changes them.
  pub connect_restores :
      (host : String) (port : ℕ) (username password : String) (c : C)
      → let (c', trace) = (connect tty ssh host port username password (c, [])).1 in
        (settings c' ≡ settings c) ⊎ (restore_failed trace ≡ true)
  unfolding connect run_session restore_failed
  connect_restores host port username password c =
      checked-Restores settings (ssh.dial host port username password) _
        (aside.dial host port username password)
        (λ _.
          deferring-Restores settings (note (acquired client))
            (call ssh.close_client >> note (released client)) _ (λ c trace. refl)
            (λ c trace. aside.close_client c) (λ c trace. refl)
            (checked-Restores settings ssh.new_session _ aside.new_session (λ _.
              deferring-Restores settings (note (acquired session))
                (call ssh.close_session >> note (released session)) (run_session tty ssh)
                (λ c trace. refl) (λ c trace. aside.close_session c) (λ c trace. refl)
                (checked-Restores settings ssh.get_size _ aside.get_size
                  (λ size. raw_body-Restores size.0 size.1)))))
        c []
