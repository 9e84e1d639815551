-- ===== src/Nclet/Ssh/Server/Counts.antt =====
-- What the counters of the SSH server count.
use netcon_problem_managemen.Prelude.{
  Bool-cases, ℕ, suc, ◌+◌, String, Bool, true, false, ◌≡◌, ◌↔◌, List, [], ◌∷◌, length, Result, ok,
  err, arith, Result-cases, inl, inr,
}
use netcon_problem_managemen.Kube.{Client, World}
use netcon_problem_managemen.Nclet.Ssh.{handle_password_authentication}
use netcon_problem_managemen.Nclet.Ssh.Server.{
  Counters, password_handler, answer_all, begin_session, end_session,
}

-- How many of the answers are `b`.
answers_of : Bool → List Bool → ℕ
answers_of b [] = 0
answers_of true (true ∷ answers) = suc (answers_of true answers)
answers_of false (false ∷ answers) = suc (answers_of false answers)
answers_of b (_ ∷ answers) = answers_of b answers

module _ {C : Type 0} (k : Client C) (admin_password : String) where
  password_handler_counts :
      (user_name password : String) (w : World C) (counters : Counters)
      → let (accepted, (w', counters')) =
          password_handler k admin_password user_name password (w, counters) in
        ((accepted ≡ true)
          ↔ ((handle_password_authentication k admin_password user_name password w).0 ≡ ok tt))
        × (counters'.succeeded ≡ counters.succeeded + answers_of true (accepted ∷ []))
        × (counters'.failed ≡ counters.failed + answers_of false (accepted ∷ []))
        × (counters'.in_flight ≡ counters.in_flight)
        × (counters'.durations ≡ counters.durations)
  unfolding password_handler answers_of
  password_handler_counts user_name password w counters =
      elim (Result-cases (handle_password_authentication k admin_password user_name password w).0) [
        | inl (tt, good) ↦ ground arith
        | inr (e, bad) ↦ ground arith
      ]

  -- Whatever the attempts to log in and the answers of the server are: the counter of the accepted
  -- attempts grows by the number of those that are accepted, the other one by the number of the rest,
  -- so together they grow by one for each attempt; the other counters stay.
  answer_all-counts :
      (attempts : List (String × String)) (w : World C) (counters : Counters)
      → let (answers, (w', counters')) = answer_all k admin_password attempts (w, counters) in
        (counters'.succeeded ≡ counters.succeeded + answers_of true answers)
        × (counters'.failed ≡ counters.failed + answers_of false answers)
        × (counters'.succeeded + counters'.failed
            ≡ counters.succeeded + counters.failed + length attempts)
        × (counters'.in_flight ≡ counters.in_flight)
        × (counters'.durations ≡ counters.durations)
  unfolding answer_all answers_of
  answer_all-counts [] w counters = ground arith
  answer_all-counts ((user_name, password) ∷ attempts) w counters =
      let first = password_handler_counts user_name password w counters in
      let state = (password_handler k admin_password user_name password (w, counters)).1 in
      let rest = answer_all-counts attempts state.0 state.1 in
      elim (Bool-cases (password_handler k admin_password user_name password (w, counters)).0) [
        | inl accepted ↦ ground (arith, first, rest)
        | inr refused ↦ ground (arith, first, rest)
      ]

-- The sessions of a server, begun and ended in any order: `sessions` are those that have begun and not
-- ended, whose number is in flight.
pub data Serving : ℕ → ℕ → Counters → Counters → Type 0 where
  none_yet : {counters : Counters} → Serving 0 0 counters counters
  begins :
      {open_sessions ended : ℕ} {before after : Counters}
      → Serving open_sessions ended before after
      → Serving (suc open_sessions) ended before (begin_session after)
  finishes :
      {open_sessions ended : ℕ} {before after : Counters} (result : Result String (Unit {0}))
      (duration : ℕ)
      → Serving (suc open_sessions) ended before after
      → Serving open_sessions (suc ended) before (end_session result duration after)

-- However the sessions interleave, the gauge has grown by the number of sessions that have begun and
-- not ended, one duration is observed for each that has ended, with an error or without, and the
-- counters of the attempts to log in stay.
pub Serving-counts :
    {open_sessions ended : ℕ} {before after : Counters}
    → Serving open_sessions ended before after
    → (after.in_flight ≡ before.in_flight + open_sessions)
      × (length after.durations ≡ length before.durations + ended)
      × (after.succeeded ≡ before.succeeded)
      × (after.failed ≡ before.failed)
unfolding begin_session end_session
Serving-counts none_yet = ground arith
Serving-counts (begins serving) = ground (arith, Serving-counts serving)
Serving-counts (finishes (ok _) duration serving) = ground (arith, Serving-counts serving)
Serving-counts (finishes (err e) duration serving) = ground (arith, Serving-counts serving)
