-- ===== src/Gateway/Acquisition.antt =====
-- What an acquisition does, whatever the API server answers.
use netcon_problem_managemen.Prelude.{
  ℕ, String, ◌≡◌, ◌⊎◌, inl, inr, refl, none, List, [], ◌∷◌, arith, All, Result, ok, err,
  Result-cases,
}
use netcon_problem_managemen.Api.{Problem, ProblemEnvironment, Worker}
use netcon_problem_managemen.Kube.{ApiError, Client, World, Write, update_environment_status}
use netcon_problem_managemen.Gateway.{
  Access, GatewayError, other, problem_not_found, no_available_problem_environment,
  worker_not_found, unless_not_found, get_problem_environment_for, assigned, access_to, claim,
  select, acquire_problem_environment,
}
use netcon_problem_managemen.Gateway.Selection.{Available, First, first_available-First}

module _ {C : Type 0} (k : Client C) (now : ℕ) (problem_name : String) (w : World C) where
  -- The answers of the server to the requests of an acquisition: the problem, the environments with
  -- the problem's label, the update of the environment that was picked, and the worker that the
  -- updated environment names.
  abbrev problem_got : Result ApiError Problem × C
  problem_got = k.get_problem "netcon" problem_name w.cluster

  abbrev environments_listed : Result ApiError (List ProblemEnvironment) × C
  environments_listed =
      k.list_problem_environments none (("problemName", problem_name) ∷ []) problem_got.1

  abbrev update_answer : ProblemEnvironment → Result ApiError ProblemEnvironment × C
  update_answer pe = k.update_problem_environment_status (assigned now pe) environments_listed.1

  abbrev worker_got : ProblemEnvironment → ProblemEnvironment → Result ApiError Worker
  worker_got pe pe' = (k.get_worker pe'.spec.worker_name (update_answer pe).1).0

  -- The listed environments, and the one that is picked of them.
  abbrev Picked : ProblemEnvironment → Type 0
  Picked pe =
      (problem : Problem) × (pes : List ProblemEnvironment) × (problem_got.0 ≡ ok problem)
      × (environments_listed.0 ≡ ok pes)
      × First pes pe

  -- The ways in which the choice of an environment can fail.
  pub data Unpicked (e : GatewayError) : Type 0 where
    problem_unread :
        (cause : ApiError)
        → problem_got.0 ≡ err cause
        → e ≡ unless_not_found (problem_not_found problem_name) cause
        → Unpicked e
    unlisted :
        (problem : Problem) (cause : ApiError)
        → problem_got.0 ≡ ok problem
        → environments_listed.0 ≡ err cause
        → e ≡ other cause
        → Unpicked e
    all_unavailable :
        (problem : Problem) (pes : List ProblemEnvironment)
        → problem_got.0 ≡ ok problem
        → environments_listed.0 ≡ ok pes
        → All (λ pe. ¬ Available pe) pes
        → e ≡ no_available_problem_environment problem_name
        → Unpicked e

  -- The ways in which an acquisition can end, with the environment that it picked.
  pub data Acquired (result : Result GatewayError Access) (after : List Write) : Type 0 where
    refused :
        (e : GatewayError) → Unpicked e → result ≡ err e → after ≡ w.writes → Acquired result after
    lost :
        (pe : ProblemEnvironment) (e : ApiError)
        → Picked pe
        → after ≡ update_environment_status (assigned now pe) ∷ w.writes
        → (update_answer pe).0 ≡ err e
        → result ≡ err (other e)
        → Acquired result after
    stranded :
        (pe pe' : ProblemEnvironment) (e : ApiError)
        → Picked pe
        → after ≡ update_environment_status (assigned now pe) ∷ w.writes
        → (update_answer pe).0 ≡ ok pe'
        → worker_got pe pe' ≡ err e
        → result ≡ err (unless_not_found (worker_not_found pe'.spec.worker_name) e)
        → Acquired result after
    granted :
        (pe pe' : ProblemEnvironment) (worker : Worker)
        → Picked pe
        → after ≡ update_environment_status (assigned now pe) ∷ w.writes
        → (update_answer pe).0 ≡ ok pe'
        → worker_got pe pe' ≡ ok worker
        → result ≡ ok (get_problem_environment_for pe' worker)
        → Acquired result after

  claim-Acquired :
      (pe : ProblemEnvironment) (w' : World C)
      → w'.writes ≡ w.writes
      → w'.cluster ≡ environments_listed.1
      → Picked pe
      → Acquired (claim k now pe w').0 (claim k now pe w').1.writes
  unfolding claim access_to
  claim-Acquired pe w' quiet at picked = elim (Result-cases (update_answer pe).0) [
    | inr (e, failed) ↦ lost pe e picked (ground arith) failed (ground arith)
    | inl (pe', done) ↦ elim (Result-cases (worker_got pe pe')) [
      | inr (e, missing) ↦ stranded pe pe' e picked (ground arith) done missing (ground arith)
      | inl (worker, got) ↦ granted pe pe' worker picked (ground arith) done got (ground arith)
    ]
  ]

  -- The selection sends nothing, and ends with an error or the first available of the listed.
  Selected : Type 0
  Selected =
      ((select k problem_name w).1.writes ≡ w.writes)
      × (((e : GatewayError) × ((select k problem_name w).0 ≡ err e) × Unpicked e)
          ⊎ ((pe : ProblemEnvironment) × ((select k problem_name w).0 ≡ ok pe)
              × ((select k problem_name w).1.cluster ≡ environments_listed.1)
              × Picked pe))

  select-Selected : Selected
  unfolding select Selected
  select-Selected = elim (Result-cases problem_got.0) [
    | inr (e, failed) ↦ (
      ground arith,
      inl (
        unless_not_found (problem_not_found problem_name) e,
        ground arith,
        problem_unread e failed refl,
      ),
    )
    | inl (problem, found) ↦ elim (Result-cases environments_listed.0) [
      | inr (e, failed) ↦
          (ground arith, inl (other e, ground arith, unlisted problem e found failed refl))
      | inl (pes, listed) ↦ elim (first_available-First pes) [
        | inr (none_, unfit) ↦ (
          ground arith,
          inl (
            no_available_problem_environment problem_name,
            ground arith,
            all_unavailable problem pes found listed unfit refl,
          ),
        )
        | inl (pe, some_, first) ↦ (
          ground arith,
          inr (pe, ground arith, ground arith, (problem, pes, found, listed, first)),
        )
      ]
    ]
  ]

  -- An acquisition that picks no environment sends nothing and answers with the reason: the problem
  -- or the environments could not be read, or none of them is available. Otherwise it picks the first
  -- available one that the server listed for the problem, and sends one request, which assigns it. It
  -- then answers with the error of that request if the server refuses it; else with the error of
  -- reading the worker that the updated environment names, after which the environment stays
  -- assigned; else with the access to the updated environment on that worker.
  pub acquire_problem_environment-Acquired :
      let (result, w') = acquire_problem_environment k now problem_name w in
      Acquired result w'.writes
  unfolding acquire_problem_environment Selected
  acquire_problem_environment-Acquired =
      let (quiet, outcome) = select-Selected in
      elim outcome [
        | inl (e, failed, why) ↦ refused e why (ground arith) (ground arith)
        | inr (pe, selected, at, picked) ↦
            let same : acquire_problem_environment k now problem_name w
                ≡ claim k now pe (select k problem_name w).1 =
              ground arith in
            rw same (claim-Acquired pe (select k problem_name w).1 quiet at picked)
      ]
