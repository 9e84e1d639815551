-- ===== src/Gateway/Responses.antt =====
-- The HTTP statuses of the acquisition.
use netcon_problem_managemen.Prelude.{
  ℕ, String, ◌≡◌, ◌↔◌, inl, inr, none, some, List, [], ◌∷◌, All, arith, Result, ok, err,
  Result-cases,
}
use netcon_problem_managemen.Api.{ProblemEnvironment, Problem}
use netcon_problem_managemen.Kube.{ApiError, not_found, Client, World}
use netcon_problem_managemen.Gateway.{
  Json, unless_not_found, select, claim, access_to, render_json, acquire_error,
  acquire_problem_environment, acquire_problem_environment_handler,
}
use netcon_problem_managemen.Gateway.Selection.{
  first_available-First, first_available-none, Available,
}

module _ {C : Type 0} (k : Client C) (json : Json) (text : ApiError → String) (now : ℕ)
    (body problem_name : String) (w : World C)
    (decoded : json.decode body ≡ some problem_name) where
  abbrev got : Result ApiError Problem
  got = (k.get_problem "netcon" problem_name w.cluster).0

  abbrev listing : Result ApiError (List ProblemEnvironment) × C
  listing =
      k.list_problem_environments none (("problemName", problem_name) ∷ [])
        (k.get_problem "netcon" problem_name w.cluster).1

  -- A request that decodes is answered with 404 exactly if the problem does not exist.
  acquire_not_found_iff :
      ((acquire_problem_environment_handler k json text now body w).0.status ≡ 404)
      ↔ (got ≡ err not_found)
  unfolding acquire_problem_environment_handler acquire_problem_environment select claim access_to
      acquire_error render_json unless_not_found
  acquire_not_found_iff = ground arith

  -- It is answered with 503 exactly if the problem exists, its environments are listed, and none of
  -- them is ready and explicitly not assigned.
  acquire_unavailable_iff :
      ((acquire_problem_environment_handler k json text now body w).0.status ≡ 503) ↔ (
        (problem : Problem) × (pes : List ProblemEnvironment) × (got ≡ ok problem)
        × (listing.0 ≡ ok pes)
        × All (λ pe. ¬ Available pe) pes)
  unfolding acquire_problem_environment_handler acquire_problem_environment select claim access_to
      acquire_error render_json unless_not_found
  acquire_unavailable_iff = (
    λ status. elim (Result-cases (k.get_problem "netcon" problem_name w.cluster).0) [
      | inr (e, missing) ↦ absurd (ground arith)
      | inl (problem, found) ↦ elim (Result-cases listing.0) [
        | inr (e, broken) ↦ absurd (ground arith)
        | inl (pes, listed) ↦ elim (first_available-First pes) [
          | inl (pe, picked, first) ↦ absurd (ground arith)
          | inr (nobody, unfit) ↦ (problem, pes, found, listed, unfit)
        ]
      ]
    ],
    λ (problem, pes, found, listed, unfit).
        let nobody = first_available-none pes unfit in ground arith,
  )
