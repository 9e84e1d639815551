-- ===== src/Gateway/Claims.antt =====
-- Two gateways that race for one environment. The API server's optimistic locking is the hypothesis:
-- an object has a version that no call takes back, and a status update is accepted only at the
-- version that the sent object carries, which it then moves on.
use netcon_problem_managemen.Prelude.{
  ℕ, String, ◌≤◌, ◌<◌, ◌≡◌, inl, inr, arith, ok, err, Result-cases,
}
use netcon_problem_managemen.Api.{ProblemEnvironment}
use netcon_problem_managemen.Condition.{set_problem_environment_condition}
use netcon_problem_managemen.Kube.{Client, World}
use netcon_problem_managemen.Gateway.{Access, GatewayError, assigned, access_to, claim}

pub record Locking {C : Type 0} (k : Client C) : Type 0 where
  pub version : C → String → ℕ
  pub accepts_current :
      (pe pe' : ProblemEnvironment) (c : C)
      → (k.update_problem_environment_status pe c).0 ≡ ok pe'
      → version c pe.meta.name ≡ pe.meta.resource_version
  pub moves_on :
      (pe pe' : ProblemEnvironment) (c : C)
      → (k.update_problem_environment_status pe c).0 ≡ ok pe'
      → version c pe.meta.name < version (k.update_problem_environment_status pe c).1 pe.meta.name
  pub never_back :
      (worker name : String) (c : C) → version c name ≤ version (k.get_worker worker c).1 name

module _ {C : Type 0} (k : Client C) (locking : Locking k) where
  -- A claim that grants access was made at the version that it had read, and has moved it on.
  claim_moves :
      (now : ℕ) (pe : ProblemEnvironment) (w : World C) {access : Access}
      → (claim k now pe w).0 ≡ ok access
      → (locking.version w.cluster pe.meta.name ≡ pe.meta.resource_version)
        × (pe.meta.resource_version < locking.version (claim k now pe w).1.cluster pe.meta.name)
  unfolding claim access_to assigned set_problem_environment_condition
  claim_moves now pe w granted =
      let update = k.update_problem_environment_status (assigned now pe) w.cluster in
      elim (Result-cases update.0) [
        | inr (e, failed) ↦ absurd (ground arith)
        | inl (pe', done) ↦ ground (
          arith,
          locking.accepts_current (assigned now pe) pe' w.cluster done,
          locking.moves_on (assigned now pe) pe' w.cluster done,
          locking.never_back pe'.spec.worker_name pe.meta.name update.1,
        )
      ]

  -- Two claims of one environment, both read at one version: if the first grants access, the second,
  -- made at any later time (the version has not gone back since), does not.
  pub claim_exclusive :
      (now later : ℕ) (pe pe' : ProblemEnvironment) (w w' : World C) {access : Access}
      → pe'.meta.name ≡ pe.meta.name
      → pe'.meta.resource_version ≡ pe.meta.resource_version
      → (claim k now pe w).0 ≡ ok access
      → locking.version (claim k now pe w).1.cluster pe.meta.name
        ≤ locking.version w'.cluster pe.meta.name
      → (e : GatewayError) × ((claim k later pe' w').0 ≡ err e)
  claim_exclusive now later pe pe' w w' same_name same_version granted after =
      elim (Result-cases (claim k later pe' w').0) [
        | inr failed ↦ failed
        | inl (access', twice) ↦
            absurd (ground (arith, claim_moves now pe w granted, claim_moves later pe' w' twice))
      ]
