-- ===== src/Startup.antt =====
-- cmd/controller-manager/main.go and cmd/gateway/main.go: how a process puts its parts under the manager
-- of controller-runtime, a parameter, and starts it. A trace holds what the manager was given, the
-- newest first. Flags are parsed by package flag; their values are arguments here.
pub mod Launched
pub mod Nclet
use netcon_problem_managemen.Prelude.{
  ℕ, String, Bool, true, false, List, [], ◌∷◌, Result, ok, err, if◌then◌else◌,
}
use netcon_problem_managemen.Kube.{ApiError}
use netcon_problem_managemen.Host.{H, pure, ◌>>=◌}
use netcon_problem_managemen.ControllerManager.Election.{SchedulerParameters}

-- How `main` ends: with `os.Exit(1)`, with a panic, or by returning.
pub data Outcome : Type 0 where
  exited panicked finished : Outcome

pub data Step (Part : Type 0) : Type 0 where
  added : Part → Step Part
  started : Step Part

-- `ctrl.NewManager`, the calls that put a part under the manager, and `Start`.
pub record Manager (C Part : Type 0) : Type 0 where
  pub new_manager : H C (Result ApiError (Unit {0}))
  pub add : Part → H C (Result ApiError (Unit {0}))
  pub start : H C (Result ApiError (Unit {0}))

module _ {C Part : Type 0} where
  abbrev pub call : {A : Type 0} → H C A → H (C × List (Step Part)) A
  call m (c, trace) = ((m c).0, ((m c).1, trace))

  abbrev pub note : {A : Type 0} → Step Part → A → H (C × List (Step Part)) A
  note step a (c, trace) = (a, (c, step ∷ trace))

module _ {C Part : Type 0} (manager : Manager C Part) where
  -- A part, and whether it was taken.
  pub add : Part → H (C × List (Step Part)) Bool
  add part = do
    answer ← call (manager.add part)
    elim answer [ err e ↦ pure false | ok _ ↦ note (added part) true ]

  pub start : H (C × List (Step Part)) Outcome
  start = do
    noted ← note started tt
    ended ← call manager.start
    pure (elim ended [ err e ↦ exited | ok _ ↦ finished ])

  -- The parts in their order; the first that is not taken ends the process.
  pub launch : List Part → H (C × List (Step Part)) Outcome
  launch [] = start
  launch (part ∷ parts) = do taken ← add part; if taken then launch parts else pure exited

  run_parts : List Part → H (C × List (Step Part)) Outcome
  run_parts parts = do
    made ← call manager.new_manager
    elim made [ err e ↦ pure exited | ok _ ↦ launch parts ]

-- The parts of the controller manager; the intervals are in seconds.
pub data ControllerPart (F : Type 0) : Type 0 where
  problem_reconciler : ControllerPart F
  environment_reconciler : SchedulerParameters F → ControllerPart F
  worker_controller metrics_exporter : ℕ → ControllerPart F
  problem_webhook environment_webhook health_check ready_check : ControllerPart F

controller_parts : {F : Type 0} → SchedulerParameters F → List (ControllerPart F)
controller_parts parameters =
    problem_reconciler
    ∷ environment_reconciler parameters
    ∷ worker_controller 3
    ∷ metrics_exporter 3
    ∷ problem_webhook
    ∷ environment_webhook
    ∷ health_check
    ∷ ready_check
    ∷ []

-- The parts of the gateway.
pub data GatewayPart : Type 0 where
  gateway health_check ready_check : GatewayPart

gateway_parts : List GatewayPart
gateway_parts = GatewayPart.gateway ∷ GatewayPart.health_check ∷ GatewayPart.ready_check ∷ []

run_controller_manager :
    {C F : Type 0}
    → Manager C (ControllerPart F)
    → SchedulerParameters F
    → H (C × List (Step (ControllerPart F))) Outcome
run_controller_manager manager parameters = run_parts manager (controller_parts parameters)

run_gateway : {C : Type 0} → Manager C GatewayPart → H (C × List (Step GatewayPart)) Outcome
run_gateway manager = run_parts manager gateway_parts
