-- ===== src/Startup/Nclet/Started.antt =====
-- What holds of a process of nclet that returns.
use netcon_problem_managemen.Startup.Nclet.Added.{Ticking, FromHost, add_parts-finished}
use netcon_problem_managemen.Prelude.{
  sym, Result-cases, ◌∙◌, ap, String, ◌≢◌, ◌==◌, Bool-cases, ne_of_==, ◌≡◌, refl, Result, ok, inl,
  inr, List, arith,
}
use netcon_problem_managemen.Kube.{ApiError}
use netcon_problem_managemen.Startup.Nclet.{
  Flags, Machine, NcletPart, add_parts, run_nclet, prepare, after_tracing, after_manager,
  after_hostname,
}
use netcon_problem_managemen.Startup.{finished, exited, Step, Manager}

module _ {C : Type 0} (manager : Manager C NcletPart) (machine : Machine C) (flags : Flags) where
  -- The host name, as the machine answers it once the tracing and the manager are set up.
  abbrev hostname_got : C → Result ApiError String × C
  hostname_got c = machine.hostname (manager.new_manager (machine.setup_tracing c).1).1

  -- What holds of a process that returns, beside its class.
  pub record Prepared (c : C) (trace after : List (Step NcletPart)) : Type 0 where
    pub ticking : Ticking manager machine flags
    pub host : String
    pub named : (hostname_got c).0 ≡ ok host
    pub parts : FromHost manager machine flags host (hostname_got c).1 trace after

  prepare-finished :
      (c : C) (trace : List (Step NcletPart))
      → (prepare manager machine flags (c, trace)).0 ≡ finished
      → Prepared c trace (prepare manager machine flags (c, trace)).1.1
  unfolding prepare after_tracing after_manager after_hostname
  prepare-finished c trace done =
      let c1 : C = (machine.setup_tracing c).1 in
      let c2 : C = (manager.new_manager c1).1 in
      let c3 : C = (machine.hostname c2).1 in
      elim (Result-cases (machine.setup_tracing c).0) [
        | inr (e, untraced) ↦
            let same : (prepare manager machine flags (c, trace)).0 ≡ exited =
              ap (λ r. (after_tracing manager machine flags r (c1, trace)).0) untraced in
            absurd (ground (arith, done, same))
        | inl (_, traced) ↦
            let first : prepare manager machine flags (c, trace)
                ≡ after_manager manager machine flags (manager.new_manager c1).0 (c2, trace) =
              ap (λ r. after_tracing manager machine flags r (c1, trace)) traced in
            elim (Result-cases (manager.new_manager c1).0) [
              | inr (e, unmade) ↦
                  let same : (prepare manager machine flags (c, trace)).0 ≡ exited =
                    ap (λ r. r.0) first
                    ∙ ap (λ r. (after_manager manager machine flags r (c2, trace)).0) unmade in
                  absurd (ground (arith, done, same))
              | inl (_, made) ↦
                  let second : prepare manager machine flags (c, trace)
                      ≡ after_hostname manager machine flags (machine.hostname c2).0 (c3, trace) =
                    first ∙ ap (λ r. after_manager manager machine flags r (c2, trace)) made in
                  elim (Result-cases (machine.hostname c2).0) [
                    | inr (e, unnamed) ↦
                        let same : (prepare manager machine flags (c, trace)).0 ≡ exited =
                          ap (λ r. r.0) second
                          ∙ ap (λ r. (after_hostname manager machine flags r (c3, trace)).0)
                              unnamed in
                        absurd (ground (arith, done, same))
                    | inl (host, named) ↦
                        let same : prepare manager machine flags (c, trace)
                            ≡ add_parts manager machine flags host (c3, trace) =
                          second
                          ∙ ap (λ r. after_hostname manager machine flags r (c3, trace)) named in
                        let (ticking, parts) =
                          add_parts-finished manager machine flags host c3 trace
                            (ap (λ r. r.0) (sym same) ∙ done) in
                        record {
                          ticking = ticking;
                          host = host;
                          named = named;
                          parts = rw same parts;
                        }
                  ]
            ]
      ]

  -- If the process returns at all, it had a worker class, got its host name from the machine, and got
  -- positive intervals; its manager took the reconciler, with this host name and, where the flag does
  -- not set the number of reconciles, with the cores that the machine counted, and then the SSH
  -- server, with the password as it was chosen; and it was started with these, with the heartbeat
  -- agent exactly if the manager took it, and with the two checks.
  pub run_nclet-finished :
      (c : C) (trace : List (Step NcletPart))
      → (run_nclet manager machine flags (c, trace)).0 ≡ finished
      → (flags.worker_class ≢ "")
        × Prepared c trace (run_nclet manager machine flags (c, trace)).1.1
  unfolding run_nclet
  run_nclet-finished c trace done = elim (Bool-cases (flags.worker_class == "")) [
    | inl no_class ↦
        let same : (run_nclet manager machine flags (c, trace)).0 ≡ exited = rw no_class refl in
        absurd (ground (arith, done, same))
    | inr class ↦
        let same : run_nclet manager machine flags (c, trace)
            ≡ prepare manager machine flags (c, trace) =
          rw class refl in
        (
          ne_of_== flags.worker_class "" class,
          rw same (prepare-finished c trace (ap (λ r. r.0) (sym same) ∙ done)),
        )
  ]
