-- ===== src/Startup/Nclet/Added.antt =====
-- What nclet has put under its manager when `main` returns, from the host name on.
use netcon_problem_managemen.Prelude.{
  zero, suc, sym, ◌∙◌, ap, String, ℕ, true, ◌&&◌, ◌≢◌, Bool-cases, ◌≡◌, refl, ok, err, inl, inr,
  List, [], ◌∷◌, arith,
}
use netcon_problem_managemen.Prelude.Int.{ℤ, pos, negsuc}
use netcon_problem_managemen.Startup.Launched.{given, add_cases, launch_cases}
use netcon_problem_managemen.Kube.{ApiError}
use netcon_problem_managemen.Startup.Nclet.Parts.{reconciler_part, ssh_part, agent_part, checks}
use netcon_problem_managemen.Startup.Nclet.{
  Flags, Machine, NcletPart, is_positive, add_agent, count_cores, add_parts,
}
use netcon_problem_managemen.Startup.{
  finished, panicked, exited, Step, added, started, Manager, add, launch,
}

module _ {C : Type 0} (manager : Manager C NcletPart) (machine : Machine C) (flags : Flags) where
  -- Whether the manager took the agent, with the checks after it.
  pub data AgentStarted (host : String) (c : C) (trace after : List (Step NcletPart)) : Type 0 where
    with_agent :
        (manager.add (agent_part machine flags host) c).0 ≡ ok tt
        → after ≡ started ∷ given (agent_part machine flags host ∷ checks) trace
        → AgentStarted host c trace after
    without_agent :
        (e : ApiError)
        → (manager.add (agent_part machine flags host) c).0 ≡ err e
        → after ≡ started ∷ given checks trace
        → AgentStarted host c trace after

  -- The number of cores, which is counted only where the flag is 0, and what the machine is then.
  pub data Counted (c : C) (cores : ℕ) (c' : C) : Type 0 where
    by_machine : flags.max_workers ≡ pos 0 → machine.cpu_counts c ≡ (cores, c') → Counted c cores c'
    by_flag : flags.max_workers ≢ pos 0 → c' ≡ c → Counted c cores c'

  -- The manager took the reconciler and the SSH server, in this order, and was then started.
  pub record PartsStarted (host : String) (cores : ℕ) (c : C) (trace after : List (Step NcletPart))
      : Type 0 where
    pub reconciles : (manager.add (reconciler_part flags host cores) c).0 ≡ ok tt
    pub serves :
        (manager.add
          (ssh_part machine flags)
          (manager.add (reconciler_part flags host cores) c).1).0
        ≡ ok tt
    pub agent :
        AgentStarted host
          (manager.add
            (ssh_part machine flags)
            (manager.add (reconciler_part flags host cores) c).1).1
          (given (reconciler_part flags host cores ∷ ssh_part machine flags ∷ []) trace)
          after

  -- The intervals of the two tickers.
  abbrev pub Ticking : Type 0
  Ticking =
      (is_positive (machine.parse_duration flags.heartbeat_interval) ≡ true)
      × (is_positive (machine.parse_duration flags.status_update_interval) ≡ true)

  add_agent-finished :
      (host : String) (c : C) (trace : List (Step NcletPart))
      → (add_agent manager machine flags host (c, trace)).0 ≡ finished
      → Ticking × AgentStarted host c trace (add_agent manager machine flags host (c, trace)).1.1
  unfolding add_agent given
  add_agent-finished host c trace done =
      let next = (add manager (agent_part machine flags host) (c, trace)).1 in
      elim (Bool-cases (
        is_positive (machine.parse_duration flags.heartbeat_interval)
        && is_positive (machine.parse_duration flags.status_update_interval))) [
          | inr never ↦
              let same : (add_agent manager machine flags host (c, trace)).0 ≡ panicked =
                rw never refl in
              absurd (ground (arith, done, same))
          | inl ticking ↦
              let same : add_agent manager machine flags host (c, trace)
                  ≡ launch manager checks next =
                rw ticking refl in
              let both : Ticking = (ground (arith, ticking), ground (arith, ticking)) in
              elim (launch_cases manager checks next.0 next.1) [
                | inr out ↦ absurd (ground (arith, done, ap (λ r. r.0) same, out))
                | inl launched ↦ elim (add_cases manager (agent_part machine flags host) c trace) [
                  | inl (good, taken, noted) ↦ (
                    both,
                    with_agent good (
                        ap (λ r. r.1.1) same
                        ∙ launched
                        ∙ ap (λ (n : C × List (Step NcletPart)). started ∷ given checks n.1) noted),
                  )
                  | inr (e, bad, refused, noted) ↦ (
                    both,
                    without_agent e bad (
                        ap (λ r. r.1.1) same
                        ∙ launched
                        ∙ ap (λ (n : C × List (Step NcletPart)). started ∷ given checks n.1) noted),
                  )
                ]
              ]
        ]

  count_cores-Counted :
      (max_workers : ℤ) (c : C) (trace : List (Step NcletPart))
      → flags.max_workers ≡ max_workers
      → let (cores, (c', after)) = count_cores manager machine flags max_workers (c, trace) in
        Counted c cores c' × (after ≡ trace)
  unfolding count_cores
  count_cores-Counted (pos zero) c trace e = (by_machine e refl, refl)
  count_cores-Counted (pos (suc n)) c trace e = (by_flag (λ z. ground (arith, e, z)) refl, refl)
  count_cores-Counted (negsuc n) c trace e = (by_flag (λ z. ground (arith, e, z)) refl, refl)

  -- The parts from the host name on.
  abbrev pub FromHost : String → C → List (Step NcletPart) → List (Step NcletPart) → Type 0
  FromHost host c trace after =
      (cores : ℕ) × (c' : C) × Counted c cores c' × PartsStarted host cores c' trace after

  pub add_parts-finished :
      (host : String) (c : C) (trace : List (Step NcletPart))
      → (add_parts manager machine flags host (c, trace)).0 ≡ finished
      → Ticking × FromHost host c trace (add_parts manager machine flags host (c, trace)).1.1
  unfolding add_parts given
  add_parts-finished host c trace done =
      let counted = count_cores manager machine flags flags.max_workers (c, trace) in
      let first = reconciler_part flags host counted.0 in
      let second = ssh_part machine flags in
      let c' : C = counted.1.0 in
      let next1 = (add manager first counted.1).1 in
      elim (add_cases manager first c' counted.1.1) [
        | inr (e, bad, refused, noted) ↦
            let same : (add_parts manager machine flags host (c, trace)).0 ≡ exited =
              rw refused refl in
            absurd (ground (arith, done, same))
        | inl (reconciles, taken, noted) ↦ elim (add_cases manager second next1.0 next1.1) [
          | inr (e, bad, refused, noted') ↦
              let same : (add_parts manager machine flags host (c, trace)).0 ≡ exited =
                rw taken (rw refused refl) in
              absurd (ground (arith, done, same))
          | inl (serves, served, noted') ↦
              let (cores, quiet) = count_cores-Counted flags.max_workers c trace refl in
              let c2 : C = (manager.add second (manager.add first c').1).1 in
              let trace2 : List (Step NcletPart) = added second ∷ (added first ∷ trace) in
              let next : (add manager second next1).1 ≡ (c2, trace2) =
                noted'
                ∙ ap
                    (λ (n : C × List (Step NcletPart)).
                      ((manager.add second n.0).1, added second ∷ n.1))
                    (noted ∙ ap (λ t. ((manager.add first c').1, added first ∷ t)) quiet) in
              let same : add_parts manager machine flags host (c, trace)
                  ≡ add_agent manager machine flags host (c2, trace2) =
                rw taken (rw served (ap (add_agent manager machine flags host) next)) in
              let (ticking, at) =
                add_agent-finished host c2 trace2 (ap (λ r. r.0) (sym same) ∙ done) in
              (
                ticking,
                (
                  counted.0,
                  c',
                  cores,
                  record {
                    reconciles = reconciles;
                    serves =
                        ap (λ (n : C × List (Step NcletPart)). (manager.add second n.0).0)
                          (sym noted)
                        ∙ serves;
                    agent = rw same at;
                  },
                ),
              )
        ]
      ]
