-- ===== src/Nclet/Heartbeat/Loop/Renewals.antt =====
-- When the agent returns, and what the last renewal of its lease is worth.
use netcon_problem_managemen.Prelude.{
  ℕ, String, ◌≡◌, ◌↔◌, refl, none, some, Option, List, [], ◌∷◌, Result, ok, err, arith,
  Result-cases, Bool, true, false, if◌then◌else◌, inl, inr, ◌⊎◌,
}
use netcon_problem_managemen.Api.{Worker}
use netcon_problem_managemen.Kube.{Client, Lease, World}
use netcon_problem_managemen.Nclet.Heartbeat.{
  Numbers, Agent, init_metrics_collector, label_worker, renew_lease,
}
use netcon_problem_managemen.Nclet.Heartbeat.Loop.{
  Registrar, Tick, metrics_collect, heartbeat, status_update, context_done, StartError,
  metrics_failed, request_failed, renew, beat, start,
}

-- Is the context done?
unfoldable pub ends : {F : Type 0} → List (Tick F) → Bool
ends [] = false
ends (context_done ∷ ticks) = true
ends (_ ∷ ticks) = ends ticks

-- Is no tick a heartbeat?
unfoldable pub silent : {F : Type 0} → List (Tick F) → Bool
silent [] = true
silent (heartbeat now ∷ ticks) = false
silent (_ ∷ ticks) = silent ticks

module _ {C F : Type 0} (k : Client C) (registrar : Registrar C) (numbers : Numbers F)
    (format_float : F → String) (worker_name worker_class external_ip_address : String)
    (external_port : ℕ) where
  beat_returns :
      (holder : String) (ticks : List (Tick F)) (a : Agent F) (w : World C)
      → (beat k registrar numbers format_float worker_name worker_class external_ip_address
          external_port holder ticks a w).0.0
        ≡ (if ends ticks then some (ok tt) else none)
  unfolding beat ends
  beat_returns holder [] a w = refl
  beat_returns holder (context_done ∷ ticks) a w = refl
  beat_returns holder (metrics_collect cpu mem ∷ ticks) a w = beat_returns holder ticks _ _
  beat_returns holder (heartbeat now ∷ ticks) a w = beat_returns holder ticks _ _
  beat_returns holder (status_update hostname ∷ ticks) a w = beat_returns holder ticks _ _

  -- The first measurement and both requests succeed.
  pub record Registered (used : Result String F) (now : ℕ) (c : C) : Type 0 where
    pub measured : (number : F) × (used ≡ ok number)
    pub worker : Worker
    pub labelled :
        (registrar.create_or_update_worker worker_name (label_worker worker_name worker_class) c).0
        ≡ ok worker
    pub leased :
        (lease : Lease) × ((registrar.create_or_update_lease "netcon" worker_name
            (renew_lease worker.meta.name now)
            (registrar.create_or_update_worker worker_name
              (label_worker worker_name worker_class)
              c).1).0
          ≡ ok lease)

  module _ (used : Result String F) (now : ℕ) (ticks : List (Tick F)) (a : Agent F)
      (w : World C) where
    abbrev pub returned : Option (Result StartError (Unit {0}))
    returned =
        (start k registrar numbers format_float worker_name worker_class external_ip_address
          external_port used now ticks a w).0.0

    -- The start-up fails, or the loop runs.
    start_cases :
        ((e : StartError) × (returned ≡ some (err e)) × (¬ Registered used now w.cluster))
        ⊎ (Registered used now w.cluster × (returned ≡ (if ends ticks then some (ok tt) else none)))
    unfolding start init_metrics_collector renew
    start_cases = elim (Result-cases used) [
      | inr (e, broken) ↦ inl (metrics_failed e, ground arith, λ r. ground (arith, r.measured))
      | inl (number, measured) ↦
          let labelled =
            registrar.create_or_update_worker worker_name (label_worker worker_name worker_class)
              w.cluster in
          elim (Result-cases labelled.0) [
            | inr (e, broken) ↦
                inl (request_failed e, ground arith, λ r. ground (arith, r.labelled))
            | inl (worker, done) ↦
                let leased =
                  registrar.create_or_update_lease "netcon" worker_name
                    (renew_lease worker.meta.name now) labelled.1 in
                elim (Result-cases leased.0) [
                  | inr (e, broken) ↦
                      inl
                        (request_failed e, ground arith, λ r. ground (arith, r.labelled, r.leased))
                  | inl (lease, kept) ↦ inr (
                    record {
                      measured = (number, measured);
                      worker = worker;
                      labelled = done;
                      leased = (lease, kept);
                    },
                    ground (
                      arith,
                      beat_returns worker.meta.name ticks (init_metrics_collector numbers used a).1
                          (record w { cluster = leased.1 }),
                    ),
                  )
                ]
          ]
    ]

    -- Whatever the machine and the server answer, the agent returns without an error exactly if the
    -- first measurement and the requests for its worker and its lease succeed and its context is done
    -- in the end, and it is still running exactly if they succeed and the context is not done: no error
    -- of a later tick ends it.
    pub start_returns_iff :
        ((returned ≡ some (ok tt)) ↔ (Registered used now w.cluster × (ends ticks ≡ true)))
        × ((returned ≡ none) ↔ (Registered used now w.cluster × (ends ticks ≡ false)))
    start_returns_iff = elim start_cases [
      | inl (e, failed, unregistered) ↦ (
        ((λ r. absurd (ground (arith, r, failed))), (λ h. absurd (unregistered h.0))),
        ((λ r. absurd (ground (arith, r, failed))), (λ h. absurd (unregistered h.0))),
      )
      | inr (registered, runs) ↦ (
        ((λ r. (registered, ground (arith, runs, r))), (λ h. ground (arith, runs, h.1))),
        ((λ r. (registered, ground (arith, runs, r))), (λ h. ground (arith, runs, h.1))),
      )
    ]

-- The server's lease of the worker: a request for it that is accepted leaves it changed by the given
-- function, and the requests for workers leave it alone.
pub record LeaseLaws {C : Type 0} (k : Client C) (registrar : Registrar C) (worker_name : String)
    (lease_of : C → Option Lease) : Type 0 where
  pub leased :
      (change : Lease → Lease) (c : C) (lease : Lease)
      → (registrar.create_or_update_lease "netcon" worker_name change c).0 ≡ ok lease
      → (old : Lease) × (lease_of (registrar.create_or_update_lease "netcon" worker_name change c).1
          ≡ some (change old))
  pub get_worker : (name : String) (c : C) → lease_of (k.get_worker name c).1 ≡ lease_of c
  pub update_worker_status :
      (worker : Worker) (c : C) → lease_of (k.update_worker_status worker c).1 ≡ lease_of c
