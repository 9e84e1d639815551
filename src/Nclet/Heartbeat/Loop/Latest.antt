-- ===== src/Nclet/Heartbeat/Loop/Latest.antt =====
-- The last renewal that the loop makes, as the controller manager reads it.
use netcon_problem_managemen.Prelude.{
  ℕ, ◌+◌, ◌<◌, String, true, false, ◌≡◌, ◌↔◌, refl, some, Option, List, [], ◌∷◌, ◌++◌, Result, ok,
  arith, Result-cases, ◌∙◌, ap, inl, inr,
}
use netcon_problem_managemen.Api.{Worker, worker_condition_ready, condition_true}
use netcon_problem_managemen.Condition.{get_worker_condition}
use netcon_problem_managemen.ControllerManager.Workers.{judge_worker}
use netcon_problem_managemen.ControllerManager.Workers.Health.{latest_worker}
use netcon_problem_managemen.Kube.{Client, Lease, World}
use netcon_problem_managemen.Nclet.Heartbeat.{
  Numbers, Agent, renew_lease, report_status, get_metrics,
}
use netcon_problem_managemen.Nclet.Heartbeat.Leases.{judge_worker-renewed}
use netcon_problem_managemen.Nclet.Heartbeat.Loop.{
  Registrar, Tick, metrics_collect, heartbeat, status_update, context_done, renew, take_tick, beat,
}
use netcon_problem_managemen.Nclet.Heartbeat.Loop.Renewals.{LeaseLaws, ends, silent}

module _ {C F : Type 0} (k : Client C) (registrar : Registrar C) (numbers : Numbers F)
    (format_float : F → String) (worker_name worker_class external_ip_address : String)
    (external_port : ℕ) where
  beat-append :
      (holder : String) (before after : List (Tick F)) (a : Agent F) (w : World C)
      → ends before ≡ false
      → let ((returned, a'), w') =
          beat k registrar numbers format_float worker_name worker_class external_ip_address
            external_port holder before a w in
        beat k registrar numbers format_float worker_name worker_class external_ip_address
          external_port holder
          (before ++ after)
          a
          w
        ≡ beat k registrar numbers format_float worker_name worker_class external_ip_address
            external_port holder after a' w'
  unfolding beat ends
  beat-append holder [] after a w open_ended = refl
  beat-append holder (context_done ∷ ticks) after a w open_ended =
      absurd (ground (arith, open_ended))
  beat-append holder (metrics_collect cpu mem ∷ ticks) after a w open_ended =
      beat-append holder ticks after _ _ open_ended
  beat-append holder (heartbeat now ∷ ticks) after a w open_ended =
      beat-append holder ticks after _ _ open_ended
  beat-append holder (status_update hostname ∷ ticks) after a w open_ended =
      beat-append holder ticks after _ _ open_ended

  module _ (lease_of : C → Option Lease) (laws : LeaseLaws k registrar worker_name lease_of) where
    report_keeps :
        (hostname : Result String String) (a : Agent F) (w : World C)
        → lease_of
            (report_status k numbers format_float worker_name external_ip_address external_port
              hostname a w).1.cluster
          ≡ lease_of w.cluster
    unfolding report_status
    report_keeps hostname a w =
        let read = laws.get_worker worker_name w.cluster in
        elim (Result-cases (k.get_worker worker_name w.cluster).0) [
          | inr (e, broken) ↦ ground (arith, read)
          | inl (worker, got) ↦ elim (Result-cases hostname) [
            | inr (e, broken) ↦ ground (arith, read)
            | inl (host, named) ↦
                let reported : Worker = record worker {
                  status = record worker.status {
                    worker_info = record {
                      external_ip_address = external_ip_address;
                      external_port = external_port;
                      hostname = host;
                      memory_used_percent = format_float (get_metrics numbers a).1;
                      cpu_used_percent = format_float (get_metrics numbers a).0;
                    };
                  };
                } in
                ground (
                  arith,
                  read,
                  laws.update_worker_status reported (k.get_worker worker_name w.cluster).1,
                )
          ]
        ]

    silent_keeps :
        (holder : String) (ticks : List (Tick F)) (a : Agent F) (w : World C)
        → silent ticks ≡ true
        → lease_of
            (beat k registrar numbers format_float worker_name worker_class external_ip_address
              external_port holder ticks a w).1.cluster
          ≡ lease_of w.cluster
    unfolding beat silent take_tick
    silent_keeps holder [] a w quiet = refl
    silent_keeps holder (context_done ∷ ticks) a w quiet = refl
    silent_keeps holder (metrics_collect cpu mem ∷ ticks) a w quiet =
        silent_keeps holder ticks _ _ quiet
    silent_keeps holder (heartbeat now ∷ ticks) a w quiet = absurd (ground (arith, quiet))
    silent_keeps holder (status_update hostname ∷ ticks) a w quiet =
        silent_keeps holder ticks _ _ quiet ∙ report_keeps hostname a w

    module _ (holder : String) (t : ℕ) (before after : List (Tick F)) (a : Agent F)
        (w : World C) where
      -- The world at the heartbeat at t, and at the end.
      abbrev at_heartbeat : World C
      at_heartbeat =
          (beat k registrar numbers format_float worker_name worker_class external_ip_address
            external_port holder before a w).1

      abbrev at_end : World C
      at_end =
          (beat k registrar numbers format_float worker_name worker_class external_ip_address
            external_port holder (before ++ heartbeat t ∷ after) a w).1

      last_renewal :
          ends before ≡ false
          → silent after ≡ true
          → (renewed : Lease)
          → (renew k registrar numbers format_float worker_name worker_class external_ip_address
              external_port holder t at_heartbeat).0
            ≡ ok renewed
          → (old : Lease) × (lease_of at_end.cluster ≡ some (renew_lease holder t old))
      unfolding renew beat take_tick
      last_renewal open_ended quiet renewed accepted =
          let a' : Agent F =
            (beat k registrar numbers format_float worker_name worker_class external_ip_address
              external_port holder before a w).0.1 in
          let request =
            registrar.create_or_update_lease "netcon" worker_name (renew_lease holder t)
              at_heartbeat.cluster in
          let (old, changed) =
            laws.leased (renew_lease holder t) at_heartbeat.cluster renewed accepted in
          let kept =
            silent_keeps holder after a' (record at_heartbeat { cluster = request.1 }) quiet in
          (
            old,
            ap (λ r. lease_of r.1.cluster)
                  (beat-append holder before (heartbeat t ∷ after) a w open_ended)
                ∙ kept
                ∙ changed,
          )

      -- Where the loop sends a heartbeat at t that the server accepts, and no other until its end, the
      -- controller manager, which later reads the lease as it is then, sets the worker to Ready, or
      -- leaves it so, exactly if it does so within 5 seconds after t, whatever else the agent does and
      -- is answered before and after; its own request has to be accepted too.
      pub judge_worker-last_renewal :
          ends before ≡ false
          → silent after ≡ true
          → (renewed : Lease)
          → (renew k registrar numbers format_float worker_name worker_class external_ip_address
              external_port holder t at_heartbeat).0
            ≡ ok renewed
          → {D : Type 0} (manager : Client D) (now later : ℕ) (worker : Worker) (v : World D)
          → (lease : Lease) → lease_of at_end.cluster ≡ some lease
          → v.writes ≡ []
          → let (errors, v') = judge_worker manager now later worker lease v in
            (get_worker_condition (latest_worker worker v'.writes) worker_condition_ready
              ≡ condition_true)
            ↔ (now < t + 5)
      judge_worker-last_renewal open_ended quiet renewed accepted manager now later worker v lease
            read clean =
          let (old, latest) = last_renewal open_ended quiet renewed accepted in
          let same : lease ≡ renew_lease holder t old = ground (arith, read, latest) in
          rw same (judge_worker-renewed manager holder now later t worker old v clean)
