-- ===== src/ControllerManager/Election/Sound.antt =====
-- Who can be elected: exactly the workers that may take a ProblemEnvironment.
use netcon_problem_managemen.Prelude.{
  String, ◌≡◌, refl, sym, ap, ◌∙◌, ◌↔◌, ◌⊎◌, inl, inr, Bool, true, false, Option, none, some, List,
  [], ◌∷◌, arith, In, All, Bool-cases, Option-cases,
}
use netcon_problem_managemen.Api.{
  Labels, LabelSelector, Worker, worker_condition_ready, condition_true,
}
use netcon_problem_managemen.Condition.{get_worker_condition}
use netcon_problem_managemen.Condition.Laws.{is_true_iff}
use netcon_problem_managemen.ControllerManager.Election.{
  Floats, SchedulerParameters, CandidateWorker, SelectorParser, matches_any, selected, used_percent,
  score, candidate, candidates, weight, total_weight, pick, last_name, elect_worker_from_candidates,
  elect_worker,
}

-- A selector of the list that parses and matches.
abbrev Matched : SelectorParser → List LabelSelector → Option Labels → Type 0
Matched parse [] labels = ⊥
Matched parse (selector ∷ selectors) labels =
    ((s : Option Labels → Bool) × (parse selector ≡ some s) × (s labels ≡ true))
    ⊎ Matched parse selectors labels

-- No selector at all, or one that matches.
abbrev Wanted : SelectorParser → Option (List LabelSelector) → Option Labels → Type 0
Wanted parse none labels = Unit
Wanted parse (some []) labels = Unit
Wanted parse (some (s ∷ ss)) labels = Matched parse (s ∷ ss) labels

matches_any→Matched :
    (parse : SelectorParser) (selectors : List LabelSelector) (labels : Option Labels)
    → matches_any parse selectors labels ≡ true
    → Matched parse selectors labels
unfolding matches_any
matches_any→Matched parse [] labels h = cc
matches_any→Matched parse (x ∷ xs) labels h = elim (Option-cases (parse x)) [
  | inl e ↦ inr (matches_any→Matched parse xs labels (rw (e, matches_any) at h))
  | inr (s, e) ↦ elim (Bool-cases (s labels)) [
    | inl hit ↦ inl (s, e, hit)
    | inr miss ↦ inr (matches_any→Matched parse xs labels (ground arith))
  ]
]

Matched→matches_any :
    (parse : SelectorParser) (selectors : List LabelSelector) (labels : Option Labels)
    → Matched parse selectors labels
    → matches_any parse selectors labels ≡ true
unfolding matches_any
Matched→matches_any parse [] labels h = absurd h
Matched→matches_any parse (x ∷ xs) labels (inl (s, e, hit)) = ground arith
Matched→matches_any parse (x ∷ xs) labels (inr m) =
    ground (arith, Matched→matches_any parse xs labels m)

selected_iff :
    (parse : SelectorParser) (selectors : Option (List LabelSelector)) (labels : Option Labels)
    → (selected parse selectors labels ≡ true) ↔ Wanted parse selectors labels
unfolding selected
selected_iff parse none labels = (λ _. tt, λ _. refl)
selected_iff parse (some []) labels = (λ _. tt, λ _. refl)
selected_iff parse (some (s ∷ ss)) labels =
    (matches_any→Matched parse (s ∷ ss) labels, Matched→matches_any parse (s ∷ ss) labels)

module _ {F : Type 0} (floats : Floats F) (parse : SelectorParser)
    (parameters : SchedulerParameters F) (selectors : Option (List LabelSelector)) where
  -- A worker that may take the ProblemEnvironment: its health check is good, an administrator has not
  -- disabled it, it is wanted by the selectors, and its memory use is not above the threshold (a
  -- figure that does not parse counts as 100).
  pub record Eligible (worker : Worker) : Type 0 where
    pub ready : get_worker_condition worker worker_condition_ready ≡ condition_true
    pub enabled : worker.spec.disable_schedule ≡ false
    pub wanted : Wanted parse selectors worker.meta.labels
    pub memory :
        floats.lt parameters.memory_threshold
          (used_percent floats worker.status.worker_info.memory_used_percent)
        ≡ false

  candidate-Eligible :
      (worker : Worker) (c : CandidateWorker F)
      → candidate floats parse parameters selectors worker ≡ some c
      → Eligible worker × (c.name ≡ worker.meta.name)
  unfolding candidate
  candidate-Eligible worker c h = ground (
    arith,
    is_true_iff (get_worker_condition worker worker_condition_ready),
    selected_iff parse selectors worker.meta.labels,
  )

  Eligible-candidate :
      (worker : Worker)
      → Eligible worker
      → (c : CandidateWorker F) × (candidate floats parse parameters selectors worker ≡ some c)
  unfolding candidate
  Eligible-candidate worker h = (
    record { name = worker.meta.name; score = score floats parse parameters worker },
    ground (
      arith,
      is_true_iff (get_worker_condition worker worker_condition_ready),
      selected_iff parse selectors worker.meta.labels,
    ),
  )

  candidates-In :
      (workers : List Worker) (c : CandidateWorker F)
      → In c (candidates floats parse parameters selectors workers)
      → (worker : Worker) × In worker workers × Eligible worker × (worker.meta.name ≡ c.name)
  unfolding candidates
  candidates-In [] c m = absurd m
  candidates-In (worker ∷ workers) c m =
      elim (Option-cases (candidate floats parse parameters selectors worker)) [
        | inl e ↦
            let (found, member, good, named) = candidates-In workers c (rw (e, candidates) at m) in
            (found, inr member, good, named)
        | inr (d, e) ↦
            elim (let m' : (c ≡ d) ⊎ In c (candidates floats parse parameters selectors workers) =
                rw (e, candidates) at m in
              m') [
                | inl same ↦
                    let good = candidate-Eligible worker d e in
                    (
                      worker,
                      inl refl,
                      good.0,
                      sym (ap (λ (x : CandidateWorker F). x.name) same ∙ good.1),
                    )
                | inr later ↦
                    let (found, member, good, named) = candidates-In workers c later in
                    (found, inr member, good, named)
              ]
      ]

  pick-In :
      (total v : F) (last : String) (cs : List (CandidateWorker F))
      → (pick floats parse parameters total last v cs ≡ last)
        ⊎ ((c : CandidateWorker F) × In c cs
            × (c.name ≡ pick floats parse parameters total last v cs))
  unfolding pick
  pick-In total v last [] = inl refl
  pick-In total v last (c ∷ cs) =
      let v' = floats.sub v (floats.div (weight floats parse parameters c) total) in
      elim (Bool-cases (floats.lt v' floats.zero)) [
        | inl hit ↦ inr (c, inl refl, rw hit)
        | inr miss ↦ rw miss (elim (pick-In total v' last cs) [
          | inl e ↦ inl e
          | inr (d, member, named) ↦ inr (d, inr member, named)
        ])
      ]

  last_name-In :
      (c : CandidateWorker F) (cs : List (CandidateWorker F))
      → (d : CandidateWorker F) × In d (c ∷ cs) × (d.name ≡ last_name floats parse parameters c cs)
  unfolding last_name
  last_name-In c [] = (c, inl refl, refl)
  last_name-In c (d ∷ ds) =
      let (found, member, named) = last_name-In d ds in (found, inr member, named)

  elected-In :
      (draw : F) (c : CandidateWorker F) (cs : List (CandidateWorker F))
      → (d : CandidateWorker F) × In d (c ∷ cs)
        × (d.name ≡ elect_worker_from_candidates floats parse parameters draw c cs)
  unfolding elect_worker_from_candidates
  elected-In draw c cs =
      let total = total_weight floats parse parameters floats.zero (c ∷ cs) in
      elim (pick-In total draw (last_name floats parse parameters c cs) (c ∷ cs)) [
        | inl e ↦ let (d, member, named) = last_name-In c cs in (d, member, named ∙ sym e)
        | inr found ↦ found
      ]

  candidates-nil :
      (workers : List Worker)
      → candidates floats parse parameters selectors workers ≡ []
      → All (λ worker. ¬ Eligible worker) workers
  unfolding candidates
  candidates-nil [] e = tt
  candidates-nil (worker ∷ workers) e =
      elim (Option-cases (candidate floats parse parameters selectors worker)) [
        | inl out ↦ (
          λ good. cc (Eligible-candidate worker good).1,
          candidates-nil workers (rw (out, candidates) at e),
        )
        | inr (c, out) ↦ absurd (ground arith)
      ]

  -- Either no worker of the list may take the ProblemEnvironment and the election answers "", or it
  -- answers the name of a worker of the list that may: Ready, not disabled, matching one of the
  -- selectors if there are any, and with a memory use that is not above the threshold, where a figure
  -- that does not parse counts as 100.
  pub elect_worker_sound :
      (draw : F) (workers : List Worker)
      → ((elect_worker floats parse parameters draw workers selectors ≡ "")
          × All (λ worker. ¬ Eligible worker) workers)
        ⊎ ((worker : Worker) × In worker workers
            × Eligible worker
            × (worker.meta.name ≡ elect_worker floats parse parameters draw workers selectors))
  unfolding elect_worker
  elect_worker_sound draw workers = go (candidates floats parse parameters selectors workers) refl
    where
      go :
          (cs : List (CandidateWorker F))
          → candidates floats parse parameters selectors workers ≡ cs
          → ((elect_worker floats parse parameters draw workers selectors ≡ "")
              × All (λ worker. ¬ Eligible worker) workers)
            ⊎ ((worker : Worker) × In worker workers
                × Eligible worker
                × (worker.meta.name ≡ elect_worker floats parse parameters draw workers selectors))
      go [] e = inl (rw (e, elect_worker), candidates-nil workers e)
      go (c ∷ cs) e =
          let (d, member, named) = elected-In draw c cs in
          let (worker, listed, good, same) = candidates-In workers d (rw e member) in
          inr (worker, listed, good, same ∙ named ∙ rw (e, elect_worker))
