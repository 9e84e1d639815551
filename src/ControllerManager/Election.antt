-- ===== src/ControllerManager/Election.antt =====
-- problemenvironment_controller.go, `electWorker` and `electWorkerFromCandidates`.
-- float64 is a parameter with the operations that the code uses, and so is the parser of label
-- selectors of the Kubernetes libraries (`none`: the selector does not parse). The one random number
-- that an election draws is the argument `draw`.
pub mod Sound
mod Examples
use netcon_problem_managemen.Prelude.{
  String, Bool, true, false, not, Option, none, some, List, [], ◌∷◌, map, if◌then◌else◌,
}
use netcon_problem_managemen.Api.{
  Labels, LabelSelector, Worker, worker_condition_ready, condition_true,
}
use netcon_problem_managemen.Condition.{is_true, get_worker_condition}

-- float64, `math.Exp` and `strconv.ParseFloat`.
pub record Floats (F : Type 0) : Type 0 where
  pub zero : F
  pub one : F
  pub hundred : F
  pub add : F → F → F
  pub sub : F → F → F
  pub mul : F → F → F
  pub div : F → F → F
  pub exp : F → F
  pub lt : F → F → Bool
  pub parse_float : String → Option F

pub record SchedulerParameters (F : Type 0) : Type 0 where
  pub cpu_weight : F
  pub memory_weight : F
  pub memory_threshold : F
  pub temperature : F

pub record CandidateWorker (F : Type 0) : Type 0 where
  pub name : String
  pub score : F

-- metav1.LabelSelectorAsSelector, then `Matches` on a worker's labels.
abbrev pub SelectorParser : Type 0
SelectorParser = LabelSelector → Option (Option Labels → Bool)

-- The inner loop: does a selector that parses match?
pub matches_any : SelectorParser → List LabelSelector → Option Labels → Bool
matches_any parse [] labels = false
matches_any parse (selector ∷ selectors) labels =
    let rest = matches_any parse selectors labels in
    elim (parse selector) [ none ↦ rest | some s ↦ if s labels then true else rest ]

-- `len(workerSelectors) > 0` and the loop under it.
pub selected : SelectorParser → Option (List LabelSelector) → Option Labels → Bool
unfolding matches_any
selected parse none labels = true
selected parse (some []) labels = true
selected parse (some (s ∷ ss)) labels = matches_any parse (s ∷ ss) labels

module _ {F : Type 0} (floats : Floats F) where
  open floats use {zero, one, hundred, add, sub, mul, div, exp, lt, parse_float}

  -- A percentage that does not parse counts as MAX_USED_PERCENT.
  pub used_percent : String → F
  used_percent text = elim (parse_float text) [ none ↦ hundred | some p ↦ p ]

  module _ (parse : SelectorParser) (parameters : SchedulerParameters F) where
    open parameters use {cpu_weight, memory_weight, memory_threshold, temperature}

    pub score : Worker → F
    unfolding used_percent
    score worker =
        let cpu = used_percent worker.status.worker_info.cpu_used_percent in
        let memory = used_percent worker.status.worker_info.memory_used_percent in
        let cost = add (mul cpu cpu_weight) (mul memory memory_weight) in
        sub one (div (div cost (add cpu_weight memory_weight)) hundred)

    -- The loop's body: `none` where it continues with the next worker.
    pub candidate : Option (List LabelSelector) → Worker → Option (CandidateWorker F)
    unfolding score
    candidate selectors worker =
        if not (is_true (get_worker_condition worker worker_condition_ready))
        then none
        else if worker.spec.disable_schedule
        then none
        else if not (selected parse selectors worker.meta.labels)
        then none
        else if lt memory_threshold (used_percent worker.status.worker_info.memory_used_percent)
        then none
        else some (record { name = worker.meta.name; score = score worker })

    pub candidates : Option (List LabelSelector) → List Worker → List (CandidateWorker F)
    candidates selectors [] = []
    candidates selectors (worker ∷ workers) = elim (candidate selectors worker) [
      | none ↦ candidates selectors workers
      | some c ↦ c ∷ candidates selectors workers
    ]

    pub weight : CandidateWorker F → F
    weight c = exp (div c.score temperature)

    pub total_weight : F → List (CandidateWorker F) → F
    total_weight total [] = total
    total_weight total (c ∷ cs) = total_weight (add total (weight c)) cs

    -- The last loop: `v` is what is left of the draw, `last` the name of the last candidate.
    pub pick : F → String → F → List (CandidateWorker F) → String
    pick total last v [] = last
    pick total last v (c ∷ cs) =
        let v' = sub v (div (weight c) total) in
        let rest = pick total last v' cs in if lt v' zero then c.name else rest

    pub last_name : CandidateWorker F → List (CandidateWorker F) → String
    last_name c [] = c.name
    last_name c (d ∷ ds) = last_name d ds

    -- On a list that is not empty, as the only caller gives it.
    pub elect_worker_from_candidates : F → CandidateWorker F → List (CandidateWorker F) → String
    elect_worker_from_candidates draw c cs =
        pick (total_weight zero (c ∷ cs)) (last_name c cs) draw (c ∷ cs)

    pub elect_worker : F → List Worker → Option (List LabelSelector) → String
    elect_worker draw workers selectors = elim (candidates selectors workers) [
      | [] ↦ ""
      | c ∷ cs ↦ elect_worker_from_candidates draw c cs
    ]
