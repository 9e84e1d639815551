-- ===== src/Condition/Laws.antt =====
-- What a write to the condition list does to every later read, and to the list itself.
use netcon_problem_managemen.Prelude.{
  ℕ, String, ◌≡◌, refl, sym, ◌≢◌, inl, inr, ◌↔◌, true, Bool-cases, ne_of_==, List, [], ◌∷◌, ◌==◌,
  eq_iff, arith, All, Option, none, some, if◌then◌else◌,
}
use netcon_problem_managemen.Api.{
  Condition, ConditionStatus, condition_true, condition_false, condition_unknown,
  ProblemEnvironment, Worker,
}
use netcon_problem_managemen.Condition.{
  is_true, is_false, same_status, set_condition, get_condition, rewrite_condition,
  set_problem_environment_condition, get_problem_environment_condition, set_worker_condition,
  get_worker_condition,
}

module _ (now generation : ℕ) (type : String) (status : ConditionStatus)
    (reason message : String) where
  pub get-set :
      (type' : String) (cs : List Condition)
      → get_condition type' (set_condition now generation type status reason message cs)
        ≡ (if type == type' then status else get_condition type' cs)
  unfolding get_condition set_condition
  get-set type' [] = refl
  get-set type' (c ∷ cs) =
      ground (arith, eq_iff c.type type, eq_iff c.type type', eq_iff type type', get-set type' cs)

pub is_true_iff : (s : ConditionStatus) → (is_true s ≡ true) ↔ (s ≡ condition_true)
unfolding is_true
is_true_iff condition_true = ground arith
is_true_iff condition_false = ground arith
is_true_iff condition_unknown = ground arith

pub is_false_iff : (s : ConditionStatus) → (is_false s ≡ true) ↔ (s ≡ condition_false)
unfolding is_false
is_false_iff condition_true = ground arith
is_false_iff condition_false = ground arith
is_false_iff condition_unknown = ground arith

-- No two conditions of the list have one type.
abbrev pub Unique : List Condition → Type 0
Unique [] = Unit
Unique (c ∷ cs) = All (λ d. d.type ≢ c.type) cs × Unique cs

module _ (now generation : ℕ) (type : String) (status : ConditionStatus)
    (reason message : String) where
  set-All_ne :
      (t : String) (cs : List Condition)
      → type ≢ t
      → All (λ d. d.type ≢ t) cs
      → All (λ d. d.type ≢ t) (set_condition now generation type status reason message cs)
  unfolding set_condition
  set-All_ne t [] ne h = (ne, tt)
  set-All_ne t (c ∷ cs) ne h = ground (arith, set-All_ne t cs ne h.1)

  set-Unique :
      (cs : List Condition)
      → Unique cs
      → Unique (set_condition now generation type status reason message cs)
  unfolding set_condition
  set-Unique [] u = (tt, tt)
  set-Unique (c ∷ cs) u = elim (Bool-cases (c.type == type)) [
    | inl hit ↦ rw hit (unfold rewrite_condition in u)
    | inr miss ↦
        rw miss
          (set-All_ne c.type cs (λ e. ne_of_== c.type type miss (sym e)) u.0, set-Unique cs u.1)
  ]

-- The first condition of a type: what a reader that wants more than the status finds.
find_condition : String → List Condition → Option Condition
find_condition type [] = none
find_condition type (c ∷ cs) = if c.type == type then some c else find_condition type cs

-- The transition time that a write leaves: it moves exactly when the status does.
abbrev transition_time : ℕ → ConditionStatus → Option Condition → ℕ
transition_time now status none = now
transition_time now status (some c) =
    if same_status c.status status then c.last_transition_time else now

module _ (now generation : ℕ) (type : String) (status : ConditionStatus)
    (reason message : String) where
  -- The condition that a write leaves under its type.
  abbrev pub written : Option Condition → Condition
  written old = record {
    type = type;
    status = status;
    observed_generation = generation;
    last_transition_time = transition_time now status old;
    reason = reason;
    message = message;
  }

  -- After a write the first condition of the written type is the new one, with the transition time of
  -- the old one if the status is the same; the first condition of any other type is what it was.
  find-set :
      (type' : String) (cs : List Condition)
      → find_condition type' (set_condition now generation type status reason message cs) ≡ (
          if type == type'
          then some (written (find_condition type cs))
          else find_condition type' cs)
  unfolding find_condition set_condition
  find-set type' [] = refl
  find-set type' (c ∷ cs) =
      ground (arith, eq_iff c.type type, eq_iff c.type type', eq_iff type type', find-set type' cs)

-- Reading the status of a ProblemEnvironment after writing one: the written status under its type,
-- the old one under any other; and the list still has one condition for each type, if it had.
problem_environment_get-set :
    (now : ℕ) (pe : ProblemEnvironment) (type type' : String) (status : ConditionStatus)
    (reason message : String)
    → Unique pe.status.conditions
    → let pe' = set_problem_environment_condition now pe type status reason message in
      (get_problem_environment_condition pe' type'
        ≡ (if type == type' then status else get_problem_environment_condition pe type'))
      × Unique pe'.status.conditions
unfolding set_problem_environment_condition get_problem_environment_condition
problem_environment_get-set now pe type type' status reason message u = (
  get-set now pe.meta.generation type status reason message type' pe.status.conditions,
  set-Unique now pe.meta.generation type status reason message pe.status.conditions u,
)

pub status-set :
    (now : ℕ) (pe : ProblemEnvironment) (type type' : String) (status : ConditionStatus)
    (reason message : String)
    → get_problem_environment_condition
        (set_problem_environment_condition now pe type status reason message)
        type'
      ≡ (if type == type' then status else get_problem_environment_condition pe type')
unfolding set_problem_environment_condition get_problem_environment_condition
status-set now pe type type' status reason message =
    get-set now pe.meta.generation type status reason message type' pe.status.conditions

-- Reading the status of a Worker after writing one: the written status under its type, the old one
-- under any other; and the list still has one condition for each type, if it had.
worker_get-set :
    (now : ℕ) (worker : Worker) (type type' : String) (status : ConditionStatus)
    (reason message : String)
    → Unique worker.status.conditions
    → let worker' = set_worker_condition now worker type status reason message in
      (get_worker_condition worker' type'
        ≡ (if type == type' then status else get_worker_condition worker type'))
      × Unique worker'.status.conditions
unfolding set_worker_condition get_worker_condition
worker_get-set now worker type type' status reason message u = (
  get-set now worker.meta.generation type status reason message type' worker.status.conditions,
  set-Unique now worker.meta.generation type status reason message worker.status.conditions u,
)

pub worker_status-set :
    (now : ℕ) (worker : Worker) (type type' : String) (status : ConditionStatus)
    (reason message : String)
    → get_worker_condition (set_worker_condition now worker type status reason message) type'
      ≡ (if type == type' then status else get_worker_condition worker type')
unfolding set_worker_condition get_worker_condition
worker_status-set now worker type type' status reason message =
    get-set now worker.meta.generation type status reason message type' worker.status.conditions

-- A write to a Worker's conditions leaves the rest of it.
pub set_worker_condition-frame :
    (now : ℕ) (worker : Worker) (type : String) (status : ConditionStatus) (reason message : String)
    → let worker' = set_worker_condition now worker type status reason message in
      (worker'.meta ≡ worker.meta)
      × (worker'.spec ≡ worker.spec)
      × (worker'.status.worker_info ≡ worker.status.worker_info)
unfolding set_worker_condition
set_worker_condition-frame now worker type status reason message = (refl, refl, refl)
