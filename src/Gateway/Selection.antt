-- ===== src/Gateway/Selection.antt =====
-- Which environment the gateway picks.
use netcon_problem_managemen.Prelude.{
  ◌≡◌, refl, ap, ◌↔◌, ◌⊎◌, inl, inr, true, none, some, List, [], ◌∷◌, ◌++◌, All, arith, Bool-cases,
}
use netcon_problem_managemen.Api.{
  ProblemEnvironment, condition_ready, condition_assigned, condition_true, condition_false,
}
use netcon_problem_managemen.Condition.{get_problem_environment_condition}
use netcon_problem_managemen.Condition.Laws.{is_true_iff, is_false_iff}
use netcon_problem_managemen.Gateway.{is_available, first_available}

-- Ready, and explicitly not assigned.
pub record Available (pe : ProblemEnvironment) : Type 0 where
  pub ready : get_problem_environment_condition pe condition_ready ≡ condition_true
  pub free : get_problem_environment_condition pe condition_assigned ≡ condition_false

pub is_available_iff : (pe : ProblemEnvironment) → (is_available pe ≡ true) ↔ Available pe
unfolding is_available
is_available_iff pe = ground (
  arith,
  is_true_iff (get_problem_environment_condition pe condition_ready),
  is_false_iff (get_problem_environment_condition pe condition_assigned),
)

-- The first available environment of a list.
pub record First (pes : List ProblemEnvironment) (pe : ProblemEnvironment) : Type 0 where
  pub before : List ProblemEnvironment
  pub after : List ProblemEnvironment
  pub splits : pes ≡ before ++ pe ∷ after
  pub skipped : All (λ x. ¬ Available x) before
  pub available : Available pe

-- The loop answers with the first environment that is available, and with nothing exactly if none is.
pub first_available-First :
    (pes : List ProblemEnvironment)
    → ((pe : ProblemEnvironment) × (first_available pes ≡ some pe) × First pes pe)
      ⊎ ((first_available pes ≡ none) × All (λ x. ¬ Available x) pes)
unfolding first_available
first_available-First [] = inr (refl, tt)
first_available-First (pe ∷ pes) = elim (Bool-cases (is_available pe)) [
  | inl good ↦ inl (
    pe,
    rw good,
    record {
      before = [];
      after = pes;
      splits = refl;
      skipped = tt;
      available = (is_available_iff pe).0 good;
    },
  )
  | inr bad ↦
      let unfit : ¬ Available pe = λ h. cc (bad, (is_available_iff pe).1 h) in
      rw bad (elim (first_available-First pes) [
        | inl (found, same, first) ↦ inl (
          found,
          same,
          record {
            before = pe ∷ first.before;
            after = first.after;
            splits = ap (◌∷◌ pe) first.splits;
            skipped = (unfit, first.skipped);
            available = first.available;
          },
        )
        | inr (same, rest) ↦ inr (same, (unfit, rest))
      ])
]

All-middle :
    (before after : List ProblemEnvironment) (pe : ProblemEnvironment)
    → All (λ x. ¬ Available x) (before ++ pe ∷ after)
    → ¬ Available pe
All-middle [] after pe h = h.0
All-middle (x ∷ before) after pe h = All-middle before after pe h.1

-- Where no environment of the list is available, the loop ends with nothing.
pub first_available-none :
    (pes : List ProblemEnvironment) → All (λ x. ¬ Available x) pes → first_available pes ≡ none
first_available-none pes unfit = elim (first_available-First pes) [
  | inr (same, _) ↦ same
  | inl (pe, same, first) ↦
      absurd (All-middle first.before first.after pe (rw (← first.splits) unfit) first.available)
]
