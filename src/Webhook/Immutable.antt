-- ===== src/Webhook/Immutable.antt =====
-- `ValidateUpdate` against its meaning, and what it fixes along any history of accepted updates.
use netcon_problem_managemen.Prelude.{
  ◌≡◌, refl, sym, ◌∙◌, ◌≢◌, ◌↔◌, ◌⊎◌, inl, inr, true, Option, none, some, List, [], ◌∷◌, eq_iff, ok,
  arith,
}
use netcon_problem_managemen.Api.{FileSource, LabelSelector, ProblemEnvironment}
use netcon_problem_managemen.Webhook.{same_file, same_list, same_selectors, validate_update}

same_file_iff : (a b : FileSource) → (same_file a b ≡ true) ↔ (a ≡ b)
unfolding same_file
same_file_iff a b = ground (
  arith,
  eq_iff a.config_map_ref.key b.config_map_ref.key,
  eq_iff a.config_map_ref.name b.config_map_ref.name,
)

same_list_iff : (xs ys : List LabelSelector) → (same_list xs ys ≡ true) ↔ (xs ≡ ys)
unfolding same_list
same_list_iff [] [] = ground arith
same_list_iff [] (y ∷ ys) = ground arith
same_list_iff (x ∷ xs) [] = ground arith
same_list_iff (x ∷ xs) (y ∷ ys) = ground (arith, eq_iff x y, same_list_iff xs ys)

same_selectors_iff : (a b : Option (List LabelSelector)) → (same_selectors a b ≡ true) ↔ (a ≡ b)
unfolding same_selectors
same_selectors_iff none none = ground arith
same_selectors_iff none (some ys) = ground arith
same_selectors_iff (some xs) none = ground arith
same_selectors_iff (some xs) (some ys) = ground (arith, same_list_iff xs ys)

-- What an update may do: fill in the worker once, and leave the topology file and the selectors.
pub record Allowed (old new : ProblemEnvironment) : Type 0 where
  pub worker : (old.spec.worker_name ≡ "") ⊎ (new.spec.worker_name ≡ old.spec.worker_name)
  pub topology : new.spec.topology_file ≡ old.spec.topology_file
  pub selectors : new.spec.worker_selectors ≡ old.spec.worker_selectors

-- An update is accepted exactly when the worker's name was empty or stays, and the topology file and
-- the worker selectors stay.
pub validate_update_iff :
    (old new : ProblemEnvironment) → (validate_update old new ≡ ok tt) ↔ Allowed old new
unfolding validate_update
validate_update_iff old new = ground (
  arith,
  eq_iff old.spec.worker_name "",
  eq_iff new.spec.worker_name old.spec.worker_name,
  same_file_iff new.spec.topology_file old.spec.topology_file,
  same_selectors_iff new.spec.worker_selectors old.spec.worker_selectors,
)

-- A history of updates that the webhook accepted, one after the other.
pub data Updates (pe : ProblemEnvironment) : ProblemEnvironment → Type 0 where
  none_yet : Updates pe pe
  then_update :
      {old new : ProblemEnvironment}
      → Updates pe old
      → validate_update old new ≡ ok tt
      → Updates pe new

-- Once a ProblemEnvironment names a worker, every later version that is reached by accepted updates
-- names the same worker, and has the same topology file and the same worker selectors.
pub Updates-fixed :
    {pe pe' : ProblemEnvironment}
    → pe.spec.worker_name ≢ ""
    → Updates pe pe'
    → (pe'.spec.worker_name ≡ pe.spec.worker_name)
      × (pe'.spec.topology_file ≡ pe.spec.topology_file)
      × (pe'.spec.worker_selectors ≡ pe.spec.worker_selectors)
Updates-fixed ne none_yet = (refl, refl, refl)
Updates-fixed ne (then_update {old = old} {new = new} us accepted) =
    let ih = Updates-fixed ne us in
    let allowed = (validate_update_iff old new).0 accepted in
    (
      elim allowed.worker [ inl e ↦ absurd (ne (sym ih.0 ∙ e)) | inr e ↦ e ∙ ih.0 ],
      allowed.topology ∙ ih.1,
      allowed.selectors ∙ ih.2,
    )
