-- ===== src/Startup/Launched.antt =====
-- What the manager has been given when it is started.
use netcon_problem_managemen.Prelude.{
  Result-cases, ◌∙◌, ap, true, false, ◌≡◌, refl, ◌⊎◌, inl, inr, List, [], ◌∷◌, arith, ok, err,
}
use netcon_problem_managemen.Kube.{ApiError}
use netcon_problem_managemen.Startup.{exited, Step, added, started, Manager, add, start, launch}

-- The trace after these parts are given.
unfoldable pub given : {Part : Type 0} → List Part → List (Step Part) → List (Step Part)
given [] trace = trace
given (part ∷ parts) trace = given parts (added part ∷ trace)

module _ {C Part : Type 0} (manager : Manager C Part) where
  start_trace :
      (c : C) (trace : List (Step Part)) → (start manager (c, trace)).1.1 ≡ started ∷ trace
  unfolding start
  start_trace c trace = refl

  -- A part is taken and noted, or refused and not; the manager is left as its answer says.
  pub add_cases :
      (part : Part) (c : C) (trace : List (Step Part))
      → (((manager.add part c).0 ≡ ok tt)
          × ((add manager part (c, trace)).0 ≡ true)
          × ((add manager part (c, trace)).1 ≡ ((manager.add part c).1, added part ∷ trace)))
        ⊎ ((e : ApiError) × ((manager.add part c).0 ≡ err e)
            × ((add manager part (c, trace)).0 ≡ false)
            × ((add manager part (c, trace)).1 ≡ ((manager.add part c).1, trace)))
  unfolding add
  add_cases part c trace = elim (Result-cases (manager.add part c).0) [
    | inl (tt, good) ↦ inl (good, ground arith, ground arith)
    | inr (e, bad) ↦ inr (e, bad, ground arith, ground arith)
  ]

  -- The manager is started when it has taken all the parts, in their order, and otherwise the process
  -- exits.
  pub launch_cases :
      (parts : List Part) (c : C) (trace : List (Step Part))
      → ((launch manager parts (c, trace)).1.1 ≡ started ∷ given parts trace)
        ⊎ ((launch manager parts (c, trace)).0 ≡ exited)
  unfolding launch given
  launch_cases [] c trace = inl (start_trace c trace)
  launch_cases (part ∷ parts) c trace =
      let next = (add manager part (c, trace)).1 in
      elim (add_cases part c trace) [
        | inl (good, taken, noted) ↦ elim (launch_cases parts next.0 next.1) [
          | inl done ↦
              inl (rw taken (done ∙ ap (λ t. started ∷ given parts t) (ap (λ r. r.1) noted)))
          | inr out ↦ inr (rw taken out)
        ]
        | inr (e, bad, refused, noted) ↦ inr (rw refused refl)
      ]
