-- ===== src/ControllerManager/Problems/Surplus.antt =====
-- Which environments a reconcile of a Problem deletes.
use netcon_problem_managemen.Prelude.{
  ℕ, suc, ◌+◌, ◌-◌, ◌≤◌, ◌≡◌, refl, inl, inr, err, ◌⊎◌, min, Bool, not, List, [], ◌∷◌, take,
  filter_by, count_by, ok, Result-cases, Bool-cases, arith, ltb,
}
use netcon_problem_managemen.Prelude.Int.{pos}
use netcon_problem_managemen.Api.{ProblemEnvironment}
use netcon_problem_managemen.Kube.{ApiError, Client, World, Write, delete_environment}
use netcon_problem_managemen.ControllerManager.Problems.{is_assigned, delete_surplus}

abbrev pub unassigned : ProblemEnvironment → Bool
unassigned pe = not (is_assigned pe)

-- The history after the deletions of a list, in its order.
abbrev pub deletions : List ProblemEnvironment → List Write → List Write
deletions [] before = before
deletions (pe ∷ pes) before = deletions pes (delete_environment pe ∷ before)

module _ {C : Type 0} (k : Client C) (d : ℕ) where
  -- With `count` deletions made and `d` wanted, the loop deletes the first n environments of the list
  -- that are not assigned, in the order of the list, for some n that is at most what is still wanted;
  -- unless a deletion fails, n is what is still wanted, or all of them if they are fewer.
  pub delete_surplus-first :
      (pes : List ProblemEnvironment) (count : ℕ) (w : World C)
      → let (result, w') = delete_surplus k (pos d) count pes w in
        (n : ℕ) × (n ≤ d - count)
        × (w'.writes ≡ deletions (take n (filter_by unassigned pes)) w.writes)
        × (((result ≡ ok tt) × (n ≡ min (d - count) (count_by unassigned pes)))
            ⊎ ((e : ApiError) × (result ≡ err e)))
  unfolding delete_surplus
  delete_surplus-first [] count w = (0, omega arith, refl, inl (refl, omega arith))
  delete_surplus-first (pe ∷ pes) count w = elim (Bool-cases (ltb count d)) [
    | inr enough ↦ (0, omega arith, ground arith, inl (ground arith, ground arith))
    | inl more ↦ elim (Bool-cases (is_assigned pe)) [
      | inl held ↦
          let (n, bound, sent, all) = delete_surplus-first pes count w in
          (n, bound, ground (arith, sent), ground (arith, all))
      | inr free ↦
          let w' : World C = record w {
            cluster = (k.delete_problem_environment pe w.cluster).1;
            writes = delete_environment pe ∷ w.writes;
          } in
          elim (Result-cases (k.delete_problem_environment pe w.cluster).0) [
            | inr (e, broken) ↦ (1, ground arith, ground arith, inr (e, ground arith))
            | inl (_, done) ↦
                let (n, bound, sent, all) = delete_surplus-first pes (count + 1) w' in
                (suc n, ground arith, ground (arith, sent), ground (arith, all))
          ]
    ]
  ]
