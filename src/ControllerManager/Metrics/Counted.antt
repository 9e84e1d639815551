-- ===== src/ControllerManager/Metrics/Counted.antt =====
-- What the gauges of a problem hold after a scrape.
use netcon_problem_managemen.Prelude.{
  ap, ◌⊎◌, ℕ, ◌+◌, String, ◌≡◌, refl, Bool, true, ◌&&◌, Option, none, some, List, [], ◌∷◌, ◌==◌,
  eq_iff, arith, count_by, In, inl, inr, if◌then◌else◌, Bool-cases,
}
use netcon_problem_managemen.Api.{
  ProblemEnvironment, Problem, Worker, condition_ready, condition_assigned,
}
use netcon_problem_managemen.Condition.{is_true, get_problem_environment_condition}
use netcon_problem_managemen.ControllerManager.Metrics.{
  Gauges, GaugeVec, set_gauge, is_owned_by, count_owned, set_problem_gauges, set_ready_gauges,
  set_gauges,
}

pub get_gauge : {A : Type 0} → String → String → GaugeVec A → Option A
get_gauge namespace name [] = none
get_gauge namespace name (((ns, n), v) ∷ gauges) =
    if (ns == namespace) && (n == name) then some v else get_gauge namespace name gauges

get_gauge-set_gauge :
    {A : Type 0} (namespace name ns n : String) (v : A) (gauges : GaugeVec A)
    → get_gauge namespace name (set_gauge ns n v gauges)
      ≡ (if (ns == namespace) && (n == name) then some v else get_gauge namespace name gauges)
unfolding get_gauge set_gauge
get_gauge-set_gauge namespace name ns n v [] = refl
get_gauge-set_gauge namespace name ns n v (((ns', n'), v') ∷ gauges) = ground (
  arith,
  eq_iff ns' ns,
  eq_iff n' n,
  eq_iff ns' namespace,
  eq_iff n' name,
  eq_iff ns namespace,
  eq_iff n name,
  get_gauge-set_gauge namespace name ns n v gauges,
)

-- An environment of the problem, with a condition.
abbrev pub owned_and : String → String → ProblemEnvironment → Bool
owned_and name condition pe =
    is_owned_by name pe && is_true (get_problem_environment_condition pe condition)

count_owned-count_by :
    (name : String) (t r a : ℕ) (pes : List ProblemEnvironment)
    → count_owned name (t, r, a) pes ≡ (
      t + count_by (is_owned_by name) pes,
      r + count_by (owned_and name condition_ready) pes,
      a + count_by (owned_and name condition_assigned) pes,
    )
unfolding count_owned
count_owned-count_by name t r a [] = ground arith
count_owned-count_by name t r a (pe ∷ pes) =
    let r' : ℕ =
      if is_true (get_problem_environment_condition pe condition_ready) then r + 1 else r in
    let a' : ℕ =
      if is_true (get_problem_environment_condition pe condition_assigned) then a + 1 else a in
    ground (arith, count_owned-count_by name t r a pes, count_owned-count_by name (t + 1) r' a' pes)

count_owned-zero :
    (name : String) (pes : List ProblemEnvironment)
    → count_owned name (0, 0, 0) pes ≡ (
      count_by (is_owned_by name) pes,
      count_by (owned_and name condition_ready) pes,
      count_by (owned_and name condition_assigned) pes,
    )
count_owned-zero name pes = ground (arith, count_owned-count_by name 0 0 0 pes)

module _ (pes : List ProblemEnvironment) (namespace name : String) where
  -- The three gauges of a problem hold the counts of its environments.
  pub record Counted (g : Gauges) : Type 0 where
    pub total :
        get_gauge namespace name g.problem_environments_total
        ≡ some (count_by (is_owned_by name) pes)
    pub ready :
        get_gauge namespace name g.problem_environments_ready_total
        ≡ some (count_by (owned_and name condition_ready) pes)
    pub assigned :
        get_gauge namespace name g.problem_environments_assigned_total
        ≡ some (count_by (owned_and name condition_assigned) pes)

  -- The three gauges as one problem's turn sets them.
  abbrev turn : Problem → Gauges → Gauges
  turn problem g =
      let ns = problem.meta.namespace in
      let n = problem.meta.name in
      let (total, ready_total, assigned_total) = count_owned n (0, 0, 0) pes in
      record g {
        problem_environments_total = set_gauge ns n total g.problem_environments_total;
        problem_environments_ready_total =
            set_gauge ns n ready_total g.problem_environments_ready_total;
        problem_environments_assigned_total =
            set_gauge ns n assigned_total g.problem_environments_assigned_total;
      }

  -- A gauge of this problem after a gauge of a problem is set to a count that depends on its name.
  turn-gauge :
      (ns n : String) (count : String → ℕ) (gauges : GaugeVec ℕ)
      → (((ns == namespace) && (n == name)) ≡ true)
        ⊎ (get_gauge namespace name gauges ≡ some (count name))
      → get_gauge namespace name (set_gauge ns n (count n) gauges) ≡ some (count name)
  turn-gauge ns n count gauges h = elim (Bool-cases ((ns == namespace) && (n == name))) [
    | inl same ↦
        let named : n ≡ name = ground (arith, eq_iff n name) in
        ground (arith, get_gauge-set_gauge namespace name ns n (count n) gauges, ap count named)
    | inr other ↦ ground (arith, get_gauge-set_gauge namespace name ns n (count n) gauges)
  ]

  -- Every turn keeps the gauges of a problem that has had its own, and its own turn sets them.
  turn-Counted :
      (problem : Problem) (g : Gauges)
      → (((problem.meta.namespace == namespace) && (problem.meta.name == name)) ≡ true) ⊎ Counted g
      → Counted (turn problem g)
  turn-Counted problem g h =
      let ns = problem.meta.namespace in
      let n = problem.meta.name in
      rw (count_owned-zero n pes) (record {
        total =
            turn-gauge ns n (λ n. count_by (is_owned_by n) pes) g.problem_environments_total
              (elim h [ inl same ↦ inl same | inr c ↦ inr c.total ]);
        ready =
            turn-gauge ns n (λ n. count_by (owned_and n condition_ready) pes)
              g.problem_environments_ready_total
              (elim h [ inl same ↦ inl same | inr c ↦ inr c.ready ]);
        assigned =
            turn-gauge ns n (λ n. count_by (owned_and n condition_assigned) pes)
              g.problem_environments_assigned_total
              (elim h [ inl same ↦ inl same | inr c ↦ inr c.assigned ]);
      })

  set_problem_gauges-Counted :
      (problems : List Problem) (g : Gauges)
      → Counted g
        ⊎ ((problem : Problem) × In problem problems
            × (problem.meta.namespace ≡ namespace)
            × (problem.meta.name ≡ name))
      → Counted (set_problem_gauges pes problems g)
  unfolding set_problem_gauges
  set_problem_gauges-Counted [] g (inl c) = c
  set_problem_gauges-Counted [] g (inr (problem, none_there, ns, n)) = absurd none_there
  set_problem_gauges-Counted (p ∷ ps) g (inl c) =
      set_problem_gauges-Counted ps (turn p g) (inl (turn-Counted p g (inr c)))
  set_problem_gauges-Counted (p ∷ ps) g (inr (problem, inl here, ns, n)) =
      set_problem_gauges-Counted ps (turn p g) (
        inl (
          turn-Counted p g
            (inl (ground (arith, eq_iff p.meta.namespace namespace, eq_iff p.meta.name name)))))
  set_problem_gauges-Counted (p ∷ ps) g (inr (problem, inr later, ns, n)) =
      set_problem_gauges-Counted ps (turn p g) (inr (problem, later, ns, n))

  set_ready_gauges-Counted :
      (rest : List ProblemEnvironment) (g : Gauges) → Counted g → Counted (set_ready_gauges rest g)
  unfolding set_ready_gauges
  set_ready_gauges-Counted [] g c = c
  set_ready_gauges-Counted (pe ∷ rest) g c =
      set_ready_gauges-Counted rest _
        (record { total = c.total; ready = c.ready; assigned = c.assigned })

-- After a scrape the three gauges of every listed problem, under its namespace and name, hold the
-- number of listed environments whose first owner has the problem's name, of those of them that are
-- ready, and of those that are assigned. The namespaces of environments do not count.
pub set_gauges-Counted :
    (workers : List Worker) (problems : List Problem) (pes : List ProblemEnvironment) (g : Gauges)
    (problem : Problem)
    → In problem problems
    → Counted pes problem.meta.namespace problem.meta.name (set_gauges workers problems pes g)
unfolding set_gauges
set_gauges-Counted workers problems pes g problem there =
    set_ready_gauges-Counted pes problem.meta.namespace problem.meta.name pes _ (
      set_problem_gauges-Counted pes problem.meta.namespace problem.meta.name problems _
        (inr (problem, there, refl, refl)))
