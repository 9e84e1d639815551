-- ===== src/Nclet/Heartbeat/History.antt =====
-- What the history holds after some collections, and what the average is then.
use netcon_problem_managemen.Prelude.{
  ℕ, zero, suc, ◌≡◌, refl, ap, sym, ◌∙◌, some, List, [], ◌∷◌, ◌++◌, ok, arith, replicate, length,
  if◌then◌else◌,
}
use netcon_problem_managemen.Nclet.Heartbeat.{
  Numbers, Agent, history_size, get_elem?, set_elem, copy_up, shift, collect_metrics, sum_from,
  average, get_metrics,
}

module _ {F : Type 0} where
  get_elem-replicate :
      (n : ℕ) (x : F) (xs : List F) → get_elem? (replicate n x ++ x ∷ xs) n ≡ some x
  unfolding get_elem?
  get_elem-replicate zero x xs = refl
  get_elem-replicate (suc n) x xs = get_elem-replicate n x xs

  set_elem-replicate :
      (n : ℕ) (x y : F) (xs : List F)
      → set_elem (replicate n x ++ x ∷ y ∷ xs) (suc n) x ≡ replicate n x ++ x ∷ x ∷ xs
  unfolding set_elem
  set_elem-replicate zero x y xs = refl
  set_elem-replicate (suc n) x y xs = ap (λ l. x ∷ l) (set_elem-replicate n x y xs)

  replicate-cons :
      (n : ℕ) (x : F) (xs : List F) → replicate n x ++ x ∷ xs ≡ x ∷ (replicate n x ++ xs)
  replicate-cons zero x xs = refl
  replicate-cons (suc n) x xs = ap (λ l. x ∷ l) (replicate-cons n x xs)

  copy_up-replicate :
      (n : ℕ) (x y : F) (xs : List F)
      → copy_up n (replicate n x ++ x ∷ y ∷ xs) ≡ replicate n x ++ x ∷ x ∷ xs
  unfolding copy_up
  copy_up-replicate n x y xs =
      ground (arith, get_elem-replicate n x (y ∷ xs), set_elem-replicate n x y xs)

  -- From n on, the loop copies what is at n over all that follows.
  shift-replicate :
      (n : ℕ) (x : F) (xs : List F)
      → shift n (length xs) (replicate n x ++ x ∷ xs) ≡ replicate n x ++ x ∷ replicate (length xs) x
  unfolding shift
  shift-replicate n x [] = refl
  shift-replicate n x (y ∷ xs) =
      ap (shift (suc n) (length xs)) (copy_up-replicate n x y xs ∙ replicate-cons n x (x ∷ xs))
      ∙ shift-replicate (suc n) x xs
      ∙ sym (replicate-cons n x (x ∷ replicate (length xs) x))

  -- A collection loses all numbers but the last one before it.
  shift-smears :
      (m : ℕ) (x : F) (xs : List F) (new : F)
      → length xs ≡ m
      → set_elem (shift 0 m (x ∷ xs)) 0 new ≡ new ∷ replicate m x
  unfolding set_elem
  shift-smears m x xs new h = rw (sym h) (rw (shift-replicate 0 x xs) refl)

  collect-twice :
      (history : List F) (a b : F)
      → length history ≡ 20
      → set_elem (shift 0 19 (set_elem (shift 0 19 history) 0 a)) 0 b ≡ b ∷ replicate 19 a
  collect-twice [] a b h = absurd (ground arith)
  collect-twice (x ∷ xs) a b h =
      ap (λ l. set_elem (shift 0 19 l) 0 b) (shift-smears 19 x xs a (omega arith))
      ∙ shift-smears 19 a (replicate 19 x) b refl

-- Two collections after any history of 20 numbers leave the last number once and the one before it 19
-- times; so the averages are zero if the number before the last is, and else take it 19 times and the
-- last number once, and nothing that was collected before.
pub collect_metrics-smears :
    {F : Type 0} (numbers : Numbers F) (a : Agent F) (cpu mem cpu' mem' : F)
    → length a.cpu_used_history ≡ history_size
    → length a.mem_used_history ≡ history_size
    → let a' =
        (collect_metrics numbers
          (ok cpu')
          (ok mem')
          (collect_metrics numbers (ok cpu) (ok mem) a).1).1 in
      (a'.cpu_used_history ≡ cpu' ∷ replicate 19 cpu)
      × (a'.mem_used_history ≡ mem' ∷ replicate 19 mem)
      × (get_metrics numbers a' ≡ (
        (if numbers.is_zero cpu
            then numbers.zero
            else numbers.divide (sum_from numbers numbers.zero (cpu' ∷ replicate 19 cpu)) 20),
        (if numbers.is_zero mem
            then numbers.zero
            else numbers.divide (sum_from numbers numbers.zero (mem' ∷ replicate 19 mem)) 20),
      ))
unfolding collect_metrics get_metrics average get_elem?
collect_metrics-smears numbers a cpu mem cpu' mem' h h' =
    let cpus = collect-twice a.cpu_used_history cpu cpu' h in
    let mems = collect-twice a.mem_used_history mem mem' h' in
    (cpus, mems, λ i. (average numbers (cpus i), average numbers (mems i)))
