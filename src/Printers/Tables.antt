-- ===== src/Printers/Tables.antt =====
-- The tables that are printed, against those that are generated.
use netcon_problem_managemen.Prelude.{
  ◌||◌, eqb, count_by, ℕ, String, Bool, true, false, ◌≡◌, ◌⊎◌, inl, inr, refl, List, [], ◌∷◌,
  length, arith, map,
}
use netcon_problem_managemen.Api.{ProblemEnvironment, Worker}
use netcon_problem_managemen.Printers.{
  Table, Column, Cell, Object, problem_object, problem_list_object, other_object,
  environment_object, environment_list_object, worker_object, worker_list_object, printed, panics,
  print_object, generate_table, environment_columns, worker_columns, environment_row, worker_row,
  environment_table, environment_list_table, worker_table, worker_list_table,
}

-- Is a column printed in a wide table, or in one that is not wide?
abbrev pub shown : Bool → Column → Bool
shown wide column = wide || eqb column.priority 0

-- Each row has so many cells.
pub AllWidth : ℕ → List (List Cell) → Type 0
AllWidth width [] = Unit
AllWidth width (row ∷ rows) = (length row ≡ width) × AllWidth width rows

AllWidth-map :
    {A : Type 0} (width : ℕ) (f : A → List Cell) (xs : List A)
    → ((x : A) → length (f x) ≡ width)
    → AllWidth width (map f xs)
unfolding AllWidth
AllWidth-map width f [] h = tt
AllWidth-map width f (x ∷ xs) h = (h x, AllWidth-map width f xs h)

module _ (age : ℕ → String) where
  -- Where a table is generated at all, the one that is printed is the same.
  generate_table-print_object :
      (object : Object) (wide : Bool)
      → (generate_table age object wide ≡ panics)
        ⊎ (generate_table age object wide ≡ print_object age wide object)
  unfolding generate_table print_object
  generate_table-print_object problem_object wide = inl refl
  generate_table-print_object problem_list_object wide = inl refl
  generate_table-print_object (environment_object pe) wide = inr refl
  generate_table-print_object (environment_list_object v pes) wide = inr refl
  generate_table-print_object (worker_object worker) wide = inl refl
  generate_table-print_object (worker_list_object v workers) wide = inl refl
  generate_table-print_object other_object wide = inr refl

  environment_row-length :
      (wide : Bool) (pe : ProblemEnvironment)
      → length (environment_row age wide pe) ≡ count_by (shown wide) environment_columns
  unfolding environment_row environment_columns
  environment_row-length true pe = refl
  environment_row-length false pe = refl

  worker_row-length :
      (wide : Bool) (worker : Worker)
      → length (worker_row age wide worker) ≡ count_by (shown wide) worker_columns
  unfolding worker_row worker_columns
  worker_row-length true worker = refl
  worker_row-length false worker = refl

  -- Every row of a table that is printed has as many cells as the table has columns, or, where it is not
  -- wide, as it has columns of the priority 0.
  pub print_object-AllWidth :
      (object : Object) (wide : Bool) (table : Table)
      → print_object age wide object ≡ printed table
      → AllWidth (count_by (shown wide) table.columns) table.rows
  unfolding print_object environment_table environment_list_table worker_table worker_list_table
      AllWidth
  print_object-AllWidth problem_object wide table h = absurd (ground arith)
  print_object-AllWidth problem_list_object wide table h = absurd (ground arith)
  print_object-AllWidth other_object wide table h = absurd (ground arith)
  print_object-AllWidth (environment_object pe) wide table h =
      let same : table ≡ environment_table age wide pe = ground arith in
      rw same (environment_row-length wide pe, tt)
  print_object-AllWidth (environment_list_object v pes) wide table h =
      let same : table ≡ environment_list_table age wide v pes = ground arith in
      rw same (AllWidth-map _ (environment_row age wide) pes (environment_row-length wide))
  print_object-AllWidth (worker_object worker) wide table h =
      let same : table ≡ worker_table age wide worker = ground arith in
      rw same (worker_row-length wide worker, tt)
  print_object-AllWidth (worker_list_object v workers) wide table h =
      let same : table ≡ worker_list_table age wide v workers = ground arith in
      rw same (AllWidth-map _ (worker_row age wide) workers (worker_row-length wide))
