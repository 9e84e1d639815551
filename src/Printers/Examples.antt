-- ===== src/Printers/Examples.antt =====
-- The table of one environment.
use netcon_problem_managemen.Prelude.{ℕ, String, refl, true, count_by}
use netcon_problem_managemen.Printers.{Table, environment_object, environment_table, print_object}
use netcon_problem_managemen.Printers.Tables.{shown, AllWidth, print_object-AllWidth}
use netcon_problem_managemen.Samples.{waiting}

abbrev age : ℕ → String
age t = "5m"

abbrev table : Table
table = environment_table age true (waiting "env")

print_object-AllWidth_example : AllWidth (count_by (shown true) table.columns) table.rows
unfolding print_object
print_object-AllWidth_example =
    print_object-AllWidth age (environment_object (waiting "env")) true table refl
