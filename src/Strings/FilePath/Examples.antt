-- ===== src/Strings/FilePath/Examples.antt =====
-- Paths with dots, from the documentation of package path.
use netcon_problem_managemen.Prelude.{◌≡◌, refl, [], ◌∷◌}
use netcon_problem_managemen.Strings.{split, extend, join}
use netcon_problem_managemen.Strings.FilePath.{
  is_rooted, resolve, resolve_all, print_path, clean, path_join, init, dir, last_part, base,
}

dots : path_join ("a/b" ∷ "../../../xyz" ∷ []) ≡ "../xyz"
unfolding path_join clean is_rooted resolve resolve_all print_path split extend join
dots = refl

above_root : clean "/../a//b/./" ≡ "/a/b"
unfolding clean is_rooted resolve resolve_all print_path split extend join
above_root = refl

no_elements : path_join ("" ∷ []) ≡ ""
unfolding path_join
no_elements = refl

directory : dir "/a/b/c" ≡ "/a/b"
unfolding dir init clean is_rooted resolve resolve_all print_path split extend join
directory = refl

here : dir "file" ≡ "."
unfolding dir init clean split extend
here = refl

last : base "/a/b/" ≡ "b"
unfolding base last_part split extend
last = refl
