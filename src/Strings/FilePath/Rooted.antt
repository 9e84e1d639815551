-- ===== src/Strings/FilePath/Rooted.antt =====
-- Paths of plain names from the root.
use text.Mathlib.TextLemmas.{nil-append, append_assoc as concat_assoc}
use mathlib.Core.List.{reverse}
use netcon_problem_managemen.Prelude.{
  filter_by, not, String, ◌≡◌, ap, sym, ◌∙◌, true, false, List, [], ◌∷◌, ◌++◌, ◌==◌, eq_iff, arith,
  concat, All,
}
use netcon_problem_managemen.Strings.{split, join}
use netcon_problem_managemen.Strings.Split.{Free, split-join, split-concat, concat-single}
use netcon_problem_managemen.Strings.FilePath.{
  path_join, is_rooted, resolve, resolve_all, print_path, clean,
}
use netcon_problem_managemen.Strings.FilePath.Names.{FileName, All-Free, resolve_names, cons-ne-nil}
use netcon_problem_managemen.Strings.FilePath.Parents.{join-append, All-append}

abbrev pub absolute : List String → String
absolute names = concat "/" (join "/" names)

opened : (names : List String) → absolute names ≡ String.◌∷◌ "/" (join "/" names)
opened names = concat-single "/" (join "/" names)

clean-absolute :
    (name : String) (names : List String)
    → All FileName (name ∷ names)
    → clean (absolute (name ∷ names)) ≡ absolute (name ∷ names)
unfolding clean print_path is_rooted
clean-absolute name names h =
    let path : String = absolute (name ∷ names) in
    let starts : path ≡ String.◌∷◌ "/" (join "/" (name ∷ names)) = opened (name ∷ names) in
    let parts : split "/" path ≡ "" ∷ name ∷ names =
      ap (split "/") (sym (nil-append path))
      ∙ split-concat "/" "" (join "/" (name ∷ names)) (unfold Free in tt)
      ∙ ap (λ ps. "" ∷ ps) (split-join "/" name names (All-Free (name ∷ names) h)) in
    let not_empty : (path == "") ≡ false =
      ap (λ p. p == "") starts ∙ cons-ne-nil "/" (join "/" (name ∷ names)) in
    let rooted : is_rooted path ≡ true = ap is_rooted starts in
    rw not_empty (
      rw rooted (
        ap (λ ps. print_path true (reverse (resolve_all true [] ps))) parts
        ∙ ap (print_path true)
            (unfold resolve_all resolve in resolve_names true [] (name ∷ names) h)))

-- A file name joined to a path of names from the root is below it.
pub path_join_rooted :
    (name : String) (names : List String) (last : String)
    → All FileName (name ∷ names)
    → FileName last
    → path_join (absolute (name ∷ names) ∷ last ∷ []) ≡ absolute ((name ∷ names) ++ last ∷ [])
unfolding path_join join
path_join_rooted name names last h l =
    let above : String = absolute (name ∷ names) in
    let not_empty : (above == "") ≡ false =
      ap (λ p. p == "") (opened (name ∷ names)) ∙ cons-ne-nil "/" (join "/" (name ∷ names)) in
    let kept : filter_by (λ e. not (e == "")) (above ∷ last ∷ []) ≡ above ∷ last ∷ [] =
      ground (arith, not_empty, eq_iff last "", l.not_empty) in
    ap
      (λ (es : List String). elim es as (λ _. String) [
        | [] ↦ ""
        | used ∷ more ↦ clean (join "/" (used ∷ more))
      ])
      kept
    ∙ ap clean (
        concat_assoc "/" (join "/" (name ∷ names)) (concat "/" last)
        ∙ ap (concat "/") (sym (join-append name names last)))
    ∙ clean-absolute name (names ++ last ∷ [])
        (All-append FileName (name ∷ names) (last ∷ []) h (l, tt))
