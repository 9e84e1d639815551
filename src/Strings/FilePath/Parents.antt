-- ===== src/Strings/FilePath/Parents.antt =====
-- `path.Dir` and `path.Base` of a path of plain names.
use text.Mathlib.TextLemmas.{cons-append, append_assoc as concat_assoc}
use mathlib.Core.List.{reverse, reverse-append}
use netcon_problem_managemen.Prelude.{
  filter_by, not, String, ◌≡◌, ◌≢◌, refl, ap, sym, ◌∙◌, false, List, [], ◌∷◌, ◌++◌, ◌==◌, eq_iff,
  arith, concat, All,
}
use netcon_problem_managemen.Strings.{split, join}
use netcon_problem_managemen.Strings.Split.{Free, split-join}
use netcon_problem_managemen.Strings.FilePath.{
  path_join, is_rooted, resolve, resolve_all, print_path, clean, init, dir, last_part, base,
}
use netcon_problem_managemen.Strings.FilePath.Names.{
  clean-join, FileName, All-Free, join_starts, resolve_names, cons-ne-nil,
}

pub join-append :
    (name : String) (names : List String) (last : String)
    → join "/" ((name ∷ names) ++ last ∷ []) ≡ concat (join "/" (name ∷ names)) (concat "/" last)
unfolding join
join-append name [] last = refl
join-append name (next ∷ names) last =
    ap (λ t. concat name (concat "/" t)) (join-append next names last)
    ∙ ap (concat name) (sym (concat_assoc "/" (join "/" (next ∷ names)) (concat "/" last)))
    ∙ sym (concat_assoc name (concat "/" (join "/" (next ∷ names))) (concat "/" last))

init-append : (names : List String) (last : String) → init (names ++ last ∷ []) ≡ names
unfolding init
init-append [] last = refl
init-append (name ∷ []) last = refl
init-append (name ∷ (next ∷ names)) last = ap (λ l. name ∷ l) (init-append (next ∷ names) last)

pub All-append :
    (P : String → Type 0) (xs ys : List String) → All P xs → All P ys → All P (xs ++ ys)
All-append P [] ys h k = k
All-append P (x ∷ xs) ys h k = (h.0, All-append P xs ys h.1 k)

resolve_all-empty :
    (stack names : List String)
    → resolve_all false stack (names ++ "" ∷ []) ≡ resolve_all false stack names
unfolding resolve_all resolve
resolve_all-empty stack [] = refl
resolve_all-empty stack (name ∷ names) = resolve_all-empty (resolve false stack name) names

-- A slash at the end is dropped.
clean-slash :
    (name : String) (names : List String)
    → All FileName (name ∷ names)
    → clean (concat (join "/" (name ∷ names)) "/") ≡ join "/" (name ∷ names)
unfolding clean print_path is_rooted
clean-slash name names h =
    let (c, rest, starts, relative) = join_starts name names h.0 in
    let path : String = concat (join "/" (name ∷ names)) "/" in
    let opened : path ≡ String.◌∷◌ c (concat rest "/") =
      ap (λ t. concat t "/") starts ∙ cons-append c rest "/" in
    let parts : split "/" path ≡ (name ∷ names) ++ "" ∷ [] =
      ap (split "/") (sym (join-append name names ""))
      ∙ split-join "/" name (names ++ "" ∷ []) (
          All-append (Free "/") (name ∷ names) ("" ∷ []) (All-Free (name ∷ names) h)
            (unfold Free in (tt, tt))) in
    let not_empty : (path == "") ≡ false =
      ap (λ p. p == "") opened ∙ cons-ne-nil c (concat rest "/") in
    let not_rooted : is_rooted path ≡ false = ap is_rooted opened ∙ relative in
    rw not_empty (
      rw not_rooted (
        ap (λ ps. print_path false (reverse (resolve_all false [] ps))) parts
        ∙ ap (λ ps. print_path false (reverse ps)) (resolve_all-empty [] (name ∷ names))
        ∙ ap (print_path false) (resolve_names false [] (name ∷ names) h)))

-- The directory of a path of names is the path without the last of them.
pub dir_of_names :
    (name : String) (names : List String) (last : String)
    → All FileName (name ∷ names)
    → FileName last
    → dir (join "/" ((name ∷ names) ++ last ∷ [])) ≡ join "/" (name ∷ names)
unfolding dir
dir_of_names name names last h l =
    let parts : split "/" (join "/" ((name ∷ names) ++ last ∷ [])) ≡ (name ∷ names) ++ last ∷ [] =
      split-join "/" name (names ++ last ∷ []) (
        All-append (Free "/") (name ∷ names) (last ∷ []) (All-Free (name ∷ names) h)
          (l.free, tt)) in
    ap
      (λ (ps : List String). elim (init ps) as (λ _. String) [
        | [] ↦ clean ""
        | part ∷ parts ↦ clean (concat (join "/" (part ∷ parts)) "/")
      ])
      parts
    ∙ ap
        (λ (ps : List String). elim ps as (λ _. String) [
          | [] ↦ clean ""
          | part ∷ parts ↦ clean (concat (join "/" (part ∷ parts)) "/")
        ])
        (init-append (name ∷ names) last)
    ∙ clean-slash name names h

last_part_named :
    (last : String) (parts : List String) → last ≢ "" → last_part (last ∷ parts) ≡ last
unfolding last_part
last_part_named last parts h = ground (arith, eq_iff last "")

-- The last element of a path of names is the last of them.
pub base_of_names :
    (name : String) (names : List String) (last : String)
    → All FileName (name ∷ names)
    → FileName last
    → base (join "/" ((name ∷ names) ++ last ∷ [])) ≡ last
unfolding base last_part
base_of_names name names last h l =
    let (c, rest, starts, relative) = join_starts name (names ++ last ∷ []) h.0 in
    let path : String = join "/" ((name ∷ names) ++ last ∷ []) in
    let not_empty : (path == "") ≡ false = ap (λ p. p == "") starts ∙ cons-ne-nil c rest in
    let parts : split "/" path ≡ (name ∷ names) ++ last ∷ [] =
      split-join "/" name (names ++ last ∷ []) (
        All-append (Free "/") (name ∷ names) (last ∷ []) (All-Free (name ∷ names) h)
          (l.free, tt)) in
    rw not_empty (
      ap (λ ps. last_part (reverse ps)) parts
      ∙ ap last_part (reverse-append (name ∷ names) (last ∷ []))
      ∙ last_part_named last (reverse (name ∷ names)) l.not_empty)

-- A file name joined to a path of names is below it.
pub path_join_below :
    (name : String) (names : List String) (last : String)
    → All FileName (name ∷ names)
    → FileName last
    → path_join (join "/" (name ∷ names) ∷ last ∷ []) ≡ join "/" ((name ∷ names) ++ last ∷ [])
unfolding path_join join
path_join_below name names last h l =
    let (c, rest, starts, relative) = join_starts name names h.0 in
    let above : String = join "/" (name ∷ names) in
    let not_empty : (above == "") ≡ false = ap (λ p. p == "") starts ∙ cons-ne-nil c rest in
    let kept : filter_by (λ e. not (e == "")) (above ∷ last ∷ []) ≡ above ∷ last ∷ [] =
      ground (arith, not_empty, eq_iff last "", l.not_empty) in
    ap
      (λ (es : List String). elim es as (λ _. String) [
        | [] ↦ ""
        | used ∷ more ↦ clean (join "/" (used ∷ more))
      ])
      kept
    ∙ ap clean (sym (join-append name names last))
    ∙ clean-join name (names ++ last ∷ [])
        (All-append FileName (name ∷ names) (last ∷ []) h (l, tt))
