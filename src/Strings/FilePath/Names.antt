-- ===== src/Strings/FilePath/Names.antt =====
-- Paths of plain names.
use Prim.Native.Char.{Char, code}
use text.Mathlib.TextLemmas.{cons-append}
use mathlib.Core.List.{reverse, reverse-cons, append_assoc, append-nil}
use netcon_problem_managemen.Prelude.{
  ne_of_==, ==-ne, filter_by, not, String, ◌≡◌, ◌≢◌, refl, ap, sym, ◌∙◌, Bool, false, List, [], ◌∷◌,
  ◌++◌, ◌==◌, eq_iff, eqb, arith, concat, All,
}
use netcon_problem_managemen.Strings.{split, join}
use netcon_problem_managemen.Strings.Split.{Free, split-join}
use netcon_problem_managemen.Strings.FilePath.{
  is_rooted, resolve, resolve_all, print_path, clean, path_join,
}

-- The name of a file in a directory.
pub record FileName (name : String) : Type 0 where
  pub free : Free "/" name
  pub not_empty : name ≢ ""
  pub not_here : name ≢ "."
  pub not_above : name ≢ ".."

pub FileName-of :
    (name : String)
    → Free "/" name
    → (name == "") ≡ false
    → (name == ".") ≡ false
    → (name == "..") ≡ false
    → FileName name
FileName-of name free full here above = record {
  free = free;
  not_empty = ne_of_== name "" full;
  not_here = ne_of_== name "." here;
  not_above = ne_of_== name ".." above;
}

resolve_name :
    (rooted : Bool) (stack : List String) (name : String)
    → FileName name
    → resolve rooted stack name ≡ name ∷ stack
unfolding resolve
resolve_name rooted stack name h = ground (arith, eq_iff name "", eq_iff name ".", eq_iff name "..")

pub resolve_names :
    (rooted : Bool) (stack names : List String)
    → All FileName names
    → reverse (resolve_all rooted stack names) ≡ reverse stack ++ names
unfolding resolve_all
resolve_names rooted stack [] h = sym (append-nil (reverse stack))
resolve_names rooted stack (name ∷ names) h =
    ap (λ s. reverse (resolve_all rooted s names)) (resolve_name rooted stack name h.0)
    ∙ resolve_names rooted (name ∷ stack) names h.1
    ∙ ap (λ l. l ++ names) (reverse-cons name stack)
    ∙ append_assoc (reverse stack) (name ∷ []) names

pub All-Free : (names : List String) → All FileName names → All (Free "/") names
All-Free [] h = tt
All-Free (name ∷ names) h = (h.0.free, All-Free names h.1)

-- Such a path starts with the name's first character, which is not a slash.
pub join_starts :
    (name : String) (names : List String)
    → FileName name
    → (c : Char) × (rest : String) × (join "/" (name ∷ names) ≡ String.◌∷◌ c rest)
      × (eqb (code c) b'/' ≡ false)
unfolding join Free
join_starts String.[] names h = absurd (h.not_empty refl)
join_starts (String.◌∷◌ c s) [] h = (c, s, refl, h.free.0)
join_starts (String.◌∷◌ c s) (next ∷ names) h = (
  c,
  concat s (concat "/" (join "/" (next ∷ names))),
  cons-append c s (concat "/" (join "/" (next ∷ names))),
  h.free.0,
)

pub cons-ne-nil : (c : Char) (s : String) → (String.◌∷◌ c s == "") ≡ false
cons-ne-nil c s = ==-ne (String.◌∷◌ c s) "" (λ e. cc)

-- Joined file names are a clean path.
pub clean-join :
    (name : String) (names : List String)
    → All FileName (name ∷ names)
    → clean (join "/" (name ∷ names)) ≡ join "/" (name ∷ names)
unfolding clean print_path is_rooted
clean-join name names h =
    let (c, rest, starts, relative) = join_starts name names h.0 in
    let path : String = join "/" (name ∷ names) in
    let parts : split "/" path ≡ name ∷ names =
      split-join "/" name names (All-Free (name ∷ names) h) in
    let not_empty : (path == "") ≡ false = ap (λ p. p == "") starts ∙ cons-ne-nil c rest in
    let not_rooted : is_rooted path ≡ false = ap is_rooted starts ∙ relative in
    rw not_empty (
      rw not_rooted (
        ap (λ ps. print_path false (reverse (resolve_all false [] ps))) parts
        ∙ ap (print_path false) (resolve_names false [] (name ∷ names) h)))

none_empty :
    (names : List String) → All FileName names → filter_by (λ e. not (e == "")) names ≡ names
none_empty [] h = refl
none_empty (name ∷ names) h = ground (arith, eq_iff name "", h.0.not_empty, none_empty names h.1)

-- `path.Join` of file names puts a slash between them and changes nothing else.
pub path_join_names :
    (name : String) (names : List String)
    → All FileName (name ∷ names)
    → path_join (name ∷ names) ≡ join "/" (name ∷ names)
unfolding path_join
path_join_names name names h =
    let kept : filter_by (λ e. not (e == "")) (name ∷ names) ≡ name ∷ names =
      none_empty (name ∷ names) h in
    ap
      (λ (l : List String). elim l as (λ _. String) [
        | [] ↦ ""
        | used ∷ more ↦ clean (join "/" (used ∷ more))
      ])
      kept
    ∙ clean-join name names h
