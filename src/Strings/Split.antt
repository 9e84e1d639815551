-- ===== src/Strings/Split.antt =====
-- `strings.Split` against `strings.Join`: no part has the separator, and joined by it the parts are
-- the text.
use Prim.Native.Char.{Char, code}
use text.Mathlib.TextLemmas.{nil-append, cons-append}
use text.Mathlib.TextEquality.{Char-path}
use netcon_problem_managemen.Prelude.{
  String, ◌≡◌, refl, ap, sym, ◌∙◌, true, false, List, [], ◌∷◌, eqb, arith, concat, All, Bool-cases,
  inl, inr,
}
use netcon_problem_managemen.Strings.{single, extend, split, join}

module _ (sep : Char) where
  -- A text without the separator.
  unfoldable pub Free : String → Type 0
  Free String.[] = Unit
  Free (String.◌∷◌ c s) = (eqb (code c) (code sep) ≡ false) × Free s

  pub split_some :
      (text : String) → (part : String) × (parts : List String) × (split sep text ≡ part ∷ parts)
  unfolding split extend
  split_some String.[] = (String.[], [], refl)
  split_some (String.◌∷◌ c s) =
      let (part, parts, e) = split_some s in
      elim (Bool-cases (eqb (code c) (code sep))) [
        | inl here ↦ (String.[], split sep s, rw here refl)
        | inr in_part ↦ (String.◌∷◌ c part, parts, rw in_part (rw e refl))
      ]

  extend-Free :
      (c : Char) (parts : List String)
      → eqb (code c) (code sep) ≡ false
      → All Free parts
      → All Free (extend c parts)
  unfolding extend Free
  extend-Free c [] h hs = ((h, tt), tt)
  extend-Free c (part ∷ parts) h hs = ((h, hs.0), hs.1)

  -- No part has the separator.
  pub split-Free : (text : String) → All Free (split sep text)
  unfolding split Free
  split-Free String.[] = (tt, tt)
  split-Free (String.◌∷◌ c s) = elim (Bool-cases (eqb (code c) (code sep))) [
    | inl here ↦ rw here (tt, split-Free s)
    | inr in_part ↦ rw in_part (extend-Free c (split sep s) in_part (split-Free s))
  ]

  pub concat-single : (s : String) → concat (single sep) s ≡ String.◌∷◌ sep s
  concat-single s = cons-append sep String.[] s ∙ ap (λ t. String.◌∷◌ sep t) (nil-append s)

  separator :
      (c : Char) (s : String)
      → eqb (code c) (code sep) ≡ true
      → concat (single sep) s ≡ String.◌∷◌ c s
  separator c s h = concat-single s ∙ ap (λ d. String.◌∷◌ d s) (Char-path sep c (ground arith))

  join-extend :
      (c : Char) (parts : List String)
      → join (single sep) (extend c parts) ≡ String.◌∷◌ c (join (single sep) parts)
  unfolding extend join
  join-extend c [] = refl
  join-extend c (part ∷ []) = refl
  join-extend c (part ∷ (next ∷ parts)) =
      cons-append c part (concat (single sep) (join (single sep) (next ∷ parts)))

  -- Joined by the separator the parts are the text.
  pub join-split : (text : String) → join (single sep) (split sep text) ≡ text
  unfolding split join
  join-split String.[] = refl
  join-split (String.◌∷◌ c s) =
      let (part, parts, e) = split_some s in
      let ih = join-split s in
      elim (Bool-cases (eqb (code c) (code sep))) [
        | inl here ↦ rw here (
            rw e (
              nil-append (concat (single sep) (join (single sep) (part ∷ parts)))
              ∙ ap (concat (single sep)) (ap (join (single sep)) (sym e) ∙ ih)
              ∙ separator c s here))
        | inr in_part ↦ rw in_part (join-extend c (split sep s) ∙ ap (λ t. String.◌∷◌ c t) ih)
      ]

  pub split_trivial : (text : String) → Free text → split sep text ≡ text ∷ []
  unfolding split Free extend
  split_trivial String.[] h = refl
  split_trivial (String.◌∷◌ c s) h = rw h.0 (rw (split_trivial s h.1) refl)

  pub split-concat :
      (text rest : String)
      → Free text
      → split sep (concat text (concat (single sep) rest)) ≡ text ∷ split sep rest
  unfolding split Free extend
  split-concat String.[] rest h =
      ap (split sep) (nil-append (concat (single sep) rest) ∙ concat-single rest) ∙ ground arith
  split-concat (String.◌∷◌ c s) rest h =
      rw (cons-append c s (concat (single sep) rest)) (rw h.0 (rw (split-concat s rest h.1) refl))

  -- Split gives back the parts that were joined, if there are any.
  pub split-join :
      (part : String) (parts : List String)
      → All Free (part ∷ parts)
      → split sep (join (single sep) (part ∷ parts)) ≡ part ∷ parts
  unfolding join
  split-join part [] h = split_trivial part h.0
  split-join part (next ∷ parts) h =
      split-concat part (join (single sep) (next ∷ parts)) h.0
      ∙ ap (λ ps. part ∷ ps) (split-join next parts h.1)
