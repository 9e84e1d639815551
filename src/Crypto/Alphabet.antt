-- ===== src/Crypto/Alphabet.antt =====
-- Every password has the asked length, and is made of the alphabet alone.
use Prim.Native.Char.{Char}
use netcon_problem_managemen.Prelude.{
  Result-cases, ℕ, zero, suc, ◌+◌, ◌<◌, ◌≡◌, ◌≢◌, refl, ap, ◌⊎◌, inl, inr, String, Option, none,
  some, ok, arith, Option-cases,
}
use netcon_problem_managemen.Prelude.Int.{pos}
use netcon_problem_managemen.Crypto.{
  chars, rune_at, rune_count, draw_rune, generate_from, generate_password,
}

abbrev InText : Char → String → Type 0
InText c String.[] = ⊥
InText c (String.◌∷◌ d s) = (c ≡ d) ⊎ InText c s

-- Every character of the text is one of the alphabet.
abbrev pub Alphanumeric : String → Type 0
Alphanumeric String.[] = Unit
Alphanumeric (String.◌∷◌ c s) = InText c chars × Alphanumeric s

rune_at-InText : (s : String) (i : ℕ) (c : Char) → rune_at s i ≡ some c → InText c s
unfolding rune_at
rune_at-InText String.[] i c h = cc
rune_at-InText (String.◌∷◌ d s) zero c h = inl (ground arith)
rune_at-InText (String.◌∷◌ d s) (suc i) c h = inr (rune_at-InText s i c h)

rune_at-total : (s : String) (i : ℕ) → i < rune_count s → (c : Char) × (rune_at s i ≡ some c)
unfolding rune_at rune_count
rune_at-total String.[] i h = absurd (omega arith)
rune_at-total (String.◌∷◌ d s) zero h = (d, refl)
rune_at-total (String.◌∷◌ d s) (suc i) h = rune_at-total s i (omega arith)

count_chars : rune_count chars ≡ 62
unfolding rune_count chars
count_chars = refl

module _ (random : ℕ → Option ℕ) (below : (i idx : ℕ) → random i ≡ some idx → idx < 62) where
  -- With every call of the random source answered, each draw below 62, a text of `left` characters
  -- comes out, all of the alphabet.
  generate_from-total :
      (answered : (i : ℕ) → random i ≢ none) (i left : ℕ)
      → (text : String) × (generate_from random i left ≡ ok text)
        × (rune_count text ≡ left)
        × Alphanumeric text
  unfolding generate_from draw_rune rune_count
  generate_from-total answered i zero = (String.[], refl, refl, tt)
  generate_from-total answered i (suc left) = elim (Option-cases (random i)) [
    | inl e ↦ absurd (answered i e)
    | inr (idx, e) ↦
        let (c, at) = rune_at-total chars idx (omega (arith, count_chars, below i idx e)) in
        let (text, made, length, inside) = generate_from-total answered (i + 1) left in
        (
          String.◌∷◌ c text,
          ground (arith, e, at, made),
          ap suc length,
          (rune_at-InText chars idx c at, inside),
        )
  ]

  -- If every call of the random source answers, with a number below 62, `GeneratePassword(n)` answers
  -- with a text of n characters, each one of the 62 letters and digits.
  pub generate_password-total :
      (answered : (i : ℕ) → random i ≢ none) (n : ℕ)
      → (text : String) × (generate_password random (pos n) ≡ ok text)
        × (rune_count text ≡ n)
        × Alphanumeric text
  unfolding generate_password
  generate_password-total answered n = generate_from-total answered 0 n

-- A text that comes out has the length that was asked for, and is made of the alphabet alone.
generate_from_ok :
    (random : ℕ → Option ℕ) (i left : ℕ) (text : String)
    → generate_from random i left ≡ ok text
    → (rune_count text ≡ left) × Alphanumeric text
unfolding generate_from draw_rune rune_count
generate_from_ok random i zero text made =
    let same : text ≡ String.[] = ground (arith, made) in rw same (refl, tt)
generate_from_ok random i (suc left) text made = elim (Option-cases (random i)) [
  | inl e ↦ absurd (ground (arith, made, e))
  | inr (idx, e) ↦ elim (Option-cases (rune_at chars idx)) [
    | inl out ↦ absurd (ground (arith, made, e, out))
    | inr (c, at) ↦ elim (Result-cases (generate_from random (i + 1) left)) [
      | inr (error, broken) ↦ absurd (ground (arith, made, e, at, broken))
      | inl (rest, good) ↦
          let (length, inside) = generate_from_ok random (i + 1) left rest good in
          let same : text ≡ String.◌∷◌ c rest = ground (arith, made, e, at, good) in
          rw same (ap suc length, (rune_at-InText chars idx c at, inside))
    ]
  ]
]

pub generate_password_ok :
    (random : ℕ → Option ℕ) (n : ℕ) (text : String)
    → generate_password random (pos n) ≡ ok text
    → (rune_count text ≡ n) × Alphanumeric text
unfolding generate_password
generate_password_ok random n text made = generate_from_ok random 0 n text made
