-- ===== src/Crypto.antt =====
-- pkg/crypto/password.go. The i-th call of `rand.Int` answers `random i`: a number, or `none` for an
-- error. The standard library documents the number to be below the bound that it is given, 62 here;
-- an index past the alphabet is a Go panic, which is the error "index out of range" of the model.
pub mod Alphabet
mod Examples
use Prim.Native.Char.{Char}
use Prim.Native.String
use netcon_problem_managemen.Prelude.{
  ℕ, zero, suc, ◌+◌, String, Option, none, some, Result, ok, err,
}
use netcon_problem_managemen.Prelude.Int.{ℤ, pos, negsuc}

pub chars : String
chars = "ABCDEFGHIJKLMNOPQRSTUVWXYZabcdefghijklmnopqrstuvwxyz0123456789"

-- Indexing of a slice of runes.
pub rune_at : String → ℕ → Option Char
rune_at String.[] i = none
rune_at (String.◌∷◌ c s) zero = some c
rune_at (String.◌∷◌ c s) (suc i) = rune_at s i

unfoldable pub rune_count : String → ℕ
rune_count String.[] = 0
rune_count (String.◌∷◌ c s) = suc (rune_count s)

-- The body of the loop at one random number, before the rest of the text.
pub draw_rune : Option ℕ → Result String String → Result String String
unfolding rune_at chars
draw_rune none rest = err "failed to read random"
draw_rune (some idx) rest = elim (rune_at chars idx) [
  | none ↦ err "index out of range"
  | some c ↦ elim rest [ ok text ↦ ok (String.◌∷◌ c text) | err e ↦ err e ]
]

-- `left` characters are still to draw, the next with the i-th random number.
pub generate_from : (ℕ → Option ℕ) → ℕ → ℕ → Result String String
unfolding draw_rune
generate_from random i zero = ok String.[]
generate_from random i (suc left) = draw_rune (random i) (generate_from random (i + 1) left)

pub generate_password : (ℕ → Option ℕ) → ℤ → Result String String
unfolding generate_from
generate_password random (negsuc n) = err "invalid length"
generate_password random (pos n) = generate_from random 0 n
