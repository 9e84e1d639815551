-- ===== src/Strings/Decimal/Digits.antt =====
-- What is parsed, and what is printed.
use Prim.Native.Char.{code}
use text.Mathlib.TextLemmas.{nil-append, cons-append}
use netcon_problem_managemen.Prelude.{
  ◌≤◌, ◌-◌, ltb, leb, ◌&&◌, Bool-cases, ℕ, zero, suc, ◌+◌, ◌*◌, ◌/◌, ◌%◌, ◌<◌, ◌^◌, String, ◌≡◌, ap,
  ◌∙◌, refl, some, Option-cases, inl, inr, arith, concat,
}
use netcon_problem_managemen.Strings.Decimal.{
  parse_uint, digits, digit, decimal_within, decimal, nth,
}

-- `strconv.ParseUint` gives a number that fits into the bits.
pub parse_uint_lt : (bits : ℕ) (s : String) (n : ℕ) → parse_uint bits s ≡ some n → n < 2 ^ bits
unfolding parse_uint
parse_uint_lt bits s n h = elim (Option-cases (digits 0 s)) [
  | inl bad ↦ absurd (ground arith)
  | inr (m, good) ↦ ground arith
]

digits-digit : (m r : ℕ) → r < 10 → digits m (digit r) ≡ some (m * 10 + r)
unfolding digits digit nth
digits-digit m zero h = refl
digits-digit m (suc zero) h = refl
digits-digit m (suc (suc zero)) h = refl
digits-digit m (suc (suc (suc zero))) h = refl
digits-digit m (suc (suc (suc (suc zero)))) h = refl
digits-digit m (suc (suc (suc (suc (suc zero))))) h = refl
digits-digit m (suc (suc (suc (suc (suc (suc zero)))))) h = refl
digits-digit m (suc (suc (suc (suc (suc (suc (suc zero))))))) h = refl
digits-digit m (suc (suc (suc (suc (suc (suc (suc (suc zero)))))))) h = refl
digits-digit m (suc (suc (suc (suc (suc (suc (suc (suc (suc zero))))))))) h = refl
digits-digit m (suc (suc (suc (suc (suc (suc (suc (suc (suc (suc r)))))))))) h =
    absurd (ground arith)

digits-concat :
    (n : ℕ) (s t : String) (m : ℕ) → digits n s ≡ some m → digits n (concat s t) ≡ digits m t
unfolding digits
digits-concat n String.[] t m h = ap (digits n) (nil-append t) ∙ ground arith
digits-concat n (String.◌∷◌ c s) t m h =
    rw (cons-append c s t) (elim (Bool-cases (leb 48 (code c) && leb (code c) 57)) [
      | inl numeral ↦ ground (arith, digits-concat (n * 10 + (code c - 48)) s t m)
      | inr other ↦ absurd (ground arith)
    ])

digits-decimal_within : (fuel n : ℕ) → n < fuel → digits 0 (decimal_within fuel n) ≡ some n
unfolding decimal_within
digits-decimal_within zero n h = absurd (ground arith)
digits-decimal_within (suc fuel) n h = elim (Bool-cases (ltb n 10)) [
  | inl small ↦ rw small (digits-digit 0 n (ground arith) ∙ ap (λ k. some k) (omega arith))
  | inr large ↦
      let ten : 10 ≤ n = ground arith in
      rw large (
        digits-concat 0 (decimal_within fuel (n / 10)) (digit (n % 10)) (n / 10)
          (digits-decimal_within fuel (n / 10) (omega arith))
        ∙ digits-digit (n / 10) (n % 10) (omega arith)
        ∙ ap (λ k. some k) (omega arith))
]

-- The digits that are printed for a number are read as this number.
digits-decimal : (n : ℕ) → digits 0 (decimal n) ≡ some n
unfolding decimal
digits-decimal n = digits-decimal_within (n + 1) n (ground arith)
