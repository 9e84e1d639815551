-- ===== src/Strings/Decimal.antt =====
-- Numbers in decimal digits: `strconv.ParseUint`, and `%d` of a number that is not negative.
pub mod Digits
use Prim.Native.Char.{Char, code}
use Prim.Native.String
use netcon_problem_managemen.Prelude.{
  ℕ, zero, suc, ◌+◌, ◌-◌, ◌*◌, ◌/◌, ◌%◌, ◌^◌, String, Option, none, some, ◌==◌, ltb, leb, ◌&&◌,
  concat, if◌then◌else◌,
}

-- The number that decimal digits write, after the number `n`.
unfoldable pub digits : ℕ → String → Option ℕ
digits n String.[] = some n
digits n (String.◌∷◌ c s) =
    let rest = digits (n * 10 + (code c - 48)) s in
    if leb 48 (code c) && leb (code c) 57 then rest else none

-- `strconv.ParseUint(s, 10, bits)`, `none` where it answers with an error.
unfoldable pub parse_uint : ℕ → String → Option ℕ
parse_uint bits s =
    if s == ""
    then none
    else elim (digits 0 s) [ none ↦ none | some n ↦ if ltb n (2 ^ bits) then some n else none ]

pub nth : String → ℕ → String
nth String.[] n = ""
nth (String.◌∷◌ c s) zero = String.◌∷◌ c String.[]
nth (String.◌∷◌ c s) (suc n) = nth s n

pub digit : ℕ → String
digit = nth "0123456789"

-- The digits of a number below 10 ^ fuel.
pub decimal_within : ℕ → ℕ → String
decimal_within zero n = ""
decimal_within (suc fuel) n =
    let upper = decimal_within fuel (n / 10) in
    if ltb n 10 then digit n else concat upper (digit (n % 10))

-- `%d`: n has at most n + 1 digits.
pub decimal : ℕ → String
decimal n = decimal_within (n + 1) n
