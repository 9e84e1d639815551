-- ===== src/Crypto/Examples.antt =====
-- A password drawn from a counter in place of the random source.
use netcon_problem_managemen.Prelude.{
  ℕ, ◌%◌, ◌<◌, ◌≡◌, ◌≢◌, refl, String, none, some, ok, err, arith, Option,
}
use netcon_problem_managemen.Prelude.Int.{pos, negsuc}
use netcon_problem_managemen.Crypto.{generate_password, rune_count}
use netcon_problem_managemen.Crypto.Alphabet.{Alphanumeric, generate_password-total}

abbrev counter : ℕ → Option ℕ
counter i = some (i % 62)

counter_below : (i idx : ℕ) → counter i ≡ some idx → idx < 62
counter_below i idx h = ground arith

counter_answers : (i : ℕ) → counter i ≢ none
counter_answers i h = cc

counted : generate_password counter (pos 3) ≡ ok "ABC"
unfolding generate_password
counted = refl

refused : generate_password counter (negsuc 0) ≡ err "invalid length"
unfolding generate_password
refused = refl

generate_password-total_example :
    (text : String) × (generate_password counter (pos 24) ≡ ok text)
    × (rune_count text ≡ 24)
    × Alphanumeric text
generate_password-total_example = generate_password-total counter counter_below counter_answers 24
