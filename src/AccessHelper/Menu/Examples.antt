-- ===== src/AccessHelper/Menu/Examples.antt =====
-- Numbers as strconv.ParseInt reads them.
use netcon_problem_managemen.Prelude.Int.{negsuc}
use netcon_problem_managemen.Prelude.{none, some, ◌≡◌, refl}
use netcon_problem_managemen.Strings.Decimal.{parse_uint, digits}
use netcon_problem_managemen.AccessHelper.Menu.{parse_int}

negative : parse_int "-0012" ≡ some (negsuc 11)
unfolding parse_int parse_uint digits
negative = refl

too_large : parse_int "9223372036854775808" ≡ none
unfolding parse_int parse_uint digits
too_large = refl

no_digits : parse_int "+" ≡ none
unfolding parse_int parse_uint digits
no_digits = refl
