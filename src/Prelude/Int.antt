-- ===== src/Prelude/Int.antt =====
-- Signed integers: `negsuc n` is -(n + 1). Go's `int` has 64 bits, and `int_of_sub` wraps there.
use netcon_problem_managemen.Prelude.{ℕ, ◌+◌, ◌-◌, ◌^◌, Bool, true, false, ltb, leb, if◌then◌else◌}

pub data ℤ : Type 0 where
  pos : ℕ → ℤ
  negsuc : ℕ → ℤ

-- n < z, for a count n.
abbrev pub count_lt : ℕ → ℤ → Bool
count_lt n (pos m) = ltb n m
count_lt n (negsuc m) = false

-- z < n, for a count n.
abbrev pub lt_count : ℤ → ℕ → Bool
lt_count (pos m) n = ltb m n
lt_count (negsuc m) n = true

-- n - z on 64-bit integers, for a count n below 2^63: past the largest integer it wraps.
abbrev pub sub_int : ℕ → ℤ → ℤ
sub_int n (pos m) = if leb m n then pos (n - m) else negsuc (m - n - 1)
sub_int n (negsuc m) =
    if ltb (n + m + 1) (2 ^ 63) then pos (n + m + 1) else negsuc (2 ^ 64 - (n + m + 1) - 1)
