-- ===== src/Prime/Tests.antt =====
-- Periods as the calibration rounds them.
use cache_lens.Prelude.{◌≡◌, refl, some, false, arith}
use cache_lens.Prime.{trial, is_prime, search_prime, nearest_prime}
use cache_lens.Prime.Divisors.{IsPrime}
use cache_lens.Prime.Trial.{Decides, is_prime-Decides}
use cache_lens.Prime.Nearest.{Finds, nearest_prime-Finds}

-- the prime is below: 7 + 1 is nearer to 7 than to 11
nearest_eight : nearest_prime 5 8 ≡ some 7
unfolding nearest_prime search_prime is_prime trial
nearest_eight = refl

nearest_tie : nearest_prime 5 9 ≡ some 11
unfolding nearest_prime search_prime is_prime trial
nearest_tie = refl

is_prime_square : is_prime 10201 ≡ some false
unfolding is_prime trial
is_prime_square = refl

is_prime-Decides_example : Decides 10007 (is_prime 10007)
is_prime-Decides_example = is_prime-Decides 10007 (omega arith)

IsPrime-10007 : IsPrime 10007
unfolding is_prime trial
IsPrime-10007 = is_prime-Decides 10007 (omega arith)

nearest_prime-Finds_example : Finds 10000 (nearest_prime 8 10000)
nearest_prime-Finds_example =
    nearest_prime-Finds 8 10000 10007 (omega arith) (omega arith) IsPrime-10007 (omega arith)
