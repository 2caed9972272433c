-- ===== src/Prelude/Words.antt =====
-- Unsigned 64-bit arithmetic, and little-endian words in memory.
use Prim.Native.Nat.{ℕ, zero, suc, ◌+◌, ◌-◌, ◌*◌, ◌/◌, ◌%◌, ◌^◌, ◌<◌}
use mathlib.Core.Path.{◌≡◌, refl}
use mathlib.Core.List.{List, [], ◌∷◌}
use native.Mathlib.Nat.{pow-suc}
use native.Mathlib.Omega.{arith}
use cache_lens.Prelude.Lists.{length}

abbrev pub u64 : ℕ → ℕ
u64 n = n % 2 ^ 64

-- `a - b` on `uint64_t`
abbrev pub sub64 : ℕ → ℕ → ℕ
sub64 a b = (a + 2 ^ 64 - b) % 2 ^ 64

-- The number that the bytes of a little-endian word stand for.
abbrev pub le_word : List ℕ → ℕ
le_word [] = 0
le_word (b ∷ bs) = b + 256 * le_word bs

-- The `n` bytes of a word in memory.
abbrev pub le_bytes : ℕ → ℕ → List ℕ
le_bytes zero v = []
le_bytes (suc n) v = v % 256 ∷ le_bytes n (v / 256)

pub length-le_bytes : (n v : ℕ) → length (le_bytes n v) ≡ n
length-le_bytes zero v = refl
length-le_bytes (suc n) v = omega (arith, length-le_bytes n (v / 256))

pub le_word-le_bytes : (n v : ℕ) → v < 256 ^ n → le_word (le_bytes n v) ≡ v
le_word-le_bytes zero v h = omega arith
le_word-le_bytes (suc n) v h =
    let below : v / 256 < 256 ^ n = omega (arith, pow-suc 256 n) in
    omega (arith, le_word-le_bytes n (v / 256) below)
