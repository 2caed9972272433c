-- ===== src/Prelude/Bits.antt =====
-- The slot of a position in a queue with 1024 slots: `pos & kMask` keeps the remainder.
use Prim.Native.Nat.{
  ℕ, zero, suc, ◌+◌, ◌*◌, ◌/◌, ◌%◌, ◌≤◌, ◌<◌, min, bit_and, digits, bit_and-bitwise,
}
use mathlib.Core.Path.{◌≡◌, refl, ap, ◌∙◌}
use native.Mathlib.Nat.{add-mul-mod_self_left, mod-eq_of_lt, mod-lt, div-add-mod}
use native.Mathlib.Omega.{arith}

-- Masking by `m` keeps the remainder by `w`, in the digit recursion that `bit_and` stands for.
abbrev Masks : ℕ → ℕ → Type 0
Masks w m = (n a : ℕ) → a ≤ n → digits (λ b. zero) min n a m ≡ a % w

half-mod : (a w : ℕ) → 0 < w → a % (2 * w) ≡ a / 2 % w * 2 + a % 2
half-mod a w some_room =
    ap (λ (t : ℕ). t % (2 * w)) parts
    ∙ add-mul-mod_self_left (a / 2 % w * 2 + a % 2) (2 * w) (a / 2 / w)
    ∙ mod-eq_of_lt (omega (arith, mod-lt (a / 2) some_room))
  where
    parts : a ≡ a / 2 % w * 2 + a % 2 + 2 * w * (a / 2 / w)
    parts = omega (arith, div-add-mod (a / 2) w)

Masks-nothing : Masks 1 0
Masks-nothing zero zero h = refl
Masks-nothing (suc n) zero h = refl
Masks-nothing zero (suc a) h = absurd (omega arith)
Masks-nothing (suc n) (suc a) h = omega (arith, Masks-nothing n (suc a / 2) (omega arith))

-- One more digit of ones.
Masks-double : (w m : ℕ) → 0 < w → Masks w m → Masks (2 * w) (2 * m + 1)
Masks-double w m some_room h zero zero below = omega (arith, half-mod 0 w some_room, h 0 0 below)
Masks-double w m some_room h (suc n) zero below =
    omega (arith, half-mod 0 w some_room, h 0 0 (omega arith))
Masks-double w m some_room h zero (suc a) below = absurd (omega arith)
Masks-double w m some_room h (suc n) (suc a) below =
    let rest : (2 * m + 1) / 2 ≡ m = omega arith in
    rw rest (omega (arith, half-mod (suc a) w some_room, h n (suc a / 2) (omega arith)))

Masks-8 : Masks 8 7
Masks-8 =
    Masks-double 4 3 (omega arith)
      (Masks-double 2 1 (omega arith) (Masks-double 1 0 (omega arith) Masks-nothing))

Masks-64 : Masks 64 63
Masks-64 =
    Masks-double 32 31 (omega arith)
      (Masks-double 16 15 (omega arith) (Masks-double 8 7 (omega arith) Masks-8))

Masks-1024 : Masks 1024 1023
Masks-1024 = Masks-double 512 511 (omega arith) (
    Masks-double 256 255 (omega arith)
      (Masks-double 128 127 (omega arith) (Masks-double 64 63 (omega arith) Masks-64)))

pub bit_and-mask : (a : ℕ) → bit_and a 1023 ≡ a % 1024
bit_and-mask a = bit_and-bitwise a 1023 ∙ Masks-1024 a a (omega arith)
