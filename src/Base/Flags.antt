-- ===== src/Base/Flags.antt =====
-- One bit of a word of flags: testing it, setting it with `|`, clearing it with `&` of a mask.
use Prim.Native.Nat.{ℕ, zero, suc, ◌*◌, ◌/◌, ◌%◌, ◌^◌, min, max, bit_and, bit_or}
use mathlib.Core.Path.{◌≡◌, ap}
use native.Mathlib.Nat.{pow-suc, le_refl}
use native.Mathlib.Omega.{arith}
use initramfstool.Base.And.{bit_and_low, bit_and-zero_upto}
use initramfstool.Base.Bits.{bit_or_low}

-- Bit `k` of `a`.
abbrev pub flag_bit : ℕ → ℕ → ℕ
flag_bit zero a = a % 2
flag_bit (suc k) a = flag_bit k (a / 2)

pub flag_bit-bit_and : (k a m : ℕ) → flag_bit k (bit_and a m) ≡ min (flag_bit k a) (flag_bit k m)
flag_bit-bit_and zero a m = omega (arith, bit_and_low a m)
flag_bit-bit_and (suc k) a m =
    let e : bit_and a m / 2 ≡ bit_and (a / 2) (m / 2) = omega (arith, bit_and_low a m) in
    rw e (flag_bit-bit_and k (a / 2) (m / 2))

pub flag_bit-bit_or : (k a m : ℕ) → flag_bit k (bit_or a m) ≡ max (flag_bit k a) (flag_bit k m)
flag_bit-bit_or zero a m = omega (arith, bit_or_low a m)
flag_bit-bit_or (suc k) a m =
    let e : bit_or a m / 2 ≡ bit_or (a / 2) (m / 2) = omega (arith, bit_or_low a m) in
    rw e (flag_bit-bit_or k (a / 2) (m / 2))

pub bit_and-power : (k a : ℕ) → bit_and a (2 ^ k) ≡ flag_bit k a * 2 ^ k
bit_and-power zero a = omega (arith, bit_and_low a 1, bit_and-zero_upto (a / 2) (a / 2) (le_refl _))
bit_and-power (suc k) a =
    let e : 2 ^ suc k / 2 ≡ 2 ^ k = omega (arith, pow-suc 2 k) in
    omega (
      arith,
      pow-suc 2 k,
      bit_and_low a (2 ^ suc k),
      ap (λ t. bit_and (a / 2) t) e,
      bit_and-power k (a / 2),
      ap (λ t. flag_bit k (a / 2) * t) (pow-suc 2 k),
    )
