-- ===== src/Base/Bits.antt =====
-- `|` of disjoint fields and the shifts of C as arithmetic, at every width.
use Prim.Native.Nat.{ℕ, zero, suc, ◌+◌, ◌*◌, ◌/◌, ◌%◌, ◌^◌, ◌≤◌, ◌<◌, max, bit_or, bit_or-bitwise}
use mathlib.Core.Path.{◌≡◌, refl, ap, sym, ◌∙◌}
use native.Mathlib.Nat.{pow-suc, le_refl}
use native.Mathlib.Omega.{arith}
use initramfstool.Base.Digits.{lowest_digit}

bit_or-zero_left : (b : ℕ) → bit_or 0 b ≡ b
bit_or-zero_left b = bit_or-bitwise 0 b

pub bit_or_low : (a b : ℕ) → bit_or a b ≡ bit_or (a / 2) (b / 2) * 2 + max (a % 2) (b % 2)
bit_or_low zero b = omega (arith, bit_or-zero_left b, bit_or-zero_left (b / 2))
bit_or_low (suc a) b =
    bit_or-bitwise (suc a) b
    ∙ lowest_digit (λ y. y) max a b
    ∙ ap (λ t. t * 2 + max (suc a % 2) (b % 2)) (sym (bit_or-bitwise (suc a / 2) (b / 2)))

bit_or-zero_fuel : (n a : ℕ) → a ≤ n → bit_or a 0 ≡ a
bit_or-zero_fuel n zero h = refl
bit_or-zero_fuel zero (suc a) h = absurd (omega arith)
bit_or-zero_fuel (suc n) (suc a) h =
    omega (arith, bit_or_low (suc a) 0, bit_or-zero_fuel n (suc a / 2) (omega arith))

-- A high field and a low one do not meet: `|` is the sum.
pub bit_or-disjoint : (k hi lo : ℕ) → lo < 2 ^ k → bit_or (hi * 2 ^ k) lo ≡ hi * 2 ^ k + lo
bit_or-disjoint zero hi lo h =
    let e : lo ≡ 0 = omega arith in
    rw e (omega (arith, bit_or-zero_fuel (hi * 1) (hi * 1) (le_refl _)))
bit_or-disjoint (suc k) hi lo h = omega (
  arith,
  pow-suc 2 k,
  ap (λ (t : ℕ). hi * t) (pow-suc 2 k),
  bit_or_low (hi * 2 ^ suc k) lo,
  bit_or-disjoint k hi (lo / 2) (omega (arith, pow-suc 2 k)),
  ap (λ (t : ℕ). bit_or t (lo / 2)) (half k hi),
)
  where
    half : (k hi : ℕ) → hi * 2 ^ suc k / 2 ≡ hi * 2 ^ k
    half k hi = omega (arith, pow-suc 2 k, ap (λ (t : ℕ). hi * t) (pow-suc 2 k))

pub bit_or-below : (k a b : ℕ) → a < 2 ^ k → b < 2 ^ k → bit_or a b < 2 ^ k
bit_or-below zero a b p q =
    let e : a ≡ 0 = omega arith in let f : b ≡ 0 = omega arith in rw (e, f) (omega arith)
bit_or-below (suc k) a b p q = omega (
  arith,
  pow-suc 2 k,
  bit_or_low a b,
  bit_or-below k (a / 2) (b / 2) (omega (arith, pow-suc 2 k)) (omega (arith, pow-suc 2 k)),
)
