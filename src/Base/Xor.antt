-- ===== src/Base/Xor.antt =====
-- `^` on numbers of any width: the law of the lowest digit, and what follows from it.
use Prim.Native.Nat.{
  ℕ, zero, suc, ◌+◌, ◌*◌, ◌/◌, ◌%◌, ◌^◌, ◌≤◌, ◌<◌, differ, bit_xor, bit_xor-bitwise,
}
use mathlib.Core.Path.{◌≡◌, refl, ap, ap₂, sym, ◌∙◌}
use native.Mathlib.Nat.{pow-suc, le_refl}
use native.Mathlib.Omega.{arith}
use initramfstool.Base.Digits.{lowest_digit}

bit_xor-zero_left : (b : ℕ) → bit_xor 0 b ≡ b
bit_xor-zero_left b = bit_xor-bitwise 0 b

differ_digits : (x y : ℕ) → x < 2 → y < 2 → differ x y ≡ (x + y) % 2
differ_digits zero y p q = omega arith
differ_digits (suc zero) zero p q = refl
differ_digits (suc zero) (suc zero) p q = refl
differ_digits (suc zero) (suc (suc y)) p q = absurd (omega arith)
differ_digits (suc (suc x)) y p q = absurd (omega arith)

bit_xor_low : (a b : ℕ) → bit_xor a b ≡ bit_xor (a / 2) (b / 2) * 2 + (a % 2 + b % 2) % 2
bit_xor_low zero b = omega (arith, bit_xor-zero_left b, bit_xor-zero_left (b / 2))
bit_xor_low (suc a) b =
    bit_xor-bitwise (suc a) b
    ∙ lowest_digit (λ y. y) differ a b
    ∙ ap₂ (λ t u. t * 2 + u) (sym (bit_xor-bitwise (suc a / 2) (b / 2)))
        (differ_digits (suc a % 2) (b % 2) (omega arith) (omega arith))

pub half-bit_xor : (a b : ℕ) → bit_xor a b / 2 ≡ bit_xor (a / 2) (b / 2)
half-bit_xor a b = omega (arith, bit_xor_low a b)

pub odd-bit_xor : (a b : ℕ) → bit_xor a b % 2 ≡ (a % 2 + b % 2) % 2
odd-bit_xor a b = omega (arith, bit_xor_low a b)

eq_of_digits : (x y : ℕ) → x / 2 ≡ y / 2 → x % 2 ≡ y % 2 → x ≡ y
eq_of_digits x y p q = omega arith

xor_assoc_fuel : (n a b c : ℕ) → a ≤ n → bit_xor (bit_xor a b) c ≡ bit_xor a (bit_xor b c)
xor_assoc_fuel n zero b c h =
    ap (λ t. bit_xor t c) (bit_xor-zero_left b) ∙ sym (bit_xor-zero_left (bit_xor b c))
xor_assoc_fuel zero (suc a) b c h = absurd (omega arith)
xor_assoc_fuel (suc n) (suc a) b c h =
    eq_of_digits _ _
      (rw (half-bit_xor (bit_xor (suc a) b) c, half-bit_xor (suc a) b)
        (rw (half-bit_xor (suc a) (bit_xor b c), half-bit_xor b c)
          (xor_assoc_fuel n (suc a / 2) (b / 2) (c / 2) (omega arith))))
      (omega (
        arith,
        odd-bit_xor (bit_xor (suc a) b) c,
        odd-bit_xor (suc a) b,
        odd-bit_xor (suc a) (bit_xor b c),
        odd-bit_xor b c,
      ))

pub bit_xor_assoc : (a b c : ℕ) → bit_xor (bit_xor a b) c ≡ bit_xor a (bit_xor b c)
bit_xor_assoc a b c = xor_assoc_fuel a a b c (le_refl _)

bit_xor-zero_fuel : (n a : ℕ) → a ≤ n → bit_xor a 0 ≡ a
bit_xor-zero_fuel n zero h = refl
bit_xor-zero_fuel zero (suc a) h = absurd (omega arith)
bit_xor-zero_fuel (suc n) (suc a) h =
    omega (arith, bit_xor_low (suc a) 0, bit_xor-zero_fuel n (suc a / 2) (omega arith))

bit_xor-zero_right : (a : ℕ) → bit_xor a 0 ≡ a
bit_xor-zero_right a = bit_xor-zero_fuel a a (le_refl _)

xor_comm_fuel : (n a b : ℕ) → a ≤ n → bit_xor a b ≡ bit_xor b a
xor_comm_fuel n zero b h = bit_xor-zero_left b ∙ sym (bit_xor-zero_right b)
xor_comm_fuel zero (suc a) b h = absurd (omega arith)
xor_comm_fuel (suc n) (suc a) b h =
    omega (arith, bit_xor_low (suc a) b, bit_xor_low b (suc a), xor_comm_fuel n (suc a / 2) (b / 2))

pub bit_xor_comm : (a b : ℕ) → bit_xor a b ≡ bit_xor b a
bit_xor_comm a b = xor_comm_fuel a a b (le_refl _)

-- `^` of numbers of `k` bits has `k` bits.
pub bit_xor-lt : (k a b : ℕ) → a < 2 ^ k → b < 2 ^ k → bit_xor a b < 2 ^ k
bit_xor-lt zero a b p q = let e : a ≡ 0 = omega arith in rw (e, bit_xor-zero_left b) q
bit_xor-lt (suc k) a b p q = omega (
  arith,
  pow-suc 2 k,
  bit_xor_low a b,
  bit_xor-lt k (a / 2) (b / 2) (omega (arith, pow-suc 2 k)) (omega (arith, pow-suc 2 k)),
)

-- `^` with a field that lies above a number of `k` bits is the sum.
pub bit_xor-disjoint : (k hi lo : ℕ) → lo < 2 ^ k → bit_xor (hi * 2 ^ k) lo ≡ hi * 2 ^ k + lo
bit_xor-disjoint zero hi lo h =
    let e : lo ≡ 0 = omega arith in rw e (omega (arith, bit_xor-zero_right (hi * 1)))
bit_xor-disjoint (suc k) hi lo h = omega (
  arith,
  pow-suc 2 k,
  ap (λ (t : ℕ). hi * t) (pow-suc 2 k),
  bit_xor_low (hi * 2 ^ suc k) lo,
  bit_xor-disjoint k hi (lo / 2) (omega (arith, pow-suc 2 k)),
  ap (λ (t : ℕ). bit_xor t (lo / 2)) (half k hi),
)
  where
    half : (k hi : ℕ) → hi * 2 ^ suc k / 2 ≡ hi * 2 ^ k
    half k hi = omega (arith, pow-suc 2 k, ap (λ (t : ℕ). hi * t) (pow-suc 2 k))
