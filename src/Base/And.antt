-- ===== src/Base/And.antt =====
-- `&` with a mask of low ones is the remainder, at every width.
use Prim.Native.Nat.{
  ℕ, zero, suc, ◌+◌, ◌-◌, ◌*◌, ◌/◌, ◌%◌, ◌^◌, ◌≤◌, ◌<◌, min, bit_and, bit_and-bitwise,
}
use mathlib.Core.Path.{◌≡◌, refl, ap, ap₂, sym, ◌∙◌}
use native.Mathlib.Nat.{pow-suc, le_refl, one-le-pow, mod-lt, div-add-mod'}
use native.Mathlib.Omega.{arith}
use initramfstool.Base.Digits.{lowest_digit}

bit_and-zero_left : (b : ℕ) → bit_and 0 b ≡ 0
bit_and-zero_left b = bit_and-bitwise 0 b

pub bit_and_low : (a b : ℕ) → bit_and a b ≡ bit_and (a / 2) (b / 2) * 2 + min (a % 2) (b % 2)
bit_and_low zero b = omega (arith, bit_and-zero_left b, bit_and-zero_left (b / 2))
bit_and_low (suc a) b =
    bit_and-bitwise (suc a) b
    ∙ lowest_digit (λ _. 0) min a b
    ∙ ap (λ t. t * 2 + min (suc a % 2) (b % 2)) (sym (bit_and-bitwise (suc a / 2) (b / 2)))

pub bit_and-zero_upto : (n a : ℕ) → a ≤ n → bit_and a 0 ≡ 0
bit_and-zero_upto n zero h = refl
bit_and-zero_upto zero (suc a) h = absurd (omega arith)
bit_and-zero_upto (suc n) (suc a) h =
    omega (arith, bit_and_low (suc a) 0, bit_and-zero_upto n (suc a / 2) (omega arith))

low_field : (k q r : ℕ) → r < 2 ^ k → bit_and (q * 2 ^ k + r) (2 ^ k - 1) ≡ r
low_field zero q r h = omega (arith, bit_and-zero_upto (q * 1 + r) (q * 1 + r) (le_refl _))
low_field (suc k) q r h = omega (
  arith,
  pow-suc 2 k,
  one-le-pow k 2,
  bit_and_low (q * 2 ^ suc k + r) (2 ^ suc k - 1),
  low_field k q (r / 2) (omega (arith, pow-suc 2 k)),
  ap₂ (λ (t u : ℕ). bit_and t u) halved mask_halved,
  ap (λ (t : ℕ). q * t) (pow-suc 2 k),
)
  where
    mask_halved : (2 ^ suc k - 1) / 2 ≡ 2 ^ k - 1
    mask_halved = omega (arith, pow-suc 2 k)

    halved : (q * 2 ^ suc k + r) / 2 ≡ q * 2 ^ k + r / 2
    halved = omega (arith, pow-suc 2 k, ap (λ (t : ℕ). q * t) (pow-suc 2 k))

pub bit_and-mask : (k a : ℕ) → bit_and a (2 ^ k - 1) ≡ a % 2 ^ k
bit_and-mask k a =
    ap (λ t. bit_and t (2 ^ k - 1)) (sym (div-add-mod' a (2 ^ k)))
    ∙ low_field k (a / 2 ^ k) (a % 2 ^ k) (mod-lt a (one-le-pow k 2 (omega arith)))
