-- ===== src/Base/Digits.antt =====
-- The native bit operations stand for `digits`, a recursion on binary digits with fuel. Fuel beyond
-- the first number changes nothing, which gives one equation for the lowest digit.
use Prim.Native.Nat.{ℕ, zero, suc, ◌+◌, ◌*◌, ◌/◌, ◌%◌, ◌≤◌, digits, bitwise}
use mathlib.Core.Path.{◌≡◌, refl, ap, ◌∙◌}
use native.Mathlib.Decide.{ℕ_discrete}
use native.Mathlib.Nat.{le_refl}
use native.Mathlib.Omega.{arith}

module _ (z : ℕ → ℕ) (op : ℕ → ℕ → ℕ) where
  spare_round : (a n b : ℕ) → a ≤ n → digits z op (suc n) a b ≡ digits z op n a b
  spare_round zero zero b h = refl
  spare_round zero (suc n) b h = refl
  spare_round (suc a) zero b h = absurd (omega arith)
  spare_round (suc a) (suc n) b h =
      ap (λ t. t * 2 + op (suc a % 2) (b % 2)) (spare_round (suc a / 2) n (b / 2) (omega arith))

  spare_rounds : (m n a b : ℕ) → n ≤ m → a ≤ n → digits z op m a b ≡ digits z op n a b
  spare_rounds zero n a b h q = let e : zero ≡ n = omega arith in ap (λ t. digits z op t a b) e
  spare_rounds (suc m) n a b h q = elim (ℕ_discrete (suc m) n) [
    | yes e ↦ ap (λ t. digits z op t a b) e
    | no ne ↦ spare_round a m b (omega arith) ∙ spare_rounds m n a b (omega arith) q
  ]

  pub lowest_digit :
      (a b : ℕ)
      → bitwise z op (suc a) b ≡ bitwise z op (suc a / 2) (b / 2) * 2 + op (suc a % 2) (b % 2)
  lowest_digit a b =
      ap (λ t. t * 2 + op (suc a % 2) (b % 2))
        (spare_rounds a (suc a / 2) (suc a / 2) (b / 2) (omega arith) (le_refl _))
