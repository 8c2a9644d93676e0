-- ===== src/Base/Bytes.antt =====
-- Facts about the bits of one byte, by evaluation over all bytes.
use Prim.Native.Nat.{ℕ, zero, suc, ◌-◌, ◌^◌, ◌<◌, bit_and, bit_or}
use mathlib.Core.Path.{◌≡◌, refl, ap}
use mathlib.Core.Bool.{Bool, true, false, not, ◌&&◌, ◌||◌}
use native.Mathlib.Decide.{ℕ_discrete}
use native.Mathlib.Omega.{arith}
use initramfstool.Base.Tests.{ltb, ltb→lt, ◌==◌}

-- A test of every number below a bound, by evaluation.
unfoldable pub all_below : ℕ → (ℕ → Bool) → Bool
all_below zero test = true
all_below (suc bound) test = all_below bound test && test bound

pub all_below_at :
    (bound : ℕ) (test : ℕ → Bool) (k : ℕ) → all_below bound test ≡ true → k < bound → test k ≡ true
unfolding all_below
all_below_at zero test k passed below = absurd (omega arith)
all_below_at (suc bound) test k passed below = elim (ℕ_discrete k bound) [
  | yes e ↦ ground (arith, ap test e)
  | no ne ↦ ground (arith, all_below_at bound test k)
]

abbrev same : Bool → Bool → Bool
same true b = b
same false b = not b

same-eq : (a b : Bool) → same a b ≡ true → a ≡ b
same-eq true b h = ground arith
same-eq false b h = ground arith

-- Bit `k` of the byte `b`.
abbrev pub byte_bit : ℕ → ℕ → Bool
byte_bit b k = not (bit_and b (2 ^ k) == 0)

abbrev or_row : ℕ → ℕ → Bool
or_row b i =
    ltb (bit_or b (2 ^ i)) 256
    && all_below 8 (λ j. same (byte_bit (bit_or b (2 ^ i)) j) ((i == j) || byte_bit b j))

abbrev and_row : ℕ → ℕ → Bool
and_row b i =
    ltb (bit_and b (255 - 2 ^ i)) 256
    && all_below 8 (λ j. same (byte_bit (bit_and b (255 - 2 ^ i)) j) (not (i == j) && byte_bit b j))

or_table : all_below 256 (λ b. all_below 8 (λ i. or_row b i)) ≡ true
unfolding all_below
or_table = refl

and_table : all_below 256 (λ b. all_below 8 (λ i. and_row b i)) ≡ true
unfolding all_below
and_table = refl

and-both : {a b : Bool} → (a && b) ≡ true → (a ≡ true) × (b ≡ true)
and-both h = ground arith

module _ (b i : ℕ) (hb : b < 256) (hi : i < 8) where
  or_row-true : or_row b i ≡ true
  or_row-true = all_below_at 8 _ i (all_below_at 256 _ b or_table hb) hi

  and_row-true : and_row b i ≡ true
  and_row-true = all_below_at 8 _ i (all_below_at 256 _ b and_table hb) hi

  pub bit_or-lt : bit_or b (2 ^ i) < 256
  bit_or-lt = ltb→lt _ _ (and-both or_row-true).0

  pub bit_and-lt : bit_and b (255 - 2 ^ i) < 256
  bit_and-lt = ltb→lt _ _ (and-both and_row-true).0

  pub byte_bit-or : (j : ℕ) → j < 8 → byte_bit (bit_or b (2 ^ i)) j ≡ (i == j) || byte_bit b j
  byte_bit-or j hj = same-eq _ _ (all_below_at 8 _ j (and-both or_row-true).1 hj)

  pub byte_bit-and :
      (j : ℕ) → j < 8 → byte_bit (bit_and b (255 - 2 ^ i)) j ≡ not (i == j) && byte_bit b j
  byte_bit-and j hj = same-eq _ _ (all_below_at 8 _ j (and-both and_row-true).1 hj)

zero_table : all_below 8 (λ j. not (byte_bit 0 j)) ≡ true
unfolding all_below
zero_table = refl

pub byte_bit-zero : (j : ℕ) → j < 8 → byte_bit 0 j ≡ false
byte_bit-zero j hj = not-true _ (all_below_at 8 _ j zero_table hj)
  where
    not-true : (a : Bool) → not a ≡ true → a ≡ false
    not-true true h = cc
    not-true false h = refl

ones_table : all_below 8 (λ j. byte_bit 255 j) ≡ true
unfolding all_below
ones_table = refl

pub byte_bit-ones : (j : ℕ) → j < 8 → byte_bit 255 j ≡ true
byte_bit-ones j hj = all_below_at 8 _ j ones_table hj
