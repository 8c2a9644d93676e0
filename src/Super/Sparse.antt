-- ===== src/Super/Sparse.antt =====
-- Which groups hold a copy of the superblock: 0, 1 and the powers of 3, 5 and 7.
use initramfstool.Base.{
  ℕ, zero, suc, ◌+◌, ◌*◌, ◌/◌, ◌%◌, ◌^◌, ◌<◌, ◌≤◌, ◌≡◌, ◌⊎◌, inl, inr, ◌↔◌, ap, sym, ◌∙◌, arith,
  true,
}
use native.Mathlib.Nat.{pow-suc, pow-zero, one-le-pow, mul-div_cancel, mul-mod_left, div-add-mod}
use initramfstool.Super.{is_power_of_loop, is_power_of, sparse}

-- `a` is a power of `b` other than 1.
abbrev pub IsPower : ℕ → ℕ → Type 0
IsPower a b = (k : ℕ) × (a ≡ b ^ suc k)

pow-one : (b : ℕ) → b ^ 1 ≡ b
pow-one b = pow-suc b 0 ∙ rw pow-zero (omega arith)

is_power_of_loop-step :
    (fuel a b : ℕ)
    → is_power_of_loop (suc fuel) a b ≡ true
    → (a ≡ b) ⊎ (a % b ≡ 0) × (is_power_of_loop fuel (a / b) b ≡ true)
unfolding is_power_of_loop
is_power_of_loop-step fuel a b t = ground arith

div-mul-of_mod : (a b : ℕ) → a % b ≡ 0 → a / b * b ≡ a
div-mul-of_mod a b h = grind (arith, div-add-mod a b)

is_power_of_loop_sound : (fuel a b : ℕ) → 0 < b → is_power_of_loop fuel a b ≡ true → IsPower a b
is_power_of_loop_sound zero a b h t = absurd (unfold is_power_of_loop in cc)
is_power_of_loop_sound (suc fuel) a b h t = elim (is_power_of_loop-step fuel a b t) [
  | inl e ↦ (0, e ∙ sym (pow-one b))
  | inr (exact, again) ↦
      let (k, e) = is_power_of_loop_sound fuel (a / b) b h again in
      (suc k, sym (div-mul-of_mod a b exact) ∙ ap (λ t. t * b) e ∙ sym (pow-suc b (suc k)))
]

le-pow-suc : (b k : ℕ) → 2 ≤ b → b ≤ b ^ suc k
le-pow-suc b k h = grind (arith, pow-suc b k, one-le-pow k b)

is_power_of_loop-divide :
    (fuel a b : ℕ)
    → b < a
    → a % b ≡ 0
    → is_power_of_loop fuel (a / b) b ≡ true
    → is_power_of_loop (suc fuel) a b ≡ true
unfolding is_power_of_loop
is_power_of_loop-divide fuel a b more exact again = ground arith

is_power_of_loop_complete :
    (k fuel b : ℕ) → 2 ≤ b → b ^ suc k ≤ fuel → is_power_of_loop fuel (b ^ suc k) b ≡ true
unfolding is_power_of_loop
is_power_of_loop_complete k zero b h p = absurd (omega (arith, le-pow-suc b k h))
is_power_of_loop_complete zero (suc fuel) b h p = rw (pow-one b) (ground arith)
is_power_of_loop_complete (suc k) (suc fuel) b h p =
    let q = b ^ suc k in
    let pos : 0 < b = omega arith in
    let e : b ^ suc (suc k) ≡ q * b = pow-suc b (suc k) in
    let grows : q + q ≤ q * b = grind arith in
    rw e (
      is_power_of_loop-divide fuel (q * b) b (omega (arith, le-pow-suc b k h, grows))
        (mul-mod_left q b)
        (rw (mul-div_cancel q pos)
          (is_power_of_loop_complete k fuel b h (omega (arith, e, grows, le-pow-suc b k h)))))

-- The loop of `is_power_of` decides whether `a` is a power of `b` other than 1, for `b` of 2 or more.
is_power_of_iff : (a b : ℕ) → 2 ≤ b → (is_power_of a b ≡ true) ↔ IsPower a b
unfolding is_power_of
is_power_of_iff a b h = (
  is_power_of_loop_sound (suc a) a b (omega arith),
  λ (k, e). rw e (is_power_of_loop_complete k (suc (b ^ suc k)) b h (omega arith)),
)

-- A power of an odd number is odd.
odd_pow : (c k : ℕ) → (2 * c + 1) ^ k % 2 ≡ 1
odd_pow c zero = omega (arith, pow-zero (2 * c + 1))
odd_pow c (suc k) = omega (arith, pow-suc (2 * c + 1) k, odd_pow c k)

IsPower-odd : (a c : ℕ) → IsPower a (2 * c + 1) → a % 2 ≡ 1
IsPower-odd a c (k, e) = rw e (odd_pow c (suc k))

cases :
    (group : ℕ)
    → sparse group ≡ true
    → (group ≤ 1)
      ⊎ (is_power_of group 7 ≡ true)
      ⊎ (is_power_of group 5 ≡ true)
      ⊎ (is_power_of group 3 ≡ true)
unfolding sparse
cases group t = ground arith

-- A group has a sparse copy exactly if it is 0 or 1, or a power of 7, of 5 or of 3: the test for an
-- even number refuses none of these.
pub sparse_iff :
    (group : ℕ)
    → (sparse group ≡ true) ↔ (group ≤ 1) ⊎ IsPower group 7 ⊎ IsPower group 5 ⊎ IsPower group 3
unfolding sparse
sparse_iff group = (there, back)
  where
    p7 : (is_power_of group 7 ≡ true) ↔ IsPower group 7
    p7 = is_power_of_iff group 7 (omega arith)

    p5 : (is_power_of group 5 ≡ true) ↔ IsPower group 5
    p5 = is_power_of_iff group 5 (omega arith)

    p3 : (is_power_of group 3 ≡ true) ↔ IsPower group 3
    p3 = is_power_of_iff group 3 (omega arith)

    there : sparse group ≡ true → (group ≤ 1) ⊎ IsPower group 7 ⊎ IsPower group 5 ⊎ IsPower group 3
    there t = elim (cases group t) [
      | inl low ↦ inl low
      | inr (inl h) ↦ inr (inl (p7.0 h))
      | inr (inr (inl h)) ↦ inr (inr (inl (p5.0 h)))
      | inr (inr (inr h)) ↦ inr (inr (inr (p3.0 h)))
    ]

    back : (group ≤ 1) ⊎ IsPower group 7 ⊎ IsPower group 5 ⊎ IsPower group 3 → sparse group ≡ true
    back (inl low) = ground arith
    back (inr (inl h)) = ground (arith, p7.1 h, IsPower-odd group 3 h)
    back (inr (inr (inl h))) = ground (arith, p5.1 h, IsPower-odd group 2 h)
    back (inr (inr (inr h))) = ground (arith, p3.1 h, IsPower-odd group 1 h)
