-- ===== src/Crc/Detects.antt =====
-- A CRC tells two buffers apart that differ in one byte.
use Prim.Native.Nat.{bit_xor-bitwise}
use initramfstool.Base.{
  ℕ, zero, suc, ◌/◌, ◌%◌, ◌^◌, ◌<◌, ◌≤◌, ◌≡◌, sym, ap, ◌∙◌, inl, inr, arith, bit_xor, List, [], ◌∷◌,
  ◌++◌, ◌==◌, IsBytes, Bool-cases, bit_xor_assoc, bit_xor_comm, bit_xor-lt, half-bit_xor,
  odd-bit_xor,
}
use initramfstool.Crc.Serial.{crc_bit, crc_bits, serial}

xor_self_fuel : (n a : ℕ) → a ≤ n → bit_xor a a ≡ 0
xor_self_fuel n zero h = bit_xor-bitwise 0 0
xor_self_fuel zero (suc a) h = absurd (omega arith)
xor_self_fuel (suc n) (suc a) h =
    let half = half-bit_xor (suc a) (suc a) in
    let odd = odd-bit_xor (suc a) (suc a) in
    let rest = xor_self_fuel n (suc a / 2) (omega arith) in omega arith

xor_twice : (a p : ℕ) → bit_xor (bit_xor a p) p ≡ a
xor_twice a p =
    bit_xor_assoc a p p
    ∙ ap (bit_xor a) (xor_self_fuel p p (omega arith))
    ∙ bit_xor_comm a 0
    ∙ bit_xor-bitwise 0 a

xor_cancel : (a b p : ℕ) → bit_xor a p ≡ bit_xor b p → a ≡ b
xor_cancel a b p h = sym (xor_twice a p) ∙ ap (λ (t : ℕ). bit_xor t p) h ∙ xor_twice b p

module _ (poly : ℕ) (high : 2 ^ 31 ≤ poly) (fits : poly < 2 ^ 32) where
  -- The polynomial has the highest bit, which a shifted number has not.
  taken_off-ne : (x y : ℕ) → x < 2 ^ 31 → y < 2 ^ 31 → bit_xor x poly ≡ y → ⊥
  taken_off-ne x y small small' h =
      let e : poly ≡ bit_xor y x =
        sym (xor_twice poly x) ∙ ap (λ (t : ℕ). bit_xor t x) (bit_xor_comm poly x ∙ h) in
      let below = bit_xor-lt 31 y x small' small in omega arith

  crc_bit-lt : (c : ℕ) → c < 2 ^ 32 → crc_bit poly c < 2 ^ 32
  unfolding crc_bit
  crc_bit-lt c h = let low = bit_xor-lt 32 (c / 2) poly (omega arith) fits in ground arith

  crc_bit-injective : (c d : ℕ) → c < 2 ^ 32 → d < 2 ^ 32 → crc_bit poly c ≡ crc_bit poly d → c ≡ d
  unfolding crc_bit
  crc_bit-injective c d hc hd h =
      let apart = taken_off-ne (c / 2) (d / 2) (omega arith) (omega arith) in
      let apart' = taken_off-ne (d / 2) (c / 2) (omega arith) (omega arith) in
      let cancel = xor_cancel (c / 2) (d / 2) poly in
      elim (Bool-cases (c % 2 == 1)) [
        | inl e ↦ elim (Bool-cases (d % 2 == 1)) [
          | inl f ↦ ground arith
          | inr f ↦ absurd (apart (ground arith))
        ]
        | inr e ↦ elim (Bool-cases (d % 2 == 1)) [
          | inl f ↦ absurd (apart' (ground arith))
          | inr f ↦ ground arith
        ]
      ]

  crc_bits-lt : (n c : ℕ) → c < 2 ^ 32 → crc_bits poly n c < 2 ^ 32
  unfolding crc_bits
  crc_bits-lt zero c h = h
  crc_bits-lt (suc n) c h = crc_bits-lt n (crc_bit poly c) (crc_bit-lt c h)

  crc_bits-injective :
      (n c d : ℕ) → c < 2 ^ 32 → d < 2 ^ 32 → crc_bits poly n c ≡ crc_bits poly n d → c ≡ d
  unfolding crc_bits
  crc_bits-injective zero c d hc hd h = h
  crc_bits-injective (suc n) c d hc hd h =
      crc_bit-injective c d hc hd (
        crc_bits-injective n (crc_bit poly c) (crc_bit poly d) (crc_bit-lt c hc) (crc_bit-lt d hd)
          h)

  serial-injective :
      (buf : List ℕ) (c d : ℕ)
      → IsBytes buf
      → c < 2 ^ 32
      → d < 2 ^ 32
      → serial poly c buf ≡ serial poly d buf
      → c ≡ d
  unfolding serial
  serial-injective [] c d bytes hc hd h = h
  serial-injective (b ∷ buf) c d bytes hc hd h =
      let byte = bytes.0 in
      let lc = bit_xor-lt 32 c b hc (omega arith) in
      let ld = bit_xor-lt 32 d b hd (omega arith) in
      xor_cancel c d b (
        crc_bits-injective 8 _ _ lc ld
          (serial-injective buf _ _ bytes.1 (crc_bits-lt 8 _ lc) (crc_bits-lt 8 _ ld) h))

  -- Two buffers with the same CRC that have the same bytes but for one have that one too.
  pub serial-detects :
      (front back : List ℕ) (crc b b' : ℕ)
      → IsBytes front
      → IsBytes back
      → crc < 2 ^ 32
      → b < 256
      → b' < 256
      → serial poly crc (front ++ (b ∷ back)) ≡ serial poly crc (front ++ (b' ∷ back))
      → b ≡ b'
  unfolding serial
  serial-detects [] back crc b b' hf hk hc hb hb' h =
      let l = bit_xor-lt 32 crc b hc (omega arith) in
      let l' = bit_xor-lt 32 crc b' hc (omega arith) in
      let same =
        crc_bits-injective 8 _ _ l l'
          (serial-injective back _ _ hk (crc_bits-lt 8 _ l) (crc_bits-lt 8 _ l') h) in
      xor_cancel b b' crc (bit_xor_comm b crc ∙ same ∙ bit_xor_comm crc b')
  serial-detects (a ∷ front) back crc b b' hf hk hc hb hb' h =
      let byte = hf.0 in
      let l = bit_xor-lt 32 crc a hc (omega arith) in
      serial-detects front back _ b b' hf.1 hk (crc_bits-lt 8 _ l) hb hb' h
