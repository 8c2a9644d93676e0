-- ===== src/Crc/Serial.antt =====
-- The table-driven checksums against the definition of a CRC, one bit at a time.
use initramfstool.Base.{
  ℕ, zero, suc, ◌+◌, ◌*◌, ◌/◌, ◌%◌, ◌^◌, ◌<◌, ◌≡◌, refl, sym, ap, ◌∙◌, arith, bit_and, bit_xor,
  List, [], ◌∷◌, ◌==◌, ==_iff, if◌then◌else◌, true, ltb, ltb→lt, get_or, IsBytes, all_below,
  all_below_at, bit_xor_assoc, bit_xor_comm, half-bit_xor, odd-bit_xor, bit_xor-disjoint,
  bit_xor-lt, bit_and-mask,
}
use native.Mathlib.Nat.{pow-suc}
use initramfstool.Crc.{crc32_with, crc32, crc32c, crc16}
use initramfstool.Crc.Tables.{crc32_tab, crc32c_tab, crc16_tab}

-- A shift right by one bit; the polynomial is taken off when a one falls out.
unfoldable pub crc_bit : ℕ → ℕ → ℕ
crc_bit poly c = if c % 2 == 1 then bit_xor (c / 2) poly else c / 2

unfoldable pub crc_bits : ℕ → ℕ → ℕ → ℕ
crc_bits poly zero c = c
crc_bits poly (suc n) c = crc_bits poly n (crc_bit poly c)

-- The CRC of a buffer: each byte is added to the low end, and eight bits are shifted out.
unfoldable pub serial : ℕ → ℕ → List ℕ → ℕ
serial poly crc [] = crc
serial poly crc (b ∷ buf) = serial poly (crc_bits poly 8 (bit_xor crc b)) buf

module _ (poly : ℕ) where
  crc_bit-shifted : (h m : ℕ) → crc_bit poly (bit_xor (h * 2) m) ≡ bit_xor h (crc_bit poly m)
  unfolding crc_bit
  crc_bit-shifted h m =
      let half : bit_xor (h * 2) m / 2 ≡ bit_xor h (m / 2) =
        half-bit_xor (h * 2) m ∙ ap (λ t. bit_xor t (m / 2)) (omega arith) in
      let odd : bit_xor (h * 2) m % 2 ≡ m % 2 = omega (arith, odd-bit_xor (h * 2) m) in
      rw (half, odd) (ground (arith, bit_xor_assoc h (m / 2) poly))

  -- A field above the `k` bits that are shifted out comes down unchanged.
  crc_bits-shifted :
      (k h l : ℕ) → crc_bits poly k (bit_xor (h * 2 ^ k) l) ≡ bit_xor h (crc_bits poly k l)
  unfolding crc_bits
  crc_bits-shifted zero h l = ap (λ t. bit_xor t l) (omega arith)
  crc_bits-shifted (suc k) h l =
      let e : h * 2 ^ suc k ≡ h * 2 ^ k * 2 = omega (arith, ap (λ (t : ℕ). h * t) (pow-suc 2 k)) in
      ap (λ t. crc_bits poly k (crc_bit poly (bit_xor t l))) e
      ∙ ap (crc_bits poly k) (crc_bit-shifted (h * 2 ^ k) l)
      ∙ crc_bits-shifted k h (crc_bit poly l)

  crc_byte : (c : ℕ) → crc_bits poly 8 c ≡ bit_xor (c / 2 ^ 8) (crc_bits poly 8 (c % 2 ^ 8))
  crc_byte c =
      let e : c ≡ bit_xor (c / 2 ^ 8 * 2 ^ 8) (c % 2 ^ 8) =
        omega (arith, bit_xor-disjoint 8 (c / 2 ^ 8) (c % 2 ^ 8) (omega arith)) in
      ap (crc_bits poly 8) e ∙ crc_bits-shifted 8 (c / 2 ^ 8) (c % 2 ^ 8)

-- Entry `x` of a table is what eight bits make of `x`.
abbrev IsTable : ℕ → List ℕ → Type 0
IsTable poly tab = all_below 256 (λ x. get_or tab x 0 == crc_bits poly 8 x) ≡ true

crc32_tab-IsTable : IsTable 0xedb88320 crc32_tab
unfolding all_below crc_bits crc_bit
crc32_tab-IsTable = refl

crc32c_tab-IsTable : IsTable 0x82f63b78 crc32c_tab
unfolding all_below crc_bits crc_bit
crc32c_tab-IsTable = refl

crc16_tab-IsTable : IsTable 0xa001 crc16_tab
unfolding all_below crc_bits crc_bit
crc16_tab-IsTable = refl

module _ (poly : ℕ) (tab : List ℕ) (table : IsTable poly tab) where
  entry : (x : ℕ) → x < 256 → get_or tab x 0 ≡ crc_bits poly 8 x
  entry x h = (==_iff _ _).0 (all_below_at 256 _ x table h)

  high : (crc b : ℕ) → b < 256 → bit_xor crc b / 2 ^ 8 ≡ crc / 2 ^ 8
  high crc b h =
      let low = bit_xor (crc % 2 ^ 8) b in
      let small : low < 2 ^ 8 = bit_xor-lt 8 (crc % 2 ^ 8) b (omega arith) h in
      let e : crc ≡ bit_xor (crc / 2 ^ 8 * 2 ^ 8) (crc % 2 ^ 8) =
        omega (arith, bit_xor-disjoint 8 (crc / 2 ^ 8) (crc % 2 ^ 8) (omega arith)) in
      let f : bit_xor crc b ≡ crc / 2 ^ 8 * 2 ^ 8 + low =
        ap (λ t. bit_xor t b) e
        ∙ bit_xor_assoc (crc / 2 ^ 8 * 2 ^ 8) (crc % 2 ^ 8) b
        ∙ bit_xor-disjoint 8 (crc / 2 ^ 8) low small in
      omega arith

  -- One round of the table loop is eight rounds of the serial one.
  round :
      (crc b : ℕ)
      → b < 256
      → bit_xor (get_or tab (bit_and (bit_xor crc b) 0xff) 0) (crc / 2 ^ 8)
        ≡ crc_bits poly 8 (bit_xor crc b)
  round crc b h =
      let c = bit_xor crc b in
      ap (λ t. bit_xor (get_or tab t 0) (crc / 2 ^ 8)) (bit_and-mask 8 c)
      ∙ ap (λ t. bit_xor t (crc / 2 ^ 8)) (entry (c % 2 ^ 8) (omega arith))
      ∙ bit_xor_comm (crc_bits poly 8 (c % 2 ^ 8)) (crc / 2 ^ 8)
      ∙ ap (λ t. bit_xor t (crc_bits poly 8 (c % 2 ^ 8))) (sym (high crc b h))
      ∙ sym (crc_byte poly c)

  crc32_with-serial :
      (crc : ℕ) (buf : List ℕ) → IsBytes buf → crc32_with tab crc buf ≡ serial poly crc buf
  unfolding crc32_with serial
  crc32_with-serial crc [] h = refl
  crc32_with-serial crc (b ∷ buf) h =
      ap (λ t. crc32_with tab t buf) (round crc b h.0)
      ∙ crc32_with-serial (crc_bits poly 8 (bit_xor crc b)) buf h.1

-- `ext4_crc32` is the serial CRC of the polynomial 0xedb88320, and `ext4_crc32c` that of 0x82f63b78,
-- of every buffer of bytes and from every start value.
pub crc32-serial :
    (crc : ℕ) (buf : List ℕ)
    → IsBytes buf
    → (crc32 crc buf ≡ serial 0xedb88320 crc buf) × (crc32c crc buf ≡ serial 0x82f63b78 crc buf)
unfolding crc32 crc32c
crc32-serial crc buf h = (
  crc32_with-serial 0xedb88320 crc32_tab crc32_tab-IsTable crc buf h,
  crc32_with-serial 0x82f63b78 crc32c_tab crc32c_tab-IsTable crc buf h,
)

crc16_tab_entries : all_below 256 (λ x. ltb (get_or crc16_tab x 0) (2 ^ 16)) ≡ true
unfolding all_below
crc16_tab_entries = refl

crc16_tab-lt : (x : ℕ) → x < 256 → get_or crc16_tab x 0 < 2 ^ 16
crc16_tab-lt x h = ltb→lt _ _ (all_below_at 256 _ x crc16_tab_entries h)

-- The masks of the 16-bit loop take nothing off.
round16 :
    (crc b : ℕ)
    → crc < 2 ^ 16
    → b < 256
    → let e = get_or crc16_tab (bit_and (bit_xor crc b) 0xff) 0 in
      (bit_and (bit_xor (bit_and (crc / 2 ^ 8) 0xff) e) 0xffff ≡ crc_bits 0xa001 8 (bit_xor crc b))
      × (crc_bits 0xa001 8 (bit_xor crc b) < 2 ^ 16)
round16 crc b h hb = (whole, rw (← same_round) fits)
  where
    e : ℕ
    e = get_or crc16_tab (bit_and (bit_xor crc b) 0xff) 0

    e-lt : e < 2 ^ 16
    e-lt =
        crc16_tab-lt (bit_and (bit_xor crc b) 0xff)
          (rw (bit_and-mask 8 (bit_xor crc b)) (omega arith))

    fits : bit_xor e (crc / 2 ^ 8) < 2 ^ 16
    fits = bit_xor-lt 16 e (crc / 2 ^ 8) e-lt (omega arith)

    same_round : bit_xor e (crc / 2 ^ 8) ≡ crc_bits 0xa001 8 (bit_xor crc b)
    same_round = round 0xa001 crc16_tab crc16_tab-IsTable crc b hb

    low : bit_and (crc / 2 ^ 8) 0xff ≡ crc / 2 ^ 8
    low = bit_and-mask 8 (crc / 2 ^ 8) ∙ omega arith

    whole :
        bit_and (bit_xor (bit_and (crc / 2 ^ 8) 0xff) e) 0xffff ≡ crc_bits 0xa001 8 (bit_xor crc b)
    whole =
        ap (λ t. bit_and (bit_xor t e) 0xffff) low
        ∙ ap (λ t. bit_and t 0xffff) (bit_xor_comm (crc / 2 ^ 8) e)
        ∙ bit_and-mask 16 (bit_xor e (crc / 2 ^ 8))
        ∙ omega (arith, fits)
        ∙ same_round

-- `ext4_bg_crc16` is the serial CRC of the polynomial 0xa001, of every buffer of bytes and from every
-- start value of 16 bits.
crc16-serial :
    (crc : ℕ) (buf : List ℕ) → crc < 2 ^ 16 → IsBytes buf → crc16 crc buf ≡ serial 0xa001 crc buf
unfolding crc16 serial
crc16-serial crc [] h bytes = refl
crc16-serial crc (b ∷ buf) h bytes =
    ap (λ t. crc16 t buf) (round16 crc b h bytes.0).0
    ∙ crc16-serial (crc_bits 0xa001 8 (bit_xor crc b)) buf (round16 crc b h bytes.0).1 bytes.1
