-- ===== src/Bitmap/Find.antt =====
-- `ext4_bmap_bit_find_clr`: the first clear bit of a range, and what it returns when the range
-- does not start at a byte.
use initramfstool.Base.{
  ℕ, zero, suc, ◌+◌, ◌-◌, ◌*◌, ◌/◌, ◌%◌, ◌^◌, ◌<◌, ◌≤◌, ◌≡◌, Bool-cases, inl, inr, ==_iff, ap, ◌≢◌,
  true, false, List, Option, some, none, ◌==◌, if◌then◌else◌, arith, get_or, u32, byte_bit-ones,
}
use native.Mathlib.Decide.{dec_lt, ℕ_discrete}
use native.Mathlib.Nat.{add-zero}
use initramfstool.Bitmap.{
  is_bit_set, is_bit_clr, found, find_head, find_bit, find_bytes, offset, find_aligned,
  bit_find_clr,
}
use initramfstool.Bitmap.Laws.{IsMap}

-- A search of `[lo, hi)` is right if it gives the first clear bit of the range, or `none` when
-- every bit of it is set.
abbrev pub IsFirstClr : List ℕ → ℕ → ℕ → Option ℕ → Type 0
IsFirstClr bmap lo hi none = (j : ℕ) → lo ≤ j → j < hi → is_bit_set bmap j ≡ true
IsFirstClr bmap lo hi (some b) =
    (lo ≤ b)
    × (b < hi)
    × (is_bit_set bmap b ≡ false)
    × ((j : ℕ) → lo ≤ j → j < b → is_bit_set bmap j ≡ true)

IsFirstClr-skip :
    (bmap : List ℕ) (lo mid hi : ℕ) (rest : Option ℕ)
    → lo ≤ mid
    → ((j : ℕ) → lo ≤ j → j < mid → is_bit_set bmap j ≡ true)
    → IsFirstClr bmap mid hi rest
    → IsFirstClr bmap lo hi rest
IsFirstClr-skip bmap lo mid hi none le set_bits r = λ j p q. elim (dec_lt j mid) [
  | yes before ↦ set_bits j p before
  | no after ↦ r j (omega arith) q
]
IsFirstClr-skip bmap lo mid hi (some b) le set_bits r = (
  omega arith,
  r.1,
  r.2,
  λ j p q. elim (dec_lt j mid) [
    | yes before ↦ set_bits j p before
    | no after ↦ r.3 j (omega arith) q
  ],
)

-- One bit looked at: it is returned if it is clear, and the search goes on if it is set.
pub IsFirstClr-step :
    (bmap : List ℕ) (i hi : ℕ) (rest : Option ℕ)
    → i < hi
    → IsFirstClr bmap (suc i) hi rest
    → IsFirstClr bmap i hi (if is_bit_clr bmap i then some i else rest)
unfolding is_bit_clr
IsFirstClr-step bmap i hi rest h r = elim (Bool-cases (is_bit_set bmap i)) [
  | inl is_set ↦ rw is_set (IsFirstClr-skip bmap i (suc i) hi rest (omega arith) (one is_set) r)
  | inr clear ↦ rw clear (omega arith, h, clear, λ j p q. absurd (omega arith))
]
  where
    one : is_bit_set bmap i ≡ true → (j : ℕ) → i ≤ j → j < suc i → is_bit_set bmap j ≡ true
    one is_set j p q = let e : j ≡ i = omega arith in rw e is_set

-- The search of `left` bits of a byte from its bit `i`, moved to absolute bit numbers.
find_bit-IsFirstClr :
    (bmap : List ℕ) (base i left : ℕ) (rest : Option ℕ) (hi mid : ℕ)
    → mid ≡ base * 8 + i + left
    → mid ≤ hi
    → hi < 2 ^ 32
    → IsFirstClr bmap mid hi rest
    → IsFirstClr bmap (base * 8 + i) hi (offset (base * 8) (find_bit bmap base i left) rest)
unfolding find_bit offset
find_bit-IsFirstClr bmap base i zero rest hi mid e h w r =
    let e' : base * 8 + i ≡ mid = omega arith in rw e' r
find_bit-IsFirstClr bmap base i (suc left) rest hi mid e h w r = rw moved (
    IsFirstClr-step bmap (base * 8 + i) hi later (omega arith) (
      rw (suc_in base i)
        (find_bit-IsFirstClr bmap base (i + 1) left rest hi mid (omega arith) h w r)))
  where
    later : Option ℕ
    later = offset (base * 8) (find_bit bmap base (i + 1) left) rest

    suc_in : (b k : ℕ) → suc (b * 8 + k) ≡ b * 8 + (k + 1)
    suc_in b k = omega arith

    moved :
        offset (base * 8) (find_bit bmap base i (suc left)) rest
        ≡ (if is_bit_clr bmap (base * 8 + i) then some (base * 8 + i) else later)
    moved = ground arith

byte_set :
    (bmap : List ℕ) (base j : ℕ)
    → get_or bmap base 0 ≡ 255
    → base * 8 ≤ j
    → j < base * 8 + 8
    → is_bit_set bmap j ≡ true
unfolding is_bit_set
byte_set bmap base j e p q =
    let k : j / 8 ≡ base = omega arith in rw (k, e) (byte_bit-ones (j % 8) (omega arith))

find_bytes-IsFirstClr :
    (bmap : List ℕ) (base sbit rounds left hi : ℕ)
    → sbit ≡ base * 8
    → hi ≡ sbit + 8 * rounds + left
    → hi < 2 ^ 32
    → IsFirstClr bmap sbit hi (find_bytes bmap base sbit rounds left)
unfolding find_bytes
find_bytes-IsFirstClr bmap base sbit zero left hi e f w = rw e (
    rw add-zero at (
      find_bit-IsFirstClr bmap base 0 left none hi hi (omega arith) (omega arith) w
        (λ j p q. absurd (omega arith))))
find_bytes-IsFirstClr bmap base sbit (suc rounds) left hi e f w =
    let next : u32 (sbit + 8) ≡ sbit + 8 = omega arith in
    let rest =
      find_bytes-IsFirstClr bmap (base + 1) (u32 (sbit + 8)) rounds left hi (omega arith)
        (omega arith) w in
    elim (Bool-cases (get_or bmap base 0 == 255)) [
      | inl full ↦ rw full (
          IsFirstClr-skip bmap sbit (u32 (sbit + 8)) hi _ (omega arith)
            (λ j p q. byte_set bmap base j ((==_iff _ _).0 full) (omega arith) (omega arith)) rest)
      | inr room ↦
          rw (room, e)
            (rw add-zero at (
              find_bit-IsFirstClr bmap base 0 8 _ hi (u32 (base * 8 + 8)) (omega arith)
                (omega arith) w (rw e at rest)))
    ]

abbrev pub next8 : ℕ → ℕ
next8 s = (s + 7) / 8 * 8

-- The bits before the next byte boundary are all set, as are none of them for an aligned start.
abbrev pub HeadSet : List ℕ → ℕ → ℕ → Type 0
HeadSet bmap lo hi = (j : ℕ) → lo ≤ j → j < hi → j < next8 lo → is_bit_set bmap j ≡ true

find_head-IsFirstClr :
    (bmap : List ℕ) (sbit i bcnt hi : ℕ)
    → hi ≡ i + bcnt
    → hi < 2 ^ 32
    → HeadSet bmap i hi
    → IsFirstClr bmap i hi (find_aligned bmap (find_head bmap sbit i bcnt))
unfolding find_head find_aligned is_bit_clr
find_head-IsFirstClr bmap sbit i zero hi e w h = elim (Bool-cases (i % 8 == 0)) [
  | inl a ↦ rw a (find_bytes-IsFirstClr bmap (i / 8) i 0 0 hi (ground arith) (omega arith) w)
  | inr u ↦ rw u (λ j p q. absurd (omega arith))
]
find_head-IsFirstClr bmap sbit i (suc bcnt) hi e w h = elim (Bool-cases (i % 8 == 0)) [
  | inl a ↦ rw a (
      find_bytes-IsFirstClr bmap (i / 8) i (suc bcnt / 8) (suc bcnt % 8) hi (ground arith)
        (omega arith) w)
  | inr u ↦
      rw (u, h i (omega arith) (omega arith) (ground arith))
        (IsFirstClr-skip bmap i (u32 (i + 1)) hi _ (omega arith)
          (λ j p q. h j p (omega arith) (ground arith))
          (find_head-IsFirstClr bmap sbit (u32 (i + 1)) bcnt hi (omega arith) w
            (λ j p q n. h j (omega arith) q (ground arith))))
]

-- The head stops at a bit before the boundary that is clear: it reports `sbit`, whichever bit it is.
find_head-found :
    (bmap : List ℕ) (sbit i bcnt j : ℕ)
    → i + bcnt < 2 ^ 32
    → i ≤ j
    → j < i + bcnt
    → j < next8 i
    → is_bit_set bmap j ≡ false
    → find_head bmap sbit i bcnt ≡ found sbit
unfolding find_head is_bit_clr
find_head-found bmap sbit i zero j w p q n clear = absurd (omega arith)
find_head-found bmap sbit i (suc bcnt) j w p q n clear = elim (ℕ_discrete i j) [
  | yes here ↦ ground (arith, ap (is_bit_set bmap) here)
  | no before ↦
      let next : u32 (i + 1) ≡ i + 1 = omega arith in
      let unaligned : i % 8 ≢ 0 = omega arith in
      ground (
        arith,
        find_head-found bmap sbit (u32 (i + 1)) bcnt j (omega arith) (omega arith) (omega arith)
            (omega arith) clear,
      )
]

-- The search of `[sbit, ebit)` gives the first clear bit, or ENOSPC when every bit is set, if the
-- bits from `sbit` to the next byte boundary are set or `sbit` is itself a multiple of 8.
-- The range is not reversed, lies in the map, and ends below 2 ^ 32.
pub bit_find_clr-IsFirstClr :
    {bits : ℕ} (bmap : List ℕ) (sbit ebit : ℕ)
    → IsMap bmap bits
    → ebit ≤ bits
    → sbit ≤ ebit
    → ebit < 2 ^ 32
    → HeadSet bmap sbit ebit
    → IsFirstClr bmap sbit ebit (bit_find_clr bmap sbit ebit)
unfolding bit_find_clr
bit_find_clr-IsFirstClr bmap sbit ebit v room le w h =
    find_head-IsFirstClr bmap sbit sbit _ ebit (omega arith) w h

-- Where `sbit` is set and a later bit before the next byte boundary is clear, the search reports `sbit`,
-- which is in use. The range lies in the map and ends below 2 ^ 32.
pub bit_find_clr-unaligned :
    {bits : ℕ} (bmap : List ℕ) (sbit ebit j : ℕ)
    → IsMap bmap bits
    → ebit ≤ bits
    → ebit < 2 ^ 32
    → sbit < j
    → j < ebit
    → j < next8 sbit
    → is_bit_set bmap sbit ≡ true
    → is_bit_set bmap j ≡ false
    → (b : ℕ) × (bit_find_clr bmap sbit ebit ≡ some b) × (b ≡ sbit) × (is_bit_set bmap b ≡ true)
unfolding bit_find_clr find_aligned
bit_find_clr-unaligned bmap sbit ebit j v room w p q n is_set clear = (
  sbit,
  rw (
      find_head-found bmap sbit sbit (u32 (ebit + 2 ^ 32 - sbit)) j (omega arith) (omega arith)
        (omega arith) n clear),
  (λ i. sbit),
  is_set,
)
