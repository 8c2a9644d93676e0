-- ===== src/Bitmap/Free.antt =====
-- `ext4_bmap_bits_free` clears a range of bits, whatever its alignment.
use initramfstool.Base.{
  ℕ, zero, suc, ◌+◌, ◌*◌, ◌/◌, ◌%◌, ◌^◌, ◌<◌, ◌≤◌, ◌≡◌, refl, Bool, not, ◌&&◌, List, leb, ltb,
  arith, set, u32,
}
use initramfstool.Bitmap.{
  bit_clr, is_bit_set, stopped, aligned, free_head, free_bytes, free_tail, free_aligned, bits_free,
}
use initramfstool.Bitmap.Laws.{
  IsMap, is_bit_set-bit_clr, is_bit_set-zero, bit_clr-IsMap, zero-IsMap,
}

-- `lo ≤ j < hi`.
abbrev pub within : ℕ → ℕ → ℕ → Bool
within lo hi j = leb lo j && ltb j hi

free_tail-is_bit_set :
    {bits : ℕ} (bmap : List ℕ) (base i left j : ℕ)
    → IsMap bmap bits
    → base * 8 + i + left ≤ bits
    → is_bit_set (free_tail bmap base i left) j
      ≡ not (within (base * 8 + i) (base * 8 + i + left) j) && is_bit_set bmap j
unfolding free_tail
free_tail-is_bit_set bmap base i zero j v h = ground arith
free_tail-is_bit_set bmap base i (suc left) j v h = ground (
  arith,
  free_tail-is_bit_set (bit_clr bmap (base * 8 + i)) base (i + 1) left j (bit_clr-IsMap _ v),
  is_bit_set-bit_clr bmap (base * 8 + i) j v.bytes,
  v.room,
)

free_tail-IsMap :
    {bits : ℕ} (bmap : List ℕ) (base i left : ℕ)
    → IsMap bmap bits
    → IsMap (free_tail bmap base i left) bits
unfolding free_tail
free_tail-IsMap bmap base i zero v = v
free_tail-IsMap bmap base i (suc left) v =
    free_tail-IsMap (bit_clr bmap (base * 8 + i)) base (i + 1) left (bit_clr-IsMap _ v)

free_bytes-is_bit_set :
    {bits : ℕ} (bmap : List ℕ) (base rounds j : ℕ)
    → IsMap bmap bits
    → base * 8 + 8 * rounds ≤ bits
    → is_bit_set (free_bytes bmap base rounds) j
      ≡ not (within (base * 8) (base * 8 + 8 * rounds) j) && is_bit_set bmap j
unfolding free_bytes
free_bytes-is_bit_set bmap base zero j v h = ground arith
free_bytes-is_bit_set bmap base (suc rounds) j v h = ground (
  arith,
  free_bytes-is_bit_set (set bmap base 0) (base + 1) rounds j (zero-IsMap _ v),
  is_bit_set-zero bmap base j,
  v.room,
)

free_bytes-IsMap :
    {bits : ℕ} (bmap : List ℕ) (base rounds : ℕ)
    → IsMap bmap bits
    → IsMap (free_bytes bmap base rounds) bits
unfolding free_bytes
free_bytes-IsMap bmap base zero v = v
free_bytes-IsMap bmap base (suc rounds) v =
    free_bytes-IsMap (set bmap base 0) (base + 1) rounds (zero-IsMap _ v)

-- The part after the head, once the start is a multiple of 8.
free_aligned-is_bit_set :
    {bits : ℕ} (bmap : List ℕ) (i bcnt j : ℕ)
    → IsMap bmap bits
    → i % 8 ≡ 0
    → i + bcnt ≤ bits
    → is_bit_set (free_aligned (aligned bmap i bcnt)) j
      ≡ not (within i (i + bcnt) j) && is_bit_set bmap j
unfolding free_aligned
free_aligned-is_bit_set bmap i bcnt j v a h =
    let bytes = free_bytes bmap (i / 8) (bcnt / 8) in
    ground (
      arith,
      free_tail-is_bit_set bytes (i / 8 + bcnt / 8) 0 (bcnt % 8) j (free_bytes-IsMap _ _ _ v),
      free_bytes-is_bit_set bmap (i / 8) (bcnt / 8) j v,
    )

free_aligned-stopped : (bmap : List ℕ) → free_aligned (stopped bmap) ≡ bmap
unfolding free_aligned
free_aligned-stopped bmap = refl

free_head-is_bit_set :
    {bits : ℕ} (bmap : List ℕ) (i bcnt j : ℕ)
    → IsMap bmap bits
    → i + bcnt ≤ bits
    → i + bcnt < 2 ^ 32
    → is_bit_set (free_aligned (free_head bmap i bcnt)) j
      ≡ not (within i (i + bcnt) j) && is_bit_set bmap j
unfolding free_head
free_head-is_bit_set bmap i zero j v h w =
    ground (arith, free_aligned-is_bit_set bmap i 0 j v, free_aligned-stopped bmap)
free_head-is_bit_set bmap i (suc bcnt) j v h w =
    let next : u32 (i + 1) ≡ i + 1 = omega arith in
    ground (
      arith,
      next,
      free_aligned-is_bit_set bmap i (suc bcnt) j v,
      free_head-is_bit_set (bit_clr bmap i) (u32 (i + 1)) bcnt j (bit_clr-IsMap i v),
      is_bit_set-bit_clr bmap i j v.bytes,
      v.room,
    )

-- Freeing `bcnt` bits from `sbit` clears exactly those: each bit of the range reads clear after it,
-- and each bit outside the range reads as before. The range lies in the map and below 2 ^ 32.
pub bits_free-is_bit_set :
    {bits : ℕ} (bmap : List ℕ) (sbit bcnt j : ℕ)
    → IsMap bmap bits
    → sbit + bcnt ≤ bits
    → sbit + bcnt < 2 ^ 32
    → is_bit_set (bits_free bmap sbit bcnt) j
      ≡ not (within sbit (sbit + bcnt) j) && is_bit_set bmap j
unfolding bits_free
bits_free-is_bit_set bmap sbit bcnt j v h w = free_head-is_bit_set bmap sbit bcnt j v h w
