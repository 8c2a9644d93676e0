-- ===== src/Super/Fields.antt =====
-- The 64-bit counters of the superblock are kept in two halves.
use initramfstool.Base.{
  ℕ, ◌+◌, ◌*◌, ◌/◌, ◌^◌, ◌<◌, ◌≡◌, refl, arith, u32, u64, bit_or-disjoint, bit_or,
}
use initramfstool.Super.{
  Sblock, get_blocks_cnt, set_blocks_cnt, get_free_blocks_cnt, set_free_blocks_cnt, get_desc_size,
  feature_incom,
}

-- The halves, each below 2 ^ 32, make up the counter.
get_blocks_cnt-halves :
    (s : Sblock)
    → s.blocks_count_lo < 2 ^ 32
    → get_blocks_cnt s ≡ s.blocks_count_hi * 2 ^ 32 + s.blocks_count_lo
unfolding get_blocks_cnt
get_blocks_cnt-halves s h = bit_or-disjoint 32 s.blocks_count_hi s.blocks_count_lo h

halves :
    (cnt : ℕ) → bit_or (u32 (cnt / 2 ^ 32) * 2 ^ 32) (u32 (u64 (cnt * 2 ^ 32) / 2 ^ 32)) ≡ u64 cnt
halves cnt = omega (
  arith,
  bit_or-disjoint 32 (u32 (cnt / 2 ^ 32)) (u32 (u64 (cnt * 2 ^ 32) / 2 ^ 32)) (omega arith),
)

-- What is stored in a counter of blocks is read back, as a 64-bit number: the free blocks and the
-- blocks, each of which leaves the other alone.
pub get-set_blocks_cnt :
    (s : Sblock) (cnt : ℕ)
    → (get_free_blocks_cnt (set_free_blocks_cnt s cnt) ≡ u64 cnt)
      × (get_blocks_cnt (set_blocks_cnt s cnt) ≡ u64 cnt)
      × (get_blocks_cnt (set_free_blocks_cnt s cnt) ≡ get_blocks_cnt s)
      × (get_free_blocks_cnt (set_blocks_cnt s cnt) ≡ get_free_blocks_cnt s)
unfolding get_free_blocks_cnt set_free_blocks_cnt get_blocks_cnt set_blocks_cnt
get-set_blocks_cnt s cnt = (halves cnt, halves cnt, refl, refl)

-- The free blocks have no part in the size of descriptors.
pub get_desc_size-set_free_blocks_cnt :
    (s : Sblock) (cnt : ℕ) → get_desc_size (set_free_blocks_cnt s cnt) ≡ get_desc_size s
unfolding get_desc_size feature_incom set_free_blocks_cnt
get_desc_size-set_free_blocks_cnt s cnt = refl
