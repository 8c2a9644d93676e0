-- ===== src/Super/Groups.antt =====
-- The block groups cover the disk.
use initramfstool.Base.{
  ℕ, zero, suc, ◌+◌, ◌-◌, ◌*◌, ◌/◌, ◌^◌, ◌<◌, ◌≤◌, ◌≡◌, arith, u32, u64, ◌==◌, if◌then◌else◌,
}
use initramfstool.Super.{Sblock, sub32, get_blocks_cnt, block_group_cnt, blocks_in_group_cnt}

-- A superblock that `ext4_sb_check` lets through, on a disk whose groups a `uint32_t` can count.
pub record IsSized (s : Sblock) : Type 0 where
  pub some_blocks : 0 < get_blocks_cnt s
  pub some_per_group : 0 < s.blocks_per_group
  pub per_group_fits : s.blocks_per_group < 2 ^ 32
  pub blocks_fit : get_blocks_cnt s < 2 ^ 64
  pub groups_fit : get_blocks_cnt s / s.blocks_per_group + 1 < 2 ^ 32

-- The number of groups is the number of blocks over the size of a group, rounded up.
pub block_group_cnt_bounds :
    (s : Sblock)
    → IsSized s
    → (0 < block_group_cnt s)
      × (get_blocks_cnt s ≤ block_group_cnt s * s.blocks_per_group)
      × ((block_group_cnt s - 1) * s.blocks_per_group < get_blocks_cnt s)
      × (block_group_cnt s < 2 ^ 32)
unfolding block_group_cnt
block_group_cnt_bounds s v = (grind arith, grind arith, grind arith, grind arith)

-- The truncations to 32 bits in the size of the last group cancel out.
last_size :
    (total part : ℕ)
    → part ≤ total
    → total < 2 ^ 64
    → total - part < 2 ^ 32
    → u32 (u64 (total + 2 ^ 64 - u32 part)) ≡ total - part
last_size total part h fits small = omega arith

module _ (s : Sblock) (v : IsSized s) where
  before_last : sub32 (block_group_cnt s) 1 ≡ block_group_cnt s - 1
  before_last = omega (arith, block_group_cnt_bounds s v)

  -- Every group but the last has `blocks_per_group` blocks, and the last has the rest.
  pub blocks_in_group_cnt_lem :
      (bgid : ℕ)
      → bgid < block_group_cnt s
      → blocks_in_group_cnt s bgid ≡ (
          if bgid == block_group_cnt s - 1
          then get_blocks_cnt s - (block_group_cnt s - 1) * s.blocks_per_group
          else s.blocks_per_group)
  unfolding blocks_in_group_cnt
  blocks_in_group_cnt_lem bgid h =
      let total = get_blocks_cnt s in
      let part = (block_group_cnt s - 1) * s.blocks_per_group in
      let whole : block_group_cnt s * s.blocks_per_group ≡ part + s.blocks_per_group =
        grind (arith, block_group_cnt_bounds s v) in
      rw before_last (
        ground (
          arith,
          block_group_cnt_bounds s v,
          last_size total part,
          v.blocks_fit,
          whole,
          v.per_group_fits,
        ))

  -- A group is not empty, and not larger than `blocks_per_group`.
  blocks_in_group_cnt_bounds :
      (bgid : ℕ)
      → bgid < block_group_cnt s
      → (0 < blocks_in_group_cnt s bgid) × (blocks_in_group_cnt s bgid ≤ s.blocks_per_group)
  blocks_in_group_cnt_bounds bgid h =
      let whole : block_group_cnt s * s.blocks_per_group
          ≡ (block_group_cnt s - 1) * s.blocks_per_group + s.blocks_per_group =
        grind (arith, block_group_cnt_bounds s v) in
      ground
        (arith, blocks_in_group_cnt_lem bgid h, block_group_cnt_bounds s v, v.some_per_group, whole)

-- The blocks of the first `n` groups.
abbrev pub sum_groups : Sblock → ℕ → ℕ
sum_groups s zero = 0
sum_groups s (suc n) = sum_groups s n + blocks_in_group_cnt s n

sum_before_last :
    (s : Sblock)
    → IsSized s
    → (n : ℕ) → n < block_group_cnt s
    → sum_groups s n ≡ n * s.blocks_per_group
sum_before_last s v zero h = omega arith
sum_before_last s v (suc n) h = ground (arith, sum_before_last s v n, blocks_in_group_cnt_lem s v n)

-- The sizes of the groups add up to the blocks of the disk, for a superblock with blocks in it and a
-- disk of fewer than 2 ^ 32 groups.
pub sum_groups-eq-blocks_cnt :
    (s : Sblock) → IsSized s → sum_groups s (block_group_cnt s) ≡ get_blocks_cnt s
sum_groups-eq-blocks_cnt s v =
    let n = block_group_cnt s - 1 in
    let e : block_group_cnt s ≡ suc n = omega (arith, block_group_cnt_bounds s v) in
    rw e (
      ground
        (arith, sum_before_last s v n, blocks_in_group_cnt_lem s v n, block_group_cnt_bounds s v))
