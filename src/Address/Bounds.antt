-- ===== src/Address/Bounds.antt =====
-- Do the addresses of a group's blocks lie on the disk?
use initramfstool.Base.{ℕ, ◌+◌, ◌-◌, ◌*◌, ◌^◌, ◌<◌, ◌≤◌, ◌≡◌, ◌≢◌, arith, ap, ◌==◌, if◌then◌else◌}
use initramfstool.Super.{Sblock, get_blocks_cnt, block_group_cnt, blocks_in_group_cnt}
use initramfstool.Super.Groups.{IsSized, block_group_cnt_bounds, blocks_in_group_cnt_lem}
use initramfstool.Address.{bg_idx_to_addr}

le_product : (p a b : ℕ) → a ≤ b → p * a ≤ b * p
le_product p a b h = grind arith

module _ (s : Sblock) (v : IsSized s) (small : get_blocks_cnt s + 1 < 2 ^ 32) where
  group_end :
      (bgid : ℕ)
      → bgid < block_group_cnt s
      → s.blocks_per_group * bgid + blocks_in_group_cnt s bgid ≤ get_blocks_cnt s
  group_end bgid h =
      let p = s.blocks_per_group in
      let n = block_group_cnt s in
      let last : p * bgid ≤ (n - 1) * p = le_product p bgid (n - 1) (omega arith) in
      ground (
        arith,
        blocks_in_group_cnt_lem s v bgid h,
        block_group_cnt_bounds s v,
        last,
        λ (q : bgid + 1 ≤ n - 1). le_product p (bgid + 1) (n - 1) q,
        λ (q : bgid ≡ n - 1). ap (λ (t : ℕ). t * p) q,
      )

  -- On a disk of fewer than 2 ^ 32 - 1 blocks, the address of each block that the code counts in a
  -- group lies on the disk if the first data block is 0, and if not at most one block past the end.
  bg_idx_to_addr-lt :
      (bgid index : ℕ)
      → bgid < block_group_cnt s
      → index < blocks_in_group_cnt s bgid
      → bg_idx_to_addr s index bgid < get_blocks_cnt s + (if s.first_data_block == 0 then 0 else 1)
  unfolding bg_idx_to_addr
  bg_idx_to_addr-lt bgid index h i = ground (arith, group_end bgid h)

  -- On a disk of fewer than 2 ^ 32 - 1 blocks whose first data block is not 0, the last block that the
  -- code counts in the last group has the address `blocks_cnt`, one past the end of the disk. There are
  -- some blocks, groups have some blocks, in 32 bits, and 32 bits count the groups.
  pub bg_idx_to_addr-past_end :
      s.first_data_block ≢ 0
      → let last = block_group_cnt s - 1 in
        bg_idx_to_addr s (blocks_in_group_cnt s last - 1) last ≡ get_blocks_cnt s
  unfolding bg_idx_to_addr
  bg_idx_to_addr-past_end first =
      let last = block_group_cnt s - 1 in
      let below : last < block_group_cnt s = omega (arith, block_group_cnt_bounds s v) in
      ground (arith, blocks_in_group_cnt_lem s v last below, block_group_cnt_bounds s v)
