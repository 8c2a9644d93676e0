-- ===== src/Address/Tests.antt =====
-- The theorems on addresses at small file systems.
use initramfstool.Base.{◌+◌, ◌-◌, ◌^◌, ◌≡◌, inl, refl, arith, u32}
use initramfstool.Super.{Sblock, get_blocks_cnt, block_group_cnt, blocks_in_group_cnt}
use initramfstool.Super.Groups.{IsSized}
use initramfstool.Super.Tests.{disk}
use initramfstool.Address.{bgid_of_block, addr_to_idx_bg, bg_idx_to_addr}
use initramfstool.Address.Laws.{bg_idx_to_addr-of_block}
use initramfstool.Address.Bounds.{bg_idx_to_addr-past_end}

-- 1 KiB blocks: the first data block is 1.
abbrev floppy : Sblock
floppy = record disk { first_data_block = 1; blocks_count_lo = 10000; blocks_per_group = 8192 }

-- Block 2 ^ 32 + 5 comes back as block 5.
bg_idx_to_addr-of_block_example :
    bg_idx_to_addr disk (addr_to_idx_bg disk (2 ^ 32 + 5)) (bgid_of_block disk (2 ^ 32 + 5))
    ≡ u32 (2 ^ 32 + 5)
bg_idx_to_addr-of_block_example =
    bg_idx_to_addr-of_block disk (2 ^ 32 + 5) (omega arith) (omega arith) (inl refl) (omega arith)

floppy_blocks : get_blocks_cnt floppy ≡ 10000
unfolding get_blocks_cnt
floppy_blocks = refl

floppy-IsSized : IsSized floppy
floppy-IsSized = record {
  some_blocks = omega (arith, floppy_blocks);
  some_per_group = omega arith;
  per_group_fits = omega arith;
  blocks_fit = omega (arith, floppy_blocks);
  groups_fit = omega (arith, floppy_blocks);
}

floppy_groups : (block_group_cnt floppy ≡ 2) × (blocks_in_group_cnt floppy 1 ≡ 1808)
unfolding block_group_cnt blocks_in_group_cnt get_blocks_cnt
floppy_groups = (refl, refl)

bg_idx_to_addr-past_end_example :
    let last = block_group_cnt floppy - 1 in
    bg_idx_to_addr floppy (blocks_in_group_cnt floppy last - 1) last ≡ get_blocks_cnt floppy
bg_idx_to_addr-past_end_example =
    bg_idx_to_addr-past_end floppy floppy-IsSized (omega (arith, floppy_blocks)) (omega arith)
