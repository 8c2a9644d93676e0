-- ===== src/Super/Tests.antt =====
-- Runs on the superblock of a small file system, and the theorems at it.
use initramfstool.Base.{◌==◌, if◌then◌else◌, ◌≤◌, ◌≡◌, ◌↔◌, ◌⊎◌, refl, arith, true, false, []}
use initramfstool.Super.{
  Sblock, get_blocks_cnt, get_block_size, get_desc_size, feature_incom, feature_ro_com,
  incom_meta_bg, block_group_cnt, blocks_in_group_cnt, is_power_of_loop, is_power_of, sparse,
  is_super_in_bg, num_gdb_nometa, num_gdb, num_base_meta, num_base_meta_clusters,
}
use initramfstool.Super.Groups.{IsSized, sum_groups, sum_groups-eq-blocks_cnt}
use initramfstool.Super.Sparse.{IsPower, sparse_iff}
use initramfstool.Super.Gdb.{dsc_per_block}
use initramfstool.Super.Csum.{sb_set_csum}
use initramfstool.Super.Layout.{sb_memory, put32_all, put16_all}
use initramfstool.Dir.Bytes.{Memory, put8, put16, put32, copy}

-- 70000 blocks of 4096 bytes in groups of 32768, and a backup superblock in group 1.
abbrev pub disk : Sblock
disk = record {
  inodes_count = 24576;
  blocks_count_lo = 70000;
  free_blocks_count_lo = 60000;
  free_inodes_count = 20000;
  first_data_block = 0;
  log_block_size = 2;
  log_cluster_size = 2;
  blocks_per_group = 32768;
  inodes_per_group = 8192;
  magic = 0xef53;
  minor_rev_level = 0;
  creator_os = 0;
  rev_level = 1;
  first_inode = 11;
  inode_size = 256;
  features_compatible = 0;
  features_incompatible = 0;
  features_read_only = 1;
  uuid = [];
  s_reserved_gdt_blocks = 2;
  desc_size = 32;
  first_meta_bg = 0;
  blocks_count_hi = 0;
  free_blocks_count_hi = 0;
  flags = 0;
  log_groups_per_flex = 0;
  checksum_type = 1;
  checksum = 0;
}

disk_runs :
    (block_group_cnt disk ≡ 3)
    × (blocks_in_group_cnt disk 2 ≡ 4464)
    × (sparse 9 ≡ true)
    × (sparse 15 ≡ false)
    × (num_base_meta disk 1 ≡ 4)
    × (num_base_meta_clusters disk 1 ≡ 1)
unfolding block_group_cnt blocks_in_group_cnt get_blocks_cnt sparse is_power_of is_power_of_loop
    num_base_meta num_base_meta_clusters num_gdb num_gdb_nometa is_super_in_bg feature_ro_com
    feature_incom get_block_size get_desc_size
disk_runs = (refl, refl, refl, refl, refl, refl)

blocks_cnt : get_blocks_cnt disk ≡ 70000
unfolding get_blocks_cnt
blocks_cnt = refl

disk-IsSized : IsSized disk
disk-IsSized = record {
  some_blocks = omega (arith, blocks_cnt);
  some_per_group = omega arith;
  per_group_fits = omega arith;
  blocks_fit = omega (arith, blocks_cnt);
  groups_fit = omega (arith, blocks_cnt);
}

sum_groups-eq-blocks_cnt_example : sum_groups disk (block_group_cnt disk) ≡ get_blocks_cnt disk
sum_groups-eq-blocks_cnt_example = sum_groups-eq-blocks_cnt disk disk-IsSized

sparse_iff_example : (sparse 25 ≡ true) ↔ (25 ≤ 1) ⊎ IsPower 25 7 ⊎ IsPower 25 5 ⊎ IsPower 25 3
sparse_iff_example = sparse_iff 25

disk_plain : feature_incom disk incom_meta_bg ≡ false
unfolding feature_incom
disk_plain = refl

disk_dsc : dsc_per_block disk ≡ 128
unfolding get_block_size get_desc_size
disk_dsc = refl

disk_groups : block_group_cnt disk ≡ 3
unfolding block_group_cnt get_blocks_cnt
disk_groups = refl

base_meta : num_base_meta disk 1 ≡ 4
unfolding block_group_cnt get_blocks_cnt sparse is_power_of is_power_of_loop num_base_meta num_gdb
    num_gdb_nometa is_super_in_bg feature_ro_com feature_incom get_block_size get_desc_size
base_meta = refl

block_size : get_block_size disk ≡ 4096
unfolding get_block_size
block_size = refl

-- With checksums, and with all the other fields zero, or a one at byte 500.
abbrev summed : Sblock
summed = record disk { features_read_only = 0x401 }

abbrev zeros : Memory
zeros x = 0

abbrev one_bit : Memory
one_bit x = if x == 500 then 1 else 0

abbrev sealed : Sblock
sealed = sb_set_csum zeros summed

-- The magic number and the low byte of the block size stand where the struct has them.
layout_runs :
    (sb_memory zeros disk 56 ≡ 0x53)
    × (sb_memory zeros disk 57 ≡ 0xef)
    × (sb_memory zeros disk 24 ≡ 2)
    × (sb_memory zeros disk 373 ≡ 1)
unfolding sb_memory put32_all put16_all put32 put16 put8 copy
layout_runs = (refl, refl, refl, refl)
