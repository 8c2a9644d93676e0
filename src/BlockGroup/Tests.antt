-- ===== src/BlockGroup/Tests.antt =====
-- The theorems on descriptor fields at a descriptor of 32 bytes.
use initramfstool.BlockGroup.{Bgroup}

abbrev pub group0 : Bgroup
group0 = record {
  block_bitmap_lo = 100;
  inode_bitmap_lo = 101;
  inode_table_first_block_lo = 102;
  free_blocks_count_lo = 5;
  free_inodes_count_lo = 6;
  used_dirs_count_lo = 1;
  flags = 0;
  block_bitmap_csum_lo = 0;
  inode_bitmap_csum_lo = 0;
  itable_unused_lo = 0;
  checksum = 0;
  block_bitmap_hi = 0;
  inode_bitmap_hi = 0;
  inode_table_first_block_hi = 0;
  free_blocks_count_hi = 0;
  free_inodes_count_hi = 0;
  used_dirs_count_hi = 0;
  itable_unused_hi = 0;
  block_bitmap_csum_hi = 0;
  inode_bitmap_csum_hi = 0;
}
