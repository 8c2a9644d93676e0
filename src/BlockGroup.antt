-- ===== src/BlockGroup.antt =====
-- The block group descriptor: SharpExt4/lwext4/include/ext4_block_group.h. `Bgroup` is
-- `struct ext4_bgroup` without the fields that no modelled code touches. A counter has a low and a
-- high half, and the high one is in use when descriptors are longer than 32 bytes.
pub mod Fields
pub mod Tests
use initramfstool.Base.{
  ℕ, ◌+◌, ◌-◌, ◌*◌, ◌/◌, ◌%◌, ◌^◌, bit_and, bit_or, Bool, not, ◌==◌, ltb, if◌then◌else◌, u16, u32,
}
use initramfstool.Super.{Sblock, get_desc_size, min_desc_size, test_mask}

pub record Bgroup : Type 0 where
  pub block_bitmap_lo : ℕ
  pub inode_bitmap_lo : ℕ
  pub inode_table_first_block_lo : ℕ
  pub free_blocks_count_lo : ℕ
  pub free_inodes_count_lo : ℕ
  pub used_dirs_count_lo : ℕ
  pub flags : ℕ
  pub block_bitmap_csum_lo : ℕ
  pub inode_bitmap_csum_lo : ℕ
  pub itable_unused_lo : ℕ
  pub checksum : ℕ
  pub block_bitmap_hi : ℕ
  pub inode_bitmap_hi : ℕ
  pub inode_table_first_block_hi : ℕ
  pub free_blocks_count_hi : ℕ
  pub free_inodes_count_hi : ℕ
  pub used_dirs_count_hi : ℕ
  pub itable_unused_hi : ℕ
  pub block_bitmap_csum_hi : ℕ
  pub inode_bitmap_csum_hi : ℕ

-- `ext4_sb_get_desc_size(s) > EXT4_MIN_BLOCK_GROUP_DESCRIPTOR_SIZE`
abbrev pub wide : Sblock → Bool
wide s = ltb min_desc_size (get_desc_size s)

-- `lo`, with `hi << shift` or-ed in for a wide descriptor.
abbrev pub join : Sblock → ℕ → ℕ → ℕ → ℕ
join s shift hi lo = if wide s then bit_or (hi * 2 ^ shift) lo else lo

-- `(cnt << 16) >> 16` on a `uint32_t`, kept in a `uint16_t`.
abbrev pub low16 : ℕ → ℕ
low16 cnt = u16 (u32 (cnt * 2 ^ 16) / 2 ^ 16)

abbrev pub high16 : Sblock → ℕ → ℕ → ℕ
high16 s cnt old = if wide s then u16 (cnt / 2 ^ 16) else old

abbrev pub high32 : Sblock → ℕ → ℕ → ℕ
high32 s blk old = if wide s then u32 (blk / 2 ^ 32) else old

unfoldable pub get_block_bitmap : Bgroup → Sblock → ℕ
get_block_bitmap bg s = join s 32 bg.block_bitmap_hi bg.block_bitmap_lo

pub set_block_bitmap : Bgroup → Sblock → ℕ → Bgroup
set_block_bitmap bg s blk = record bg {
  block_bitmap_lo = u32 blk;
  block_bitmap_hi = high32 s blk bg.block_bitmap_hi;
}

unfoldable pub get_inode_bitmap : Bgroup → Sblock → ℕ
get_inode_bitmap bg s = join s 32 bg.inode_bitmap_hi bg.inode_bitmap_lo

pub set_inode_bitmap : Bgroup → Sblock → ℕ → Bgroup
set_inode_bitmap bg s blk = record bg {
  inode_bitmap_lo = u32 blk;
  inode_bitmap_hi = high32 s blk bg.inode_bitmap_hi;
}

pub get_inode_table_first_block : Bgroup → Sblock → ℕ
get_inode_table_first_block bg s =
    join s 32 bg.inode_table_first_block_hi bg.inode_table_first_block_lo

pub set_inode_table_first_block : Bgroup → Sblock → ℕ → Bgroup
set_inode_table_first_block bg s blk = record bg {
  inode_table_first_block_lo = u32 blk;
  inode_table_first_block_hi = high32 s blk bg.inode_table_first_block_hi;
}

unfoldable pub get_free_blocks_count : Bgroup → Sblock → ℕ
get_free_blocks_count bg s = join s 16 bg.free_blocks_count_hi bg.free_blocks_count_lo

unfoldable pub set_free_blocks_count : Bgroup → Sblock → ℕ → Bgroup
set_free_blocks_count bg s cnt = record bg {
  free_blocks_count_lo = low16 cnt;
  free_blocks_count_hi = high16 s cnt bg.free_blocks_count_hi;
}

unfoldable pub get_free_inodes_count : Bgroup → Sblock → ℕ
get_free_inodes_count bg s = join s 16 bg.free_inodes_count_hi bg.free_inodes_count_lo

unfoldable pub set_free_inodes_count : Bgroup → Sblock → ℕ → Bgroup
set_free_inodes_count bg s cnt = record bg {
  free_inodes_count_lo = low16 cnt;
  free_inodes_count_hi = high16 s cnt bg.free_inodes_count_hi;
}

unfoldable pub get_used_dirs_count : Bgroup → Sblock → ℕ
get_used_dirs_count bg s = join s 16 bg.used_dirs_count_hi bg.used_dirs_count_lo

unfoldable pub set_used_dirs_count : Bgroup → Sblock → ℕ → Bgroup
set_used_dirs_count bg s cnt = record bg {
  used_dirs_count_lo = low16 cnt;
  used_dirs_count_hi = high16 s cnt bg.used_dirs_count_hi;
}

unfoldable pub get_itable_unused : Bgroup → Sblock → ℕ
get_itable_unused bg s = join s 16 bg.itable_unused_hi bg.itable_unused_lo

unfoldable pub set_itable_unused : Bgroup → Sblock → ℕ → Bgroup
set_itable_unused bg s cnt = record bg {
  itable_unused_lo = low16 cnt;
  itable_unused_hi = high16 s cnt bg.itable_unused_hi;
}

unfoldable pub has_flag : Bgroup → ℕ → Bool
has_flag bg f = test_mask bg.flags f

pub set_flag : Bgroup → ℕ → Bgroup
set_flag bg f = record bg { flags = u16 (bit_or bg.flags f) }

-- `flags &= ~f`, where `f` is a `uint32_t`.
pub clear_flag : Bgroup → ℕ → Bgroup
clear_flag bg f = record bg { flags = u16 (bit_and bg.flags (2 ^ 32 - 1 - f)) }
