-- ===== src/Inode.antt =====
-- The inode, SharpExt4/lwext4/src/ext4_inode.c: `Inode` has the fields of `struct ext4_inode` that the
-- modelled code reads or writes, and this file has the block counter. The other accessors are those
-- of the child Fields.
--
-- `osd2` is a union: its second halfword is `linux2.file_acl_high` and also `hurd2.mode_high`, and
-- here one field, `file_acl_high`.
pub mod Fields
pub mod Stored
pub mod Blocks
pub mod Tests
use initramfstool.Base.{
  ℕ, zero, suc, ◌+◌, ◌-◌, ◌*◌, ◌/◌, ◌%◌, ◌^◌, bit_and, bit_or, Bool, true, false, not, ◌==◌, ltb,
  leb, if◌then◌else◌, u16, u32, u64,
}
use initramfstool.Super.{Sblock, feature_ro_com, get_block_size, test_mask}

pub record Inode : Type 0 where
  pub mode : ℕ
  pub uid : ℕ
  pub size_lo : ℕ
  pub access_time : ℕ
  pub change_inode_time : ℕ
  pub modification_time : ℕ
  pub deletion_time : ℕ
  pub gid : ℕ
  pub links_count : ℕ
  pub blocks_count_lo : ℕ
  pub flags : ℕ
  pub blocks : ℕ → ℕ
  pub generation : ℕ
  pub file_acl_lo : ℕ
  pub size_hi : ℕ
  pub blocks_high : ℕ
  pub file_acl_high : ℕ
  pub checksum_lo : ℕ
  pub extra_isize : ℕ
  pub checksum_hi : ℕ

abbrev pub ro_com_huge_file : ℕ
ro_com_huge_file = 0x0008

abbrev pub flag_huge_file : ℕ
flag_huge_file = 0x00040000

-- `do { bits++; size = size >> 1; } while (size > 256);`, a round for each unit of fuel.
pub block_bits_loop : ℕ → ℕ → ℕ → ℕ
block_bits_loop zero bits size = bits
block_bits_loop (suc fuel) bits size =
    let rest = block_bits_loop fuel (bits + 1) (size / 2) in
    if ltb 256 (size / 2) then rest else bits + 1

-- A `uint32_t` is halved at most 32 times.
pub block_bits_count : ℕ → ℕ
block_bits_count block_size = block_bits_loop 32 8 block_size

-- `b - 9`, for a `b` that is at least 9.
abbrev pub huge_shift : Sblock → ℕ
huge_shift sb = block_bits_count (get_block_size sb) - 9

pub has_huge_flag : Inode → Bool
has_huge_flag inode = test_mask inode.flags flag_huge_file

pub get_blocks_count : Sblock → Inode → ℕ
get_blocks_count sb inode =
    let cnt = bit_or (inode.blocks_high * 2 ^ 32) inode.blocks_count_lo in
    if feature_ro_com sb ro_com_huge_file
    then (if has_huge_flag inode then u64 (cnt * 2 ^ huge_shift sb) else cnt)
    else inode.blocks_count_lo

abbrev pub clear_huge : ℕ → ℕ
clear_huge flags = bit_and flags (2 ^ 32 - 1 - flag_huge_file)

abbrev pub set_huge : ℕ → ℕ
set_huge flags = bit_or flags flag_huge_file

-- EINVAL leaves the inode as it is, and no caller looks at it: the result is the inode alone.
pub set_blocks_count : Sblock → Inode → ℕ → Inode
set_blocks_count sb inode count =
    let scaled = count / 2 ^ huge_shift sb in
    if leb count (2 ^ 32 - 1)
    then record inode {
      blocks_count_lo = u32 count;
      blocks_high = 0;
      flags = clear_huge inode.flags;
    }
    else if not (feature_ro_com sb ro_com_huge_file)
    then inode
    else if leb count (2 ^ 48 - 1)
    then record inode {
      blocks_count_lo = u32 count;
      blocks_high = u16 (count / 2 ^ 32);
      flags = clear_huge inode.flags;
    }
    else record inode {
      blocks_count_lo = u32 scaled;
      blocks_high = u16 (scaled / 2 ^ 32);
      flags = set_huge inode.flags;
    }
