-- ===== src/Address.antt =====
-- Block addresses and the groups that they lie in: `ext4_balloc_get_bgid_of_block` and
-- `ext4_balloc_get_block_of_bgid` of SharpExt4/lwext4/src/ext4_balloc.c, the inline functions of
-- include/ext4_fs.h, and the inode numbers of src/ext4_ialloc.c.
-- An `ext4_fsblk_t` has 64 bits; what the code computes in `uint32_t` keeps its wrap.
pub mod Laws
pub mod Bounds
mod Tests
use initramfstool.Base.{
  ℕ, ◌+◌, ◌-◌, ◌*◌, ◌/◌, ◌%◌, ◌^◌, Bool, not, ◌&&◌, ◌==◌, if◌then◌else◌, u32, u64,
}
use initramfstool.Super.{Sblock, sub32}

-- `if (first_data_block && baddr) baddr--;`
unfoldable pub from_first : Sblock → ℕ → ℕ
from_first s baddr = if not (s.first_data_block == 0) && not (baddr == 0) then baddr - 1 else baddr

unfoldable pub bgid_of_block : Sblock → ℕ → ℕ
bgid_of_block s baddr = u32 (from_first s baddr / s.blocks_per_group)

pub block_of_bgid : Sblock → ℕ → ℕ
block_of_bgid s bgid =
    let first = if s.first_data_block == 0 then 0 else 1 in
    u64 (first + u32 (bgid * s.blocks_per_group))

unfoldable pub addr_to_idx_bg : Sblock → ℕ → ℕ
addr_to_idx_bg s baddr = u32 (from_first s baddr % s.blocks_per_group)

unfoldable pub bg_idx_to_addr : Sblock → ℕ → ℕ → ℕ
bg_idx_to_addr s index bgid =
    let index' = if s.first_data_block == 0 then index else u32 (index + 1) in
    u32 (s.blocks_per_group * bgid + index')

pub first_bg_block_no : Sblock → ℕ → ℕ
first_bg_block_no s bgid = u64 (bgid * s.blocks_per_group + s.first_data_block)

pub block_in_group : Sblock → ℕ → ℕ → Bool
block_in_group s baddr bgid = bgid_of_block s baddr == bgid

unfoldable pub inode_to_bgidx : Sblock → ℕ → ℕ
inode_to_bgidx s inode = sub32 inode 1 % s.inodes_per_group

unfoldable pub bgidx_to_inode : Sblock → ℕ → ℕ → ℕ
bgidx_to_inode s index bgid = u32 (bgid * s.inodes_per_group + (index + 1))

unfoldable pub bgid_of_inode : Sblock → ℕ → ℕ
bgid_of_inode s inode = sub32 inode 1 / s.inodes_per_group
