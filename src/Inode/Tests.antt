-- ===== src/Inode/Tests.antt =====
-- The block counter of an inode on a file system with huge files.
use initramfstool.Base.{◌^◌, ◌+◌, ◌≡◌, refl, arith, true, ◌≢◌, ltb, ◌&&◌, if◌then◌else◌, u32}
use initramfstool.Super.{Sblock, feature_ro_com, get_block_size}
use initramfstool.Super.Tests.{disk}
use initramfstool.Inode.{Inode, huge_shift, block_bits_count, block_bits_loop, ro_com_huge_file}
use initramfstool.Inode.Fields.{get_size, set_size, is_type, mode_file, get_file_acl, set_file_acl}
use initramfstool.Inode.Stored.{get-set_size, file_acl_lost}

abbrev huge_disk : Sblock
huge_disk = record disk { features_read_only = 9 }

abbrev pub file : Inode
file = record {
  mode = 0x81a4;
  uid = 0;
  size_lo = 0;
  access_time = 0;
  change_inode_time = 0;
  modification_time = 0;
  deletion_time = 0;
  gid = 0;
  links_count = 1;
  blocks_count_lo = 0;
  flags = 0;
  blocks = λ i. 0;
  generation = 7;
  file_acl_lo = 0;
  size_hi = 0;
  blocks_high = 0;
  file_acl_high = 0;
  checksum_lo = 0;
  extra_isize = 32;
  checksum_hi = 0;
}

is_huge : feature_ro_com huge_disk ro_com_huge_file ≡ true
unfolding feature_ro_com
is_huge = refl

shift : huge_shift huge_disk ≡ 3
unfolding block_bits_count block_bits_loop get_block_size
shift = refl

get-set_size_example : get_size huge_disk (set_size file (2 ^ 40)) ≡ (
    if ltb 0 huge_disk.rev_level && is_type huge_disk file mode_file then 2 ^ 40 else u32 (2 ^ 40))
get-set_size_example = get-set_size huge_disk file (2 ^ 40) (omega arith)

file_acl_lost_example :
    get_file_acl (set_file_acl file huge_disk (2 ^ 32 + 5)) huge_disk ≢ 2 ^ 32 + 5
file_acl_lost_example = file_acl_lost huge_disk file (2 ^ 32 + 5) refl (omega arith)
