-- ===== src/Mkfs/Tests.antt =====
-- New file systems, and the theorems at them.
use initramfstool.Base.{ℕ, ◌+◌, ◌*◌, ◌≡◌, refl, arith, [], true, none}
use initramfstool.Bdev.{eok}
use initramfstool.Super.{Sblock, get_blocks_cnt, block_group_cnt}
use initramfstool.Super.Tests.{disk}
use initramfstool.Mkfs.{
  MkfsInfo, div_round_up32, div_round_up64, compute_blocks_per_group, compute_inodes,
  compute_inodes_per_group, compute_journal_blocks, has_superblock, last_header_size,
  drop_last_group, all_groups, create_fs_aux_info, set_features, mask_features, complete,
}
use initramfstool.Mkfs.Groups.{group_dropped}
use initramfstool.Mkfs.Room.{HasRoom, create_fs_aux_info-HasRoom}

abbrev requested : MkfsInfo
requested = record {
  len = 0;
  block_size = 0;
  blocks_per_group = 0;
  inodes_per_group = 0;
  inode_size = 0;
  inodes = 0;
  journal_blocks = 0;
  feat_ro_compat = 0;
  feat_compat = 0;
  feat_incompat = 0;
  bg_desc_reserve_blocks = 0;
  dsc_size = 0;
  uuid = [];
  journal = true;
  label = none;
}

-- Two groups of 32768 blocks of 4096 bytes, 100 blocks and some bytes.
abbrev part_size : ℕ
part_size = 65636 * 4096 + 17

completed_runs :
    ((complete part_size 4 requested).len ≡ 65636 * 4096)
    × ((complete part_size 4 requested).inodes_per_group ≡ 5472)
    × ((complete part_size 4 requested).inodes ≡ 16416)
    × ((complete part_size 4 requested).journal_blocks ≡ 1025)
    × ((complete part_size 4 requested).feat_ro_compat ≡ 0x0003)
    × ((complete part_size 4 requested).feat_compat ≡ 0x0024)
    × ((complete part_size 4 requested).feat_incompat ≡ 0x0042)
    × ((complete part_size 4 requested).dsc_size ≡ 32)
unfolding complete set_features mask_features compute_blocks_per_group compute_inodes
    compute_inodes_per_group compute_journal_blocks div_round_up32 div_round_up64
completed_runs = (refl, refl, refl, refl, refl, refl, refl, refl)

abbrev four_kib : MkfsInfo
four_kib = record requested {
  len = 65636 * 4096;
  block_size = 4096;
  blocks_per_group = 32768;
  inodes_per_group = 5472;
  inode_size = 256;
  feat_ro_compat = 0x0002;
  dsc_size = 32;
}

-- The 100 blocks would not hold an inode table of 342 blocks.
four_kib_runs :
    ((create_fs_aux_info true true four_kib).1.groups ≡ 2)
    × ((create_fs_aux_info true true four_kib).1.len_blocks ≡ 65536)
    × ((create_fs_aux_info true true four_kib).1.inode_table_blocks ≡ 342)
unfolding create_fs_aux_info drop_last_group all_groups last_header_size has_superblock
    div_round_up32 div_round_up64
four_kib_runs = (refl, refl, refl)

create_fs_aux_info-HasRoom_example :
    ((create_fs_aux_info true true four_kib).0 ≡ eok)
    × HasRoom 32768
        (last_header_size (create_fs_aux_info true true four_kib).1 four_kib)
        65636
        (create_fs_aux_info true true four_kib).1.len_blocks
        (create_fs_aux_info true true four_kib).1.groups
create_fs_aux_info-HasRoom_example =
    create_fs_aux_info-HasRoom four_kib (omega arith) (omega arith) (omega arith)

-- Two groups of 8192 blocks of 1024 bytes and one block.
abbrev one_kib : MkfsInfo
one_kib = record four_kib { len = 16385 * 1024; block_size = 1024; blocks_per_group = 8192 }

abbrev made : Sblock
made = record disk { blocks_count_lo = 16384; blocks_per_group = 8192 }

made_blocks : get_blocks_cnt made ≡ (create_fs_aux_info true true one_kib).1.len_blocks
unfolding get_blocks_cnt create_fs_aux_info drop_last_group all_groups last_header_size
    has_superblock div_round_up32 div_round_up64
made_blocks = refl

group_dropped_example :
    ((create_fs_aux_info true true one_kib).0 ≡ eok)
    × ((create_fs_aux_info true true one_kib).1.groups + 1 ≡ 2)
    × (block_group_cnt made ≡ 2)
group_dropped_example =
    group_dropped one_kib made 2 refl (omega arith) (omega arith) refl (omega arith) (omega arith)
      refl made_blocks
