-- ===== src/Mkfs.antt =====
-- The sizes of a new file system: SharpExt4/lwext4/src/ext4_mkfs.c, from the parameters that the
-- caller of `ext4_mkfs` left open to the derived sizes of `create_fs_aux_info`. A `uint32_t` expression
-- keeps its wrap as `u32`. The writing of the superblock, the groups and the inodes is not here.
pub mod Groups
pub mod Room
mod Tests
use initramfstool.Base.{
  ℕ, zero, suc, ◌+◌, ◌-◌, ◌*◌, ◌/◌, ◌%◌, ◌^◌, bit_and, bit_or, Bool, true, false, not, ◌&&◌, List,
  [], Option, none, some, ◌==◌, ltb, if◌then◌else◌, u32, u64,
}
use initramfstool.Bdev.{eok}
use initramfstool.Bcache.{enomem}
use initramfstool.Super.{test_mask, sub32, sparse, ro_com_sparse_super}

-- `struct ext4_mkfs_info`; `none` is a `label` that is NULL.
pub record MkfsInfo : Type 0 where
  pub len : ℕ
  pub block_size : ℕ
  pub blocks_per_group : ℕ
  pub inodes_per_group : ℕ
  pub inode_size : ℕ
  pub inodes : ℕ
  pub journal_blocks : ℕ
  pub feat_ro_compat : ℕ
  pub feat_compat : ℕ
  pub feat_incompat : ℕ
  pub bg_desc_reserve_blocks : ℕ
  pub dsc_size : ℕ
  pub uuid : List ℕ
  pub journal : Bool
  pub label : Option (List ℕ)

-- EXT4_DIV_ROUND_UP on `uint32_t`, and on `uint64_t`.
unfoldable pub div_round_up32 : ℕ → ℕ → ℕ
div_round_up32 x y = u32 (x + y + 2 ^ 32 - 1) / y

unfoldable pub div_round_up64 : ℕ → ℕ → ℕ
div_round_up64 x y = u64 (x + y + 2 ^ 64 - 1) / y

unfoldable pub compute_blocks_per_group : MkfsInfo → ℕ
compute_blocks_per_group info = u32 (info.block_size * 8)

unfoldable pub compute_inodes : MkfsInfo → ℕ
compute_inodes info = u32 (div_round_up64 info.len info.block_size) / 4

-- The inodes per group, and the parameters with the inodes of all groups.
unfoldable pub compute_inodes_per_group : MkfsInfo → ℕ × MkfsInfo
compute_inodes_per_group info =
    let blocks = u32 (div_round_up64 info.len info.block_size) in
    let block_groups = div_round_up32 blocks info.blocks_per_group in
    let per_block = info.block_size / info.inode_size in
    let inodes = div_round_up32 info.inodes block_groups in
    let aligned = u32 (per_block * div_round_up32 inodes per_block) in
    (aligned, record info { inodes = u32 (aligned * block_groups) })

unfoldable pub compute_journal_blocks : MkfsInfo → ℕ
compute_journal_blocks info =
    let blocks = u32 (div_round_up64 info.len info.block_size) / 64 in
    let raised = if ltb blocks 1024 then 1024 else blocks in
    if ltb 32768 raised then 32768 else raised

unfoldable pub has_superblock : MkfsInfo → ℕ → Bool
has_superblock info bgid =
    if not (test_mask info.feat_ro_compat ro_com_sparse_super) then true else sparse bgid

-- `struct fs_aux_info`, less its buffers and `xattrs`, which stays NULL.
pub record AuxInfo : Type 0 where
  pub first_data_block : ℕ
  pub len_blocks : ℕ
  pub inode_table_blocks : ℕ
  pub groups : ℕ
  pub bg_desc_blocks : ℕ
  pub default_i_flags : ℕ
  pub blocks_per_ind : ℕ
  pub blocks_per_dind : ℕ
  pub blocks_per_tind : ℕ

abbrev pub inode_flag_noatime : ℕ
inode_flag_noatime = 0x00000080

-- The blocks of the last group that hold no data.
unfoldable pub last_header_size : AuxInfo → MkfsInfo → ℕ
last_header_size aux info =
    let header = u32 (2 + aux.inode_table_blocks) in
    if has_superblock info (sub32 aux.groups 1)
    then u32 (header + u32 (u32 (1 + aux.bg_desc_blocks) + info.bg_desc_reserve_blocks))
    else header

-- The last group is left out where its blocks would not hold its header.
unfoldable pub drop_last_group : AuxInfo → MkfsInfo → AuxInfo
drop_last_group aux info =
    let last_group_size = u32 (aux.len_blocks % info.blocks_per_group) in
    if ltb 0 last_group_size && ltb last_group_size (last_header_size aux info)
    then record aux {
      groups = sub32 aux.groups 1;
      len_blocks = u64 (aux.len_blocks + 2 ^ 64 - last_group_size);
    }
    else aux

-- The sizes before the last group is looked at.
unfoldable pub all_groups : MkfsInfo → AuxInfo
all_groups info =
    let first = if ltb 1024 info.block_size then 0 else 1 in
    let len = info.len / info.block_size in
    let groups = u32 (div_round_up64 (u64 (len + 2 ^ 64 - first)) info.blocks_per_group) in
    let ind = info.block_size / 4 in
    let dind = u32 (ind * ind) in
    record {
      first_data_block = first;
      len_blocks = len;
      inode_table_blocks =
          div_round_up32 (u32 (info.inodes_per_group * info.inode_size)) info.block_size;
      groups = groups;
      bg_desc_blocks = div_round_up32 (u32 (groups * info.dsc_size)) info.block_size;
      default_i_flags = inode_flag_noatime;
      blocks_per_ind = ind;
      blocks_per_dind = dind;
      blocks_per_tind = u32 (dind * dind);
    }

-- `sb_given` and `blk_given` tell whether `ext4_calloc` gives the two buffers.
unfoldable pub create_fs_aux_info : Bool → Bool → MkfsInfo → ℕ × AuxInfo
create_fs_aux_info sb_given blk_given info =
    let aux = drop_last_group (all_groups info) info in
    if sb_given && blk_given then (eok, aux) else (enomem, aux)

-- The feature sets that the library supports, by `fs_type`; the parameters keep theirs for a type
-- that it does not know.
pub set_features : ℕ → MkfsInfo → MkfsInfo
set_features fs_type info =
    if fs_type == 2
    then record info { feat_compat = 0; feat_ro_compat = 0x0003; feat_incompat = 0x0012 }
    else if fs_type == 3
    then record info { feat_compat = 0x0020; feat_ro_compat = 0x0003; feat_incompat = 0x0012 }
    else if fs_type == 4
    then record info { feat_compat = 0x0020; feat_ro_compat = 0x047b; feat_incompat = 0x02d2 }
    else info

-- `v & ~mask` on `uint32_t`.
abbrev pub without : ℕ → ℕ → ℕ
without v mask = bit_and v (2 ^ 32 - 1 - mask)

pub mask_features : MkfsInfo → MkfsInfo
mask_features info =
    let incompat = without (without (without info.feat_incompat 0x0010) 0x0200) 0x0080 in
    let csum = without (without info.feat_ro_compat 0x0400) 0x0010 in
    record info {
      feat_incompat = incompat;
      feat_ro_compat = without (without (without csum 0x0020) 0x0040) 0x0008;
      feat_compat = if info.journal then bit_or info.feat_compat 0x0004 else info.feat_compat;
      dsc_size =
          if info.dsc_size == 0
          then (if test_mask incompat 0x0080 then 64 else 32)
          else info.dsc_size;
      bg_desc_reserve_blocks = 0;
    }

abbrev pub default_to : ℕ → ℕ → ℕ
default_to v other = if v == 0 then other else v

abbrev pub label_or_empty : Option (List ℕ) → List ℕ
label_or_empty none = []
label_or_empty (some label) = label

-- The parameters as `ext4_mkfs` completes them; `part_size` is the device's.
pub complete : ℕ → ℕ → MkfsInfo → MkfsInfo
complete part_size fs_type info =
    let size = default_to info.block_size 4096 in
    let len = bit_and (default_to info.len part_size) (2 ^ 64 - 1 - (size - 1)) in
    let i1 = record info { block_size = size; len = len } in
    let i2 = record i1 {
      journal_blocks = default_to i1.journal_blocks (compute_journal_blocks i1);
    } in
    let i3 = record i2 {
      blocks_per_group = default_to i2.blocks_per_group (compute_blocks_per_group i2);
    } in
    let i4 = record i3 { inodes = default_to i3.inodes (compute_inodes i3) } in
    let i5 = record i4 {
      inode_size = default_to i4.inode_size 256;
      label = some (label_or_empty i4.label);
    } in
    let (per_group, i6) = compute_inodes_per_group i5 in
    mask_features (set_features fs_type (record i6 { inodes_per_group = per_group }))
