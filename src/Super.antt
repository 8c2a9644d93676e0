-- ===== src/Super.antt =====
-- The superblock: SharpExt4/lwext4/include/ext4_super.h and src/ext4_super.c.
-- `Sblock` has the fields of `struct ext4_sblock` that the modelled code reads or writes, as the
-- numbers that they hold; `to_le32` and its kin are the identity on them. A `uint32_t` expression
-- keeps its wrap as `u32`.
pub mod Fields
pub mod Groups
pub mod Sparse
pub mod Gdb
pub mod Layout
pub mod Csum
pub mod Detected
pub mod Tests
use initramfstool.Base.{
  ℕ, zero, suc, ◌+◌, ◌-◌, ◌*◌, ◌/◌, ◌%◌, ◌^◌, bit_and, bit_or, Bool, true, false, not, ◌&&◌, ◌||◌,
  List, ◌==◌, ltb, leb, if◌then◌else◌, u16, u32, u64,
}

pub record Sblock : Type 0 where
  pub inodes_count : ℕ
  pub blocks_count_lo : ℕ
  pub free_blocks_count_lo : ℕ
  pub free_inodes_count : ℕ
  pub first_data_block : ℕ
  pub log_block_size : ℕ
  pub log_cluster_size : ℕ
  pub blocks_per_group : ℕ
  pub inodes_per_group : ℕ
  pub magic : ℕ
  pub minor_rev_level : ℕ
  pub creator_os : ℕ
  pub rev_level : ℕ
  pub first_inode : ℕ
  pub inode_size : ℕ
  pub features_compatible : ℕ
  pub features_incompatible : ℕ
  pub features_read_only : ℕ
  pub uuid : List ℕ
  pub s_reserved_gdt_blocks : ℕ
  pub desc_size : ℕ
  pub first_meta_bg : ℕ
  pub blocks_count_hi : ℕ
  pub free_blocks_count_hi : ℕ
  pub flags : ℕ
  pub log_groups_per_flex : ℕ
  pub checksum_type : ℕ
  pub checksum : ℕ

unfoldable pub get_blocks_cnt : Sblock → ℕ
get_blocks_cnt s = bit_or (s.blocks_count_hi * 2 ^ 32) s.blocks_count_lo

pub set_blocks_cnt : Sblock → ℕ → Sblock
set_blocks_cnt s cnt = record s {
  blocks_count_lo = u32 (u64 (cnt * 2 ^ 32) / 2 ^ 32);
  blocks_count_hi = u32 (cnt / 2 ^ 32);
}

unfoldable pub get_free_blocks_cnt : Sblock → ℕ
get_free_blocks_cnt s = bit_or (s.free_blocks_count_hi * 2 ^ 32) s.free_blocks_count_lo

unfoldable pub set_free_blocks_cnt : Sblock → ℕ → Sblock
set_free_blocks_cnt s cnt = record s {
  free_blocks_count_lo = u32 (u64 (cnt * 2 ^ 32) / 2 ^ 32);
  free_blocks_count_hi = u32 (cnt / 2 ^ 32);
}

-- 1024 << log_block_size
unfoldable pub get_block_size : Sblock → ℕ
get_block_size s = u32 (1024 * 2 ^ s.log_block_size)

abbrev pub min_desc_size : ℕ
min_desc_size = 32

abbrev pub max_desc_size : ℕ
max_desc_size = 64

unfoldable pub get_desc_size : Sblock → ℕ
get_desc_size s = if ltb s.desc_size min_desc_size then min_desc_size else s.desc_size

abbrev pub test_mask : ℕ → ℕ → Bool
test_mask flags v = not (bit_and flags v == 0)

pub check_flag : Sblock → ℕ → Bool
check_flag s v = test_mask s.flags v

pub feature_com : Sblock → ℕ → Bool
feature_com s v = test_mask s.features_compatible v

unfoldable pub feature_incom : Sblock → ℕ → Bool
feature_incom s v = test_mask s.features_incompatible v

unfoldable pub feature_ro_com : Sblock → ℕ → Bool
feature_ro_com s v = test_mask s.features_read_only v

abbrev pub ro_com_sparse_super : ℕ
ro_com_sparse_super = 0x0001

abbrev pub ro_com_metadata_csum : ℕ
ro_com_metadata_csum = 0x0400

abbrev pub incom_meta_bg : ℕ
incom_meta_bg = 0x0010

pub bg_to_flex : Sblock → ℕ → ℕ
bg_to_flex s block_group = block_group / 2 ^ s.log_groups_per_flex

pub flex_bg_size : Sblock → ℕ
flex_bg_size s = u32 (2 ^ s.log_groups_per_flex)

unfoldable pub block_group_cnt : Sblock → ℕ
block_group_cnt s =
    let blocks_count = get_blocks_cnt s in
    let count = u32 (blocks_count / s.blocks_per_group) in
    if blocks_count % s.blocks_per_group == 0 then count else u32 (count + 1)

-- `x - y` on `uint32_t`.
abbrev pub sub32 : ℕ → ℕ → ℕ
sub32 x y = u32 (x + 2 ^ 32 - y)

unfoldable pub blocks_in_group_cnt : Sblock → ℕ → ℕ
blocks_in_group_cnt s bgid =
    let groups = block_group_cnt s in
    if ltb bgid (sub32 groups 1)
    then s.blocks_per_group
    else u32 (u64 (get_blocks_cnt s + 2 ^ 64 - u32 (sub32 groups 1 * s.blocks_per_group)))

unfoldable pub inodes_in_group_cnt : Sblock → ℕ → ℕ
inodes_in_group_cnt s bgid =
    let groups = block_group_cnt s in
    if ltb bgid (sub32 groups 1)
    then s.inodes_per_group
    else sub32 s.inodes_count (u32 (sub32 groups 1 * s.inodes_per_group))

-- The loop divides `a` by `b`, so `a` rounds are fuel enough for `b ≥ 2`.
pub is_power_of_loop : ℕ → ℕ → ℕ → Bool
is_power_of_loop zero a b = false
is_power_of_loop (suc fuel) a b =
    let rest = is_power_of_loop fuel (a / b) b in
    if ltb a b then false else if a == b then true else if a % b == 0 then rest else false

pub is_power_of : ℕ → ℕ → Bool
is_power_of a b = is_power_of_loop (suc a) a b

pub sparse : ℕ → Bool
sparse group =
    if leb group 1
    then true
    else if group % 2 == 0
    then false
    else is_power_of group 7 || (is_power_of group 5 || is_power_of group 3)

pub is_super_in_bg : Sblock → ℕ → Bool
is_super_in_bg s group =
    if feature_ro_com s ro_com_sparse_super && not (sparse group) then false else true

pub num_gdb_meta : Sblock → ℕ → ℕ
num_gdb_meta s group =
    let dsc_per_block = get_block_size s / get_desc_size s in
    let first = u32 (group / dsc_per_block * dsc_per_block) in
    let last = sub32 (u32 (first + dsc_per_block)) 1 in
    if group == first || (group == u32 (first + 1) || group == last) then 1 else 0

pub num_gdb_nometa : Sblock → ℕ → ℕ
num_gdb_nometa s group =
    let dsc_per_block = get_block_size s / get_desc_size s in
    let db_count = sub32 (u32 (block_group_cnt s + dsc_per_block)) 1 / dsc_per_block in
    if is_super_in_bg s group
    then (if feature_incom s incom_meta_bg then s.first_meta_bg else db_count)
    else 0

pub num_gdb : Sblock → ℕ → ℕ
num_gdb s group =
    let metagroup = group / (get_block_size s / get_desc_size s) in
    if not (feature_incom s incom_meta_bg) || ltb metagroup s.first_meta_bg
    then num_gdb_nometa s group
    else num_gdb_meta s group

abbrev pub to_number : Bool → ℕ
to_number b = if b then 1 else 0

-- The blocks of a group that hold the superblock copy and the descriptors: `num` before it is
-- turned into clusters.
pub num_base_meta : Sblock → ℕ → ℕ
num_base_meta s group =
    let dsc_per_block = get_block_size s / get_desc_size s in
    let num = to_number (is_super_in_bg s group) in
    if not (feature_incom s incom_meta_bg) || ltb group (u32 (s.first_meta_bg * dsc_per_block))
    then (if num == 0 then num else u32 (u32 (num + num_gdb s group) + s.s_reserved_gdt_blocks))
    else u32 (num + num_gdb s group)

pub num_base_meta_clusters : Sblock → ℕ → ℕ
num_base_meta_clusters s group =
    let cluster_ratio = u32 (1024 * 2 ^ s.log_cluster_size) / get_block_size s in
    sub32 (u32 (num_base_meta s group + cluster_ratio)) 1 / 2 ^ s.log_cluster_size
