-- ===== src/Mkfs/Groups.antt =====
-- The groups that `create_fs_aux_info` leaves of the blocks.
use initramfstool.Base.{
  ℕ, ◌+◌, ◌-◌, ◌*◌, ◌/◌, ◌%◌, ◌^◌, ◌<◌, ◌≤◌, ◌≡◌, refl, ◌∙◌, arith, true, u32, u64, ltb,
}
use native.Mathlib.Nat.{
  mul-le-mul_right, mul-le-mul_left, mul-mod_left, mul-div_cancel, mul-add-div_right,
  mul-add-mod_self_right, mod-eq_of_lt, div-eq_of_lt,
}
use initramfstool.Bdev.{eok}
use initramfstool.Super.{Sblock, get_blocks_cnt, block_group_cnt}
use initramfstool.Mkfs.{
  MkfsInfo, AuxInfo, div_round_up32, div_round_up64, last_header_size, drop_last_group, all_groups,
  create_fs_aux_info,
}

div_round_up32-lt : (x : ℕ) → div_round_up32 x 1024 < 2 ^ 22
unfolding div_round_up32
div_round_up32-lt x = omega arith

last_header_size-ge :
    (aux : AuxInfo) (info : MkfsInfo)
    → aux.inode_table_blocks < 2 ^ 22
    → aux.bg_desc_blocks < 2 ^ 22
    → info.bg_desc_reserve_blocks < 2 ^ 16
    → 2 ≤ last_header_size aux info
unfolding last_header_size
last_header_size-ge aux info table descs reserved = ground arith

-- `k` groups of `p` blocks.
whole_groups : (k p : ℕ) → 1 ≤ k → 1 ≤ p → k * p < 2 ^ 32 → div_round_up64 (k * p) p ≡ k
unfolding div_round_up64
whole_groups k p groups some fits =
    let inside : u64 (k * p + p + 2 ^ 64 - 1) ≡ k * p + (p - 1) =
      omega (arith, mul-le-mul_right p groups) in
    let over : (p - 1) / p ≡ 0 = div-eq_of_lt (omega arith) in
    rw inside (mul-add-div_right some k (p - 1) ∙ omega (arith, over))

drop-one :
    (aux : AuxInfo) (info : MkfsInfo) (k : ℕ)
    → aux.groups ≡ k
    → 1 ≤ k
    → k < 2 ^ 32
    → 2 ≤ info.blocks_per_group
    → aux.len_blocks ≡ k * info.blocks_per_group + 1
    → k * info.blocks_per_group + 1 < 2 ^ 32
    → 2 ≤ last_header_size aux info
    → ((drop_last_group aux info).groups + 1 ≡ k)
      × ((drop_last_group aux info).len_blocks ≡ k * info.blocks_per_group)
unfolding drop_last_group
drop-one aux info k groups some small many len fits header =
    let p = info.blocks_per_group in
    let one : (k * p + 1) % p ≡ 1 = mul-add-mod_self_right k p 1 ∙ mod-eq_of_lt many in
    let last : u32 (aux.len_blocks % p) ≡ 1 = rw (len, one) refl in
    let short : ltb 1 (last_header_size aux info) ≡ true = ground arith in
    rw (last, short) (omega arith, omega arith)

module _ (info : MkfsInfo) (k : ℕ) (size : info.block_size ≡ 1024)
    (len : info.len / 1024 ≡ k * info.blocks_per_group + 1) where
  all_len : (all_groups info).len_blocks ≡ k * info.blocks_per_group + 1
  unfolding all_groups
  all_len = rw size len

  all_count :
      1 ≤ k
      → 1 ≤ info.blocks_per_group
      → k * info.blocks_per_group + 1 < 2 ^ 32
      → (all_groups info).groups ≡ k
  unfolding all_groups
  all_count groups some fits =
      let p = info.blocks_per_group in
      let ge : k * 1 ≤ k * p = mul-le-mul_left k some in
      let below : u64 (k * p + 1 + 2 ^ 64 - 1) ≡ k * p = omega arith in
      rw (size, len, below, whole_groups k p groups some (omega arith)) (omega arith)

  all_header : info.bg_desc_reserve_blocks < 2 ^ 16 → 2 ≤ last_header_size (all_groups info) info
  unfolding all_groups
  all_header reserved =
      let table = u32 (info.inodes_per_group * info.inode_size) in
      last_header_size-ge (all_groups info) info (rw size (div_round_up32-lt table))
        (rw size (div_round_up32-lt _)) reserved

block_group_cnt-whole :
    (s : Sblock) (k p : ℕ)
    → s.blocks_per_group ≡ p
    → get_blocks_cnt s ≡ k * p
    → 1 ≤ p
    → k < 2 ^ 32
    → block_group_cnt s ≡ k
unfolding block_group_cnt
block_group_cnt-whole s k p per count some small =
    let even : k * p % p ≡ 0 = mul-mod_left k p in
    let whole : k * p / p ≡ k = mul-div_cancel k some in rw (count, per, even, whole) (omega arith)

-- With blocks of 1024 bytes, and both buffers given, where the device has `k` whole groups and one block,
-- one group less is described, but a superblock with the described number of blocks and the same blocks
-- per group has `k` groups. The blocks are counted in 32 bits, `k` is not 0, a group has at least 2
-- blocks, and fewer than 2 ^ 16 blocks are reserved.
pub group_dropped :
    (info : MkfsInfo) (s : Sblock) (k : ℕ)
    → info.block_size ≡ 1024
    → 1 ≤ k
    → 2 ≤ info.blocks_per_group
    → info.len / 1024 ≡ k * info.blocks_per_group + 1
    → k * info.blocks_per_group + 1 < 2 ^ 32
    → info.bg_desc_reserve_blocks < 2 ^ 16
    → s.blocks_per_group ≡ info.blocks_per_group
    → get_blocks_cnt s ≡ (create_fs_aux_info true true info).1.len_blocks
    → ((create_fs_aux_info true true info).0 ≡ eok)
      × ((create_fs_aux_info true true info).1.groups + 1 ≡ k)
      × (block_group_cnt s ≡ k)
unfolding create_fs_aux_info
group_dropped info s k size some many len fits reserved per count =
    let p = info.blocks_per_group in
    let ge : k * 1 ≤ k * p = mul-le-mul_left k (omega (arith, many)) in
    let (groups, blocks) =
      drop-one (all_groups info) info k (all_count info k size len some (omega arith) fits) some
        (omega arith) many (all_len info k size len) fits (all_header info k size len reserved) in
    (refl, groups, block_group_cnt-whole s k p per (count ∙ blocks) (omega arith) (omega arith))
