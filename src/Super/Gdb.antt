-- ===== src/Super/Gdb.antt =====
-- The blocks that the superblock copy and the group descriptors take in a group.
use initramfstool.Base.{
  ℕ, ◌+◌, ◌-◌, ◌*◌, ◌/◌, ◌^◌, ◌<◌, ◌≤◌, ◌≡◌, ap, ◌∙◌, arith, u32, true, false, if◌then◌else◌,
}
use native.Mathlib.Nat.{div_self, div-add-mod'}
use initramfstool.Super.{
  Sblock, sub32, get_block_size, get_desc_size, feature_incom, incom_meta_bg, block_group_cnt,
  is_super_in_bg, num_gdb_nometa, num_gdb, num_base_meta, num_base_meta_clusters,
}

abbrev pub dsc_per_block : Sblock → ℕ
dsc_per_block s = get_block_size s / get_desc_size s

ceil_div : (n d q : ℕ) → 0 < d → 0 < n → q ≡ (n + d - 1) / d → (n ≤ q * d) × ((q - 1) * d < n)
ceil_div n d q pos some e =
    (grind (arith, div-add-mod' (n + d - 1) d), grind (arith, div-add-mod' (n + d - 1) d))

num_gdb-plain :
    (s : Sblock) (group : ℕ)
    → feature_incom s incom_meta_bg ≡ false
    → num_gdb s group ≡ (
        if is_super_in_bg s group
        then sub32 (u32 (block_group_cnt s + dsc_per_block s)) 1 / dsc_per_block s
        else 0)
unfolding num_gdb num_gdb_nometa
num_gdb-plain s group plain = rw plain

-- Without META_BG a group with a superblock copy keeps all descriptors: as many blocks as hold one
-- descriptor for each group and no block more. A group with no copy keeps none.
-- A block holds a descriptor, and the count of groups plus that of a block's descriptors fits 32 bits.
num_gdb_bounds :
    (s : Sblock) (group : ℕ)
    → feature_incom s incom_meta_bg ≡ false
    → 0 < dsc_per_block s
    → 0 < block_group_cnt s
    → block_group_cnt s + dsc_per_block s < 2 ^ 32
    → (is_super_in_bg s group ≡ false → num_gdb s group ≡ 0)
      × (is_super_in_bg s group ≡ true
          → (block_group_cnt s ≤ num_gdb s group * dsc_per_block s)
            × ((num_gdb s group - 1) * dsc_per_block s < block_group_cnt s))
num_gdb_bounds s group plain pos groups fits =
    let n = block_group_cnt s in
    let d = dsc_per_block s in
    let e : sub32 (u32 (n + d)) 1 ≡ n + d - 1 = omega arith in
    (
      λ no_copy. ground (arith, num_gdb-plain s group plain),
      λ copy.
          ceil_div n d (num_gdb s group) pos groups
            (num_gdb-plain s group plain ∙ rw copy (ap (λ t. t / d) e)),
    )

-- Where a cluster is a block, `(num + cluster_ratio - 1) >> log_cluster_size` divides the number of
-- metadata blocks by the factor by which a block is larger than 1024 bytes, and rounds down.
pub num_base_meta_clusters_of_blocks :
    (s : Sblock) (group : ℕ)
    → s.log_cluster_size ≡ s.log_block_size
    → 0 < get_block_size s
    → num_base_meta s group < 2 ^ 32 - 1
    → num_base_meta_clusters s group ≡ num_base_meta s group / 2 ^ s.log_block_size
unfolding num_base_meta_clusters get_block_size
num_base_meta_clusters_of_blocks s group e pos fits =
    let num = num_base_meta s group in
    let one : u32 (1024 * 2 ^ s.log_block_size) / u32 (1024 * 2 ^ s.log_block_size) ≡ 1 =
      div_self pos in
    let same : sub32 (u32 (num + 1)) 1 ≡ num = omega arith in
    simp (e, one) (ap (λ t. t / 2 ^ s.log_block_size) same)
