-- ===== src/BlockGroup/Fields.antt =====
-- What is stored in a field of a descriptor is read back.
use initramfstool.Base.{
  ℕ, ◌*◌, ◌/◌, ◌%◌, ◌^◌, ◌≡◌, refl, arith, u16, u32, bit_or-disjoint, if◌then◌else◌, Bool-cases,
  inl, inr,
}
use initramfstool.Super.{Sblock}
use initramfstool.BlockGroup.{
  Bgroup, wide, join, low16, high16, high32, get_block_bitmap, set_block_bitmap, get_inode_bitmap,
  set_inode_bitmap, get_inode_table_first_block, set_inode_table_first_block, get_free_blocks_count,
  set_free_blocks_count, get_free_inodes_count, set_free_inodes_count, get_used_dirs_count,
  set_used_dirs_count, get_itable_unused, set_itable_unused,
}

-- What a field of `bits` bits in each half holds of `v`.
abbrev pub kept : Sblock → ℕ → ℕ → ℕ
kept s bits v = if wide s then v % 2 ^ (2 * bits) else v % 2 ^ bits

join-halves16 :
    (s : Sblock) (cnt old : ℕ) → join s 16 (high16 s cnt old) (low16 cnt) ≡ kept s 16 cnt
join-halves16 s cnt old = elim (Bool-cases (wide s)) [
  | inl w ↦ rw w (omega (arith, bit_or-disjoint 16 (u16 (cnt / 2 ^ 16)) (low16 cnt) (omega arith)))
  | inr n ↦ rw n (omega arith)
]

join-halves32 : (s : Sblock) (blk old : ℕ) → join s 32 (high32 s blk old) (u32 blk) ≡ kept s 32 blk
join-halves32 s blk old = elim (Bool-cases (wide s)) [
  | inl w ↦ rw w (omega (arith, bit_or-disjoint 32 (u32 (blk / 2 ^ 32)) (u32 blk) (omega arith)))
  | inr n ↦ rw n refl
]

-- A counter of a descriptor reads back what was stored, cut to 32 bits if the descriptor is wide and
-- to 16 bits if not: the free blocks, the free inodes, the directories and the unused inodes.
pub get-set_counters :
    (bg : Bgroup) (s : Sblock) (cnt : ℕ)
    → (get_free_blocks_count (set_free_blocks_count bg s cnt) s ≡ kept s 16 cnt)
      × (get_free_inodes_count (set_free_inodes_count bg s cnt) s ≡ kept s 16 cnt)
      × (get_used_dirs_count (set_used_dirs_count bg s cnt) s ≡ kept s 16 cnt)
      × (get_itable_unused (set_itable_unused bg s cnt) s ≡ kept s 16 cnt)
unfolding get_free_blocks_count set_free_blocks_count get_free_inodes_count set_free_inodes_count
    get_used_dirs_count set_used_dirs_count get_itable_unused set_itable_unused
get-set_counters bg s cnt = (
  join-halves16 s cnt bg.free_blocks_count_hi,
  join-halves16 s cnt bg.free_inodes_count_hi,
  join-halves16 s cnt bg.used_dirs_count_hi,
  join-halves16 s cnt bg.itable_unused_hi,
)

-- The address of a bitmap or of the inode table reads back what was stored, cut to 64 bits if the
-- descriptor is wide and to 32 bits if not.
get-set_addresses :
    (bg : Bgroup) (s : Sblock) (blk : ℕ)
    → (get_block_bitmap (set_block_bitmap bg s blk) s ≡ kept s 32 blk)
      × (get_inode_bitmap (set_inode_bitmap bg s blk) s ≡ kept s 32 blk)
      × (get_inode_table_first_block (set_inode_table_first_block bg s blk) s ≡ kept s 32 blk)
unfolding get_block_bitmap set_block_bitmap get_inode_bitmap set_inode_bitmap
    get_inode_table_first_block set_inode_table_first_block
get-set_addresses bg s blk = (
  join-halves32 s blk bg.block_bitmap_hi,
  join-halves32 s blk bg.inode_bitmap_hi,
  join-halves32 s blk bg.inode_table_first_block_hi,
)
