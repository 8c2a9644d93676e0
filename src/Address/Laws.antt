-- ===== src/Address/Laws.antt =====
-- An address is its group and its index in the group, and an inode number likewise.
use initramfstool.Base.{
  ℕ, ◌+◌, ◌-◌, ◌*◌, ◌/◌, ◌%◌, ◌^◌, ◌<◌, ◌≤◌, ◌≡◌, ◌≢◌, ◌⊎◌, ◌∙◌, arith, u32, if◌then◌else◌, ltb,
}
use native.Mathlib.Nat.{
  div-add-mod, mod-lt, mul-div-le, lt-mul-div-succ, add-mul-div_left, add-mul-mod_self_left,
  div-eq_of_lt, mod-eq_of_lt, mul_comm, mul-mod_left,
}
use initramfstool.Super.{Sblock}
use initramfstool.Address.{
  from_first, bgid_of_block, block_of_bgid, addr_to_idx_bg, bg_idx_to_addr, first_bg_block_no,
  inode_to_bgidx, bgidx_to_inode, bgid_of_inode,
}

-- Quotient and remainder fit 32 bits, so their truncation loses nothing.
recombine : (p a : ℕ) → 0 < p → p < 2 ^ 32 → a / p < 2 ^ 32 → p * u32 (a / p) + u32 (a % p) ≡ a
recombine p a pos fits few =
    let q : u32 (a / p) ≡ a / p = omega arith in
    let r : u32 (a % p) ≡ a % p = omega (arith, mod-lt a pos) in rw (q, r) (div-add-mod a p)

div_pred : (p a : ℕ) → 0 < p → (a - 1) / p ≤ a / p
div_pred p a pos =
    let low : p * ((a - 1) / p) ≤ a - 1 = mul-div-le (a - 1) p in
    let high : a < p * (a / p + 1) = lt-mul-div-succ a pos in grind arith

-- The address that is made of a block's group and its index in the group is the block's address cut
-- to 32 bits. The block is not the boot block 0 before a `first_data_block`, groups have fewer than
-- 2 ^ 32 blocks, and the number of the group fits 32 bits.
pub bg_idx_to_addr-of_block :
    (s : Sblock) (baddr : ℕ)
    → 0 < s.blocks_per_group
    → s.blocks_per_group < 2 ^ 32
    → (s.first_data_block ≡ 0) ⊎ (baddr ≢ 0)
    → baddr / s.blocks_per_group < 2 ^ 32
    → bg_idx_to_addr s (addr_to_idx_bg s baddr) (bgid_of_block s baddr) ≡ u32 baddr
unfolding bg_idx_to_addr addr_to_idx_bg bgid_of_block from_first
bg_idx_to_addr-of_block s baddr pos fits not_boot few =
    let p = s.blocks_per_group in
    ground (
      arith,
      recombine p baddr pos fits few,
      recombine p (baddr - 1) pos fits,
      div_pred p baddr pos,
    )

-- Quotient and remainder of an index in group `q`.
split_back : (p q i : ℕ) → i < p → ((i + p * q) / p ≡ q) × ((i + p * q) % p ≡ i)
split_back p q i h =
    let pos : 0 < p = omega arith in
    (
      add-mul-div_left i q pos ∙ rw (div-eq_of_lt h) (omega arith),
      add-mul-mod_self_left i p q ∙ mod-eq_of_lt h,
    )

factor_le : (p q : ℕ) → 0 < p → q ≤ p * q
factor_le p q pos = grind arith

-- The other way: a group and an index below `blocks_per_group` are those of the address that is made
-- of them, as long as that address stays below 2 ^ 32.
addr_to_idx_bg-of_idx :
    (s : Sblock) (index bgid : ℕ)
    → index < s.blocks_per_group
    → s.blocks_per_group * bgid + index + 1 < 2 ^ 32
    → (addr_to_idx_bg s (bg_idx_to_addr s index bgid) ≡ index)
      × (bgid_of_block s (bg_idx_to_addr s index bgid) ≡ bgid)
unfolding bg_idx_to_addr addr_to_idx_bg bgid_of_block from_first
addr_to_idx_bg-of_idx s index bgid small fits =
    let p = s.blocks_per_group in
    let a = index + p * bgid in
    let e : p * bgid + index ≡ a = omega arith in
    (
      ground (arith, e, split_back p bgid index small),
      ground (arith, e, split_back p bgid index small, factor_le p bgid (omega arith)),
    )

-- The first block of a group has index 0 in it, while the blocks before the group number less than
-- 2 ^ 32; the first data block is 0 or 1.
pub addr_to_idx_bg-block_of_bgid :
    (s : Sblock) (bgid : ℕ)
    → 0 < s.blocks_per_group
    → s.first_data_block ≤ 1
    → bgid * s.blocks_per_group < 2 ^ 32
    → addr_to_idx_bg s (block_of_bgid s bgid) ≡ 0
unfolding block_of_bgid addr_to_idx_bg from_first
addr_to_idx_bg-block_of_bgid s bgid pos first few =
    ground (arith, mul-mod_left bgid s.blocks_per_group)

-- `ext4_balloc_get_block_of_bgid` multiplies in 32 bits: it gives the first block of the group while
-- the blocks before the group number less than 2 ^ 32, and that number less 2 ^ 32 from there to
-- twice as many. It agrees with `ext4_fs_first_bg_block_no`, which multiplies in 64 bits, only in the
-- first case.
block_of_bgid-first_bg_block_no :
    (s : Sblock) (bgid : ℕ)
    → s.first_data_block ≤ 1
    → bgid * s.blocks_per_group < 2 ^ 33
    → block_of_bgid s bgid + (if ltb (bgid * s.blocks_per_group) (2 ^ 32) then 0 else 2 ^ 32)
      ≡ first_bg_block_no s bgid
unfolding block_of_bgid first_bg_block_no
block_of_bgid-first_bg_block_no s bgid first few = ground arith

-- An inode number is made of its group and its index in the group, and they of it: for every inode
-- number but 0, and every index of a group below `inodes_per_group`, within 32 bits.
bgidx_to_inode_roundtrip :
    (s : Sblock) (inode index bgid : ℕ)
    → 0 < inode
    → inode < 2 ^ 32
    → index < s.inodes_per_group
    → bgid * s.inodes_per_group + index + 1 < 2 ^ 32
    → (bgidx_to_inode s (inode_to_bgidx s inode) (bgid_of_inode s inode) ≡ inode)
      × (inode_to_bgidx s (bgidx_to_inode s index bgid) ≡ index)
      × (bgid_of_inode s (bgidx_to_inode s index bgid) ≡ bgid)
unfolding bgidx_to_inode inode_to_bgidx bgid_of_inode
bgidx_to_inode_roundtrip s inode index bgid some fits small few =
    let p = s.inodes_per_group in
    let pos : 0 < p = omega arith in
    let e : bgid * p + (index + 1) ≡ index + p * bgid + 1 = omega arith in
    (
      ground (arith, div-add-mod (inode - 1) p, mul_comm ((inode - 1) / p) p),
      ground (arith, e, split_back p bgid index small),
      ground (arith, e, split_back p bgid index small),
    )
