-- ===== src/Inode/Stored.antt =====
-- What is stored in an inode is read back: the mode, the size, the checksum, the device number, and
-- the block of the extended attributes, which is not.
use initramfstool.Base.{
  ℕ, ◌+◌, ◌*◌, ◌/◌, ◌^◌, ◌<◌, ◌≤◌, ◌≡◌, ◌≢◌, ◌∙◌, arith, bit_or, ◌&&◌, ◌==◌, ltb, if◌then◌else◌,
  u16, u32, u64, bit_or-disjoint, bit_or-below, Bool-cases, inl, inr,
}
use initramfstool.Super.{Sblock}
use initramfstool.Inode.{Inode}
use initramfstool.Inode.Fields.{
  get_mode, set_mode, inode_type, is_type, get_size, set_size, get_csum, set_csum, get_file_acl,
  set_file_acl, get_dev, set_dev, get_direct_block, set_direct_block, mode_file, os_hurd, os_linux,
  good_old_inode_size,
}

-- A field of `k` bits and the rest make the number again.
join : (k hi lo n : ℕ) → lo < 2 ^ k → hi * 2 ^ k + lo ≡ n → bit_or (hi * 2 ^ k) lo ≡ n
join k hi lo n h e = bit_or-disjoint k hi lo h ∙ e

module _ (sb : Sblock) (inode : Inode) where
  -- On HURD a mode has 32 bits, and elsewhere 16.
  get-set_mode :
      (mode : ℕ)
      → mode < 2 ^ 32
      → get_mode sb (set_mode sb inode mode) ≡ (if sb.creator_os == os_hurd then mode else u16 mode)
  unfolding get_mode set_mode
  get-set_mode mode h = elim (Bool-cases (sb.creator_os == os_hurd)) [
    | inl e ↦ simp e (join 16 _ _ mode (omega arith) (omega arith))
    | inr e ↦ simp e (omega arith)
  ]

  -- A size below 2 ^ 64 is read back of a regular file on a file system of revision 1 or more, and cut to
  -- 32 bits of any other.
  pub get-set_size :
      (size : ℕ)
      → size < 2 ^ 64
      → get_size sb (set_size inode size)
        ≡ (if ltb 0 sb.rev_level && is_type sb inode mode_file then size else u32 size)
  unfolding get_size set_size is_type inode_type get_mode
  get-set_size size h = ground (
    arith,
    join 32 (u32 (size / 2 ^ 32)) (u32 (u64 (size * 2 ^ 32) / 2 ^ 32)) size (omega arith)
        (omega arith),
  )

  get-set_csum :
      (checksum : ℕ)
      → checksum < 2 ^ 32
      → get_csum sb (set_csum sb inode checksum)
        ≡ (if ltb good_old_inode_size sb.inode_size then checksum else u16 checksum)
  unfolding get_csum set_csum
  get-set_csum checksum h = elim (Bool-cases (ltb good_old_inode_size sb.inode_size)) [
    | inl e ↦ simp e (join 16 _ _ checksum (omega arith) (omega arith))
    | inr e ↦ simp e (omega arith)
  ]

  get-set_dev :
      (dev : ℕ) → inode.blocks 0 ≡ 0 → inode.blocks 1 ≡ 0 → get_dev (set_dev inode dev) ≡ dev
  unfolding get_dev set_dev get_direct_block set_direct_block
  get-set_dev dev p q = ground arith

  -- On Linux, the block of the extended attributes is not read back where its address has more than 32
  -- bits.
  pub file_acl_lost :
      (acl : ℕ)
      → sb.creator_os ≡ os_linux
      → 2 ^ 32 ≤ acl
      → get_file_acl (set_file_acl inode sb acl) sb ≢ acl
  unfolding get_file_acl set_file_acl
  file_acl_lost acl linux large = ground (
    arith,
    bit_or-below 32 (u32 (u64 (acl * 2 ^ 32) / 2 ^ 32)) (u32 (u16 (acl / 2 ^ 32) * 2 ^ 16))
        (omega arith) (omega arith),
  )
