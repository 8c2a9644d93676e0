-- ===== src/Super/Csum.antt =====
-- `ext4_sb_check`, `ext4_sb_set_csum` and `ext4_sb_verify_csum`.
use initramfstool.Base.{
  ℕ, ◌<◌, ◌≤◌, ◌≡◌, ◌≢◌, ◌⊎◌, ap, sym, ◌∙◌, arith, ltb, Bool, true, false, not, List, ◌==◌,
  if◌then◌else◌,
}
use initramfstool.Crc.{crc32c}
use initramfstool.Crc.Serial.{serial, crc32-serial}
use initramfstool.Dir.Bytes.{Memory, slice, slice-same}
use initramfstool.Super.Layout.{
  AllBytes, sb_memory, sb_memory-checksum, sb_memory-bytes, slice-IsBytes,
}
use initramfstool.Super.{
  Sblock, get_blocks_cnt, get_desc_size, feature_ro_com, ro_com_metadata_csum, min_desc_size,
  max_desc_size,
}

abbrev pub crc32_init : ℕ
crc32_init = 0xffff_ffff

abbrev pub checksum_crc32c : ℕ
checksum_crc32c = 1

abbrev pub superblock_magic : ℕ
superblock_magic = 0xef53

-- `offsetof(struct ext4_sblock, checksum)`.
abbrev pub checksum_at : ℕ
checksum_at = 1020

-- `rest` is the memory of the fields that `Sblock` lacks.
module _ (rest : Memory) where
  pub sb_csum : Sblock → ℕ
  sb_csum s = crc32c crc32_init (slice (sb_memory rest s) 0 checksum_at)

  pub sb_verify_csum : Sblock → Bool
  sb_verify_csum s =
      if not (feature_ro_com s ro_com_metadata_csum)
      then true
      else if not (s.checksum_type == checksum_crc32c)
      then false
      else s.checksum == sb_csum s

  pub sb_set_csum : Sblock → Sblock
  sb_set_csum s =
      if not (feature_ro_com s ro_com_metadata_csum) then s else record s { checksum = sb_csum s }

  pub sb_check : Sblock → Bool
  sb_check s =
      if not (s.magic == superblock_magic)
      then false
      else if s.inodes_count == 0
      then false
      else if get_blocks_cnt s == 0
      then false
      else if s.blocks_per_group == 0
      then false
      else if s.inodes_per_group == 0
      then false
      else if ltb s.inode_size 128
      then false
      else if ltb s.first_inode 11
      then false
      else if ltb (get_desc_size s) min_desc_size
      then false
      else if ltb max_desc_size (get_desc_size s)
      then false
      else if not (sb_verify_csum s)
      then false
      else true

-- What a superblock that passes `ext4_sb_check` satisfies.
pub record IsChecked (s : Sblock) : Type 0 where
  pub magic_right : s.magic ≡ superblock_magic
  pub some_inodes : 0 < s.inodes_count
  pub some_blocks : 0 < get_blocks_cnt s
  pub some_per_group : 0 < s.blocks_per_group
  pub some_inodes_per_group : 0 < s.inodes_per_group
  pub inode_room : 128 ≤ s.inode_size
  pub reserved_inodes : 11 ≤ s.first_inode
  pub desc_room : s.desc_size ≤ 64

module _ (rest : Memory) where
  -- `ext4_sb_check` accepts a superblock exactly if its fields are in range and its checksum verifies.
  sb_check_iff :
      (s : Sblock)
      → (sb_check rest s ≡ true → IsChecked s × (sb_verify_csum rest s ≡ true))
        × (IsChecked s → sb_verify_csum rest s ≡ true → sb_check rest s ≡ true)
  unfolding sb_check get_desc_size
  sb_check_iff s = (λ t. ground arith, λ v t. ground arith)

  -- The bytes that the checksum is of.
  abbrev pub covered : Sblock → List ℕ
  covered s = slice (sb_memory rest s) 0 checksum_at

  covered-checksum : (s : Sblock) (c : ℕ) → covered (record s { checksum = c }) ≡ covered s
  covered-checksum s c =
      slice-same (sb_memory rest s) (sb_memory rest (record s { checksum = c })) 0 checksum_at
        (λ x low high. sb_memory-checksum rest s c x (omega arith))

  sb_csum-checksum :
      (s : Sblock) (c : ℕ) → sb_csum rest (record s { checksum = c }) ≡ sb_csum rest s
  unfolding sb_csum
  sb_csum-checksum s c = ap (crc32c crc32_init) (covered-checksum s c)

  pub sb_csum-serial :
      (s : Sblock) → AllBytes rest → sb_csum rest s ≡ serial 0x82f63b78 0xffffffff (covered s)
  unfolding sb_csum
  sb_csum-serial s bytes =
      (crc32-serial crc32_init (covered s)
        (slice-IsBytes _ 0 checksum_at (sb_memory-bytes rest s bytes))).1

  pub sb_set_csum-on :
      (s : Sblock)
      → feature_ro_com s ro_com_metadata_csum ≡ true
      → sb_set_csum rest s ≡ record s { checksum = sb_csum rest s }
  unfolding sb_set_csum
  sb_set_csum-on s on =
      ap (λ (b : Bool). if not b then s else record s { checksum = sb_csum rest s }) on

  pub sb_verify_csum-wrong :
      (s : Sblock)
      → feature_ro_com s ro_com_metadata_csum ≡ true
      → s.checksum ≢ sb_csum rest s
      → sb_verify_csum rest s ≡ false
  unfolding sb_verify_csum
  sb_verify_csum-wrong s on wrong = ground arith

  -- A superblock whose checksum has been set verifies, if the checksum's type is CRC32C or the feature
  -- is off, and where the feature is on the checksum is the serial CRC, of the polynomial 0x82f63b78 and
  -- from 0xffffffff, of the 1020 bytes of the superblock before it.
  pub verify-sb_set_csum :
      (s : Sblock)
      → AllBytes rest
      → (feature_ro_com s ro_com_metadata_csum ≡ false) ⊎ (s.checksum_type ≡ checksum_crc32c)
      → let t = sb_set_csum rest s in
        (sb_verify_csum rest t ≡ true)
        × (feature_ro_com s ro_com_metadata_csum ≡ true
            → t.checksum ≡ serial 0x82f63b78 0xffffffff (slice (sb_memory rest t) 0 1020))
  unfolding sb_verify_csum sb_set_csum feature_ro_com
  verify-sb_set_csum s bytes kind = (
    ground (arith, sb_csum-checksum s (sb_csum rest s)),
    λ on.
        ap (λ (t : Sblock). t.checksum) (sb_set_csum-on s on)
        ∙ sb_csum-serial s bytes
        ∙ ap (serial 0x82f63b78 0xffffffff)
            (sym (covered-checksum s (sb_csum rest s)) ∙ ap covered (sym (sb_set_csum-on s on))),
  )
