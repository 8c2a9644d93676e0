-- ===== src/Fs/Csum.antt =====
-- The checksums of the block and inode bitmaps (SharpExt4/lwext4/src/ext4_balloc.c and
-- src/ext4_ialloc.c), and of a group descriptor (`ext4_fs_bg_checksum` of src/ext4_fs.c).
use initramfstool.Base.{
  ℕ, ◌+◌, ◌-◌, ◌/◌, ◌%◌, ◌^◌, bit_and, Bool, true, false, not, ◌&&◌, List, [], ◌∷◌, ◌==◌, ltb,
  if◌then◌else◌, u16, u32, take, drop,
}
use initramfstool.Crc.{crc32c, crc16}
use initramfstool.Super.{
  Sblock, get_desc_size, feature_incom, feature_ro_com, ro_com_metadata_csum, max_desc_size,
}
use initramfstool.Super.Csum.{crc32_init}
use initramfstool.BlockGroup.{Bgroup}

abbrev pub ro_com_gdt_csum : ℕ
ro_com_gdt_csum = 0x0010

abbrev pub incom_64bit : ℕ
incom_64bit = 0x0080

-- The checksum of the first `size` bytes of a bitmap, after the uuid of the file system.
unfoldable pub bitmap_csum : Sblock → List ℕ → ℕ → ℕ
bitmap_csum sb bitmap size =
    if feature_ro_com sb ro_com_metadata_csum
    then crc32c (crc32c crc32_init sb.uuid) (take size bitmap)
    else 0

unfoldable pub balloc_bitmap_csum : Sblock → List ℕ → ℕ
balloc_bitmap_csum sb bitmap = bitmap_csum sb bitmap (sb.blocks_per_group / 8)

unfoldable pub ialloc_bitmap_csum : Sblock → List ℕ → ℕ
ialloc_bitmap_csum sb bitmap = bitmap_csum sb bitmap (u32 (sb.inodes_per_group + 7) / 8)

abbrev lo_csum : ℕ → ℕ
lo_csum checksum = u16 (bit_and checksum 0xffff)

abbrev hi_csum : ℕ → ℕ
hi_csum checksum = u16 (checksum / 2 ^ 16)

unfoldable pub balloc_set_bitmap_csum : Sblock → Bgroup → List ℕ → Bgroup
balloc_set_bitmap_csum sb bg bitmap =
    let checksum = balloc_bitmap_csum sb bitmap in
    if not (feature_ro_com sb ro_com_metadata_csum) then bg else record bg {
      block_bitmap_csum_lo = lo_csum checksum;
      block_bitmap_csum_hi =
          if get_desc_size sb == max_desc_size then hi_csum checksum else bg.block_bitmap_csum_hi;
    }

unfoldable pub balloc_verify_bitmap_csum : Sblock → Bgroup → List ℕ → Bool
balloc_verify_bitmap_csum sb bg bitmap =
    let checksum = balloc_bitmap_csum sb bitmap in
    if not (feature_ro_com sb ro_com_metadata_csum)
    then true
    else if not (bg.block_bitmap_csum_lo == lo_csum checksum)
    then false
    else if get_desc_size sb == max_desc_size && not (bg.block_bitmap_csum_hi == hi_csum checksum)
    then false
    else true

unfoldable pub ialloc_set_bitmap_csum : Sblock → Bgroup → List ℕ → Bgroup
ialloc_set_bitmap_csum sb bg bitmap =
    let checksum = ialloc_bitmap_csum sb bitmap in
    if not (feature_ro_com sb ro_com_metadata_csum) then bg else record bg {
      inode_bitmap_csum_lo = lo_csum checksum;
      inode_bitmap_csum_hi =
          if get_desc_size sb == max_desc_size then hi_csum checksum else bg.inode_bitmap_csum_hi;
    }

unfoldable pub ialloc_verify_bitmap_csum : Sblock → Bgroup → List ℕ → Bool
ialloc_verify_bitmap_csum sb bg bitmap =
    let checksum = ialloc_bitmap_csum sb bitmap in
    if not (feature_ro_com sb ro_com_metadata_csum)
    then true
    else if not (bg.inode_bitmap_csum_lo == lo_csum checksum)
    then false
    else if get_desc_size sb == max_desc_size && not (bg.inode_bitmap_csum_hi == hi_csum checksum)
    then false
    else true

-- The four bytes of a `uint32_t` in memory.
abbrev pub le32 : ℕ → List ℕ
le32 n = n % 256 ∷ n / 256 % 256 ∷ n / 65536 % 256 ∷ n / 16777216 % 256 ∷ []

-- The offset of the field `checksum` in a descriptor.
abbrev checksum_offset : ℕ
checksum_offset = 30

-- `image bg` is the memory of `*bg`, which the layout of the struct gives.
unfoldable pub bg_checksum : (Bgroup → List ℕ) → Sblock → ℕ → Bgroup → ℕ
bg_checksum image sb bgid bg =
    if feature_ro_com sb ro_com_metadata_csum
    then bit_and
        (crc32c (crc32c (crc32c crc32_init sb.uuid) (le32 bgid))
          (take (get_desc_size sb) (image (record bg { checksum = 0 }))))
        0xffff
    else if feature_ro_com sb ro_com_gdt_csum
    then (let crc =
          crc16 (crc16 (crc16 0xffff sb.uuid) (le32 bgid)) (take checksum_offset (image bg)) in
        let offset = checksum_offset + 2 in
        if feature_incom sb incom_64bit && ltb offset (get_desc_size sb)
        then crc16 crc (take (get_desc_size sb - offset) (drop offset (image bg)))
        else crc)
    else 0

unfoldable pub verify_bg_csum : (Bgroup → List ℕ) → Sblock → ℕ → Bgroup → Bool
verify_bg_csum image sb bgid bg =
    if not (feature_ro_com sb ro_com_metadata_csum)
    then true
    else bg_checksum image sb bgid bg == bg.checksum
