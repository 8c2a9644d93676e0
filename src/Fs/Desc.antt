-- ===== src/Fs/Desc.antt =====
-- References to group descriptors: `ext4_fs_get_descriptor_block`, `ext4_fs_get_block_group_ref`
-- and `ext4_fs_put_block_group_ref` of SharpExt4/lwext4/src/ext4_fs.c.
-- A reference to group `bgid` is its flag `dirty`; the descriptor is `groups bgid` of the state. The
-- result of the checksum's verification is only printed, so it is left out.
use initramfstool.Base.{
  ℕ, ◌+◌, ◌/◌, Bool, true, false, not, ◌||◌, List, ltb, if◌then◌else◌, u32, u64,
}
use initramfstool.Super.{
  Sblock, get_block_size, get_desc_size, feature_incom, incom_meta_bg, is_super_in_bg, to_number,
}
use initramfstool.BlockGroup.{Bgroup, has_flag, set_flag, clear_flag}
use initramfstool.Address.{first_bg_block_no}
use initramfstool.Fs.Monad.{
  Fs, M, get, modify, pure, on_error, ◌>>=◌, ◌>>◌, block_get, block_set, write_group,
  set_block_dirty,
}
use initramfstool.Fs.Csum.{bg_checksum}
use initramfstool.Fs.Uninit.{init_block_bitmap, init_inode_bitmap, init_inode_table}

unfoldable pub get_descriptor_block : Sblock → ℕ → ℕ → ℕ
get_descriptor_block s bgid dsc_per_block =
    let dsc_id = bgid / dsc_per_block in
    if not (feature_incom s incom_meta_bg) || ltb dsc_id s.first_meta_bg
    then u32 (u32 (s.first_data_block + dsc_id) + 1)
    else u64 (to_number (is_super_in_bg s bgid) + first_bg_block_no s bgid)

abbrev pub inode_uninit : ℕ
inode_uninit = 0x0001

abbrev pub block_uninit : ℕ
block_uninit = 0x0002

abbrev pub itable_zeroed : ℕ
itable_zeroed = 0x0004

abbrev pub map_group : ℕ → (Bgroup → Bgroup) → M (Unit {0})
map_group bgid f = modify λ s. write_group s bgid (f (s.groups bgid))

-- The branch on BLOCK_UNINIT; the value is `ref->dirty` after it.
unfoldable pub ready_blocks : ℕ → Bool → M Bool
ready_blocks bgid false = pure false
ready_blocks bgid true = do
  on_error (init_block_bitmap bgid) block_set
  map_group bgid (λ bg. clear_flag bg block_uninit)
  pure true

-- The inode table is cleared if the flag does not say that it has been.
unfoldable pub ready_table : ℕ → Bool → M (Unit {0})
ready_table bgid true = pure tt
ready_table bgid false = do
  on_error (init_inode_table bgid) block_set
  map_group bgid (λ bg. set_flag bg itable_zeroed)

-- The branch on INODE_UNINIT.
unfoldable pub ready_inodes : ℕ → Bool → Bool → M Bool
ready_inodes bgid dirty false = pure dirty
ready_inodes bgid dirty true = do
  on_error (init_inode_bitmap bgid) block_set
  map_group bgid (λ bg. clear_flag bg inode_uninit)
  s ← get
  ready_table bgid (has_flag (s.groups bgid) itable_zeroed)
  pure true

unfoldable pub get_block_group_ref : ℕ → M Bool
get_block_group_ref bgid = do
  block_get
  s ← get
  dirty ← ready_blocks bgid (has_flag (s.groups bgid) block_uninit)
  s' ← get
  ready_inodes bgid dirty (has_flag (s'.groups bgid) inode_uninit)

-- `ext4_fs_put_block_group_ref` up to the call of `ext4_block_set`. `image bg` is the memory of `*bg`.
unfoldable pub close_group : (Bgroup → List ℕ) → ℕ → Bool → Fs → Fs
close_group image bgid false s = s
close_group image bgid true s =
    let bg = s.groups bgid in
    let dsc_cnt = get_block_size s.sb / get_desc_size s.sb in
    set_block_dirty (write_group s bgid (record bg { checksum = bg_checksum image s.sb bgid bg }))
      (get_descriptor_block s.sb bgid dsc_cnt)

unfoldable pub put_block_group_ref : (Bgroup → List ℕ) → ℕ → Bool → M (Unit {0})
put_block_group_ref image bgid dirty = do modify (close_group image bgid dirty); block_set
