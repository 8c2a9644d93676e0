-- ===== src/Ialloc/Effect.antt =====
-- What a change of one inode bitmap, of its group's counters and of the group's checksum leaves.
use initramfstool.Base.{==-self, ℕ, ◌≡◌, refl, true, List, Bool-cases, inl, inr}
use initramfstool.Super.{Sblock, feature_ro_com, ro_com_metadata_csum, get_desc_size}
use initramfstool.BlockGroup.{Bgroup, get_inode_bitmap, get_free_inodes_count, get_used_dirs_count}
use initramfstool.Fs.Monad.{Fs, write_group}
use initramfstool.Fs.Csum.{ialloc_set_bitmap_csum}
use initramfstool.Fs.Desc.{close_group}
use initramfstool.Ialloc.{inode_bitmap, write_inode_bitmap, set_sb_free_inodes}

-- The checksum of a bitmap is apart from the fields that the allocator reads.
pub csum_keeps :
    (sb : Sblock) (bg : Bgroup) (bytes : List ℕ)
    → (get_inode_bitmap (ialloc_set_bitmap_csum sb bg bytes) sb ≡ get_inode_bitmap bg sb)
      × (get_free_inodes_count (ialloc_set_bitmap_csum sb bg bytes) sb
          ≡ get_free_inodes_count bg sb)
      × (get_used_dirs_count (ialloc_set_bitmap_csum sb bg bytes) sb ≡ get_used_dirs_count bg sb)
unfolding ialloc_set_bitmap_csum get_inode_bitmap get_free_inodes_count get_used_dirs_count
csum_keeps sb bg bytes = elim (Bool-cases (feature_ro_com sb ro_com_metadata_csum)) [
  | inl e ↦ rw e (refl, refl, refl)
  | inr e ↦ rw e (refl, refl, refl)
]

module _ (image : Bgroup → List ℕ) (bgid n : ℕ) (change : List ℕ → List ℕ) (f : Bgroup → Bgroup)
    (s : Fs) (keeps : (bg : Bgroup) → get_inode_bitmap (f bg) s.sb ≡ get_inode_bitmap bg s.sb) where
  -- The state after the change has been written, the group put back and the superblock counted.
  unfoldable pub after : Fs
  after =
      let w = write_inode_bitmap bgid change s in
      set_sb_free_inodes n (close_group image bgid true (write_group w bgid (f (w.groups bgid))))

  -- The group while its counters are changed.
  unfoldable pub written : Bgroup
  written = ialloc_set_bitmap_csum s.sb (s.groups bgid) (change (inode_bitmap s bgid))

  pub inode_bitmap-after : inode_bitmap after bgid ≡ change (inode_bitmap s bgid)
  unfolding after close_group get_inode_bitmap get_desc_size written
  inode_bitmap-after =
      let lba = get_inode_bitmap (s.groups bgid) s.sb in
      let (k, _, _) = csum_keeps s.sb (s.groups bgid) (change (inode_bitmap s bgid)) in
      simp (==-self bgid, keeps written, k, ==-self lba) refl

  pub free_inodes-after :
      get_free_inodes_count (after.groups bgid) after.sb ≡ get_free_inodes_count (f written) s.sb
  unfolding after close_group get_free_inodes_count get_desc_size written
  free_inodes-after = simp (==-self bgid) refl

  pub used_dirs-after :
      get_used_dirs_count (after.groups bgid) after.sb ≡ get_used_dirs_count (f written) s.sb
  unfolding after close_group get_used_dirs_count get_desc_size written
  used_dirs-after = simp (==-self bgid) refl

  pub sb_free-after : after.sb.free_inodes_count ≡ n
  unfolding after close_group
  sb_free-after = refl

  pub held-after : after.held ≡ s.held
  unfolding after close_group
  held-after = refl
