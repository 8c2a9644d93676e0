-- ===== src/Balloc/Effect.antt =====
-- What a change of one bitmap, of the three counters and of the group's checksum leaves in the state.
use initramfstool.Base.{
  ==-self, ℕ, ◌^◌, ◌<◌, ◌≡◌, refl, arith, true, List, u64, Bool-cases, inl, inr,
}
use initramfstool.Super.{
  Sblock, get_free_blocks_cnt, set_free_blocks_cnt, feature_ro_com, ro_com_metadata_csum,
}
use initramfstool.Super.Fields.{get_desc_size-set_free_blocks_cnt, get-set_blocks_cnt}
use initramfstool.BlockGroup.{
  Bgroup, get_block_bitmap, get_free_blocks_count, set_free_blocks_count,
}
use initramfstool.BlockGroup.Fields.{kept, get-set_counters}
use initramfstool.Fs.Monad.{Fs}
use initramfstool.Fs.Csum.{balloc_set_bitmap_csum}
use initramfstool.Fs.Desc.{close_group}
use initramfstool.Balloc.{bitmap, write_bitmap, set_counters}

-- And from the count of free blocks.
get_free_blocks_count-csum :
    (sb : Sblock) (bg : Bgroup) (bytes : List ℕ)
    → get_free_blocks_count (balloc_set_bitmap_csum sb bg bytes) sb ≡ get_free_blocks_count bg sb
unfolding balloc_set_bitmap_csum get_free_blocks_count
get_free_blocks_count-csum sb bg bytes =
    elim (Bool-cases (feature_ro_com sb ro_com_metadata_csum)) [
      | inl e ↦ rw e refl
      | inr e ↦ rw e refl
    ]

-- The count that a group has while its bitmap is being changed.
pub free_while_written :
    (bgid : ℕ) (change : List ℕ → List ℕ) (s : Fs)
    → get_free_blocks_count ((write_bitmap bgid change s).groups bgid) s.sb
      ≡ get_free_blocks_count (s.groups bgid) s.sb
free_while_written bgid change s =
    rw (==-self bgid) (get_free_blocks_count-csum s.sb (s.groups bgid) (change (bitmap s bgid)))

-- A count that fits in 16 bits fits in the field.
pub kept_small : (sb : Sblock) (n : ℕ) → n < 2 ^ 16 → kept sb 16 n ≡ n
kept_small sb n h = ground arith

module _ (image : Bgroup → List ℕ) (bgid : ℕ) (change : List ℕ → List ℕ) (n i b : ℕ) (s : Fs) where
  -- The state after the change has been written and the group has been put back.
  unfoldable pub after : Fs
  after = close_group image bgid true (set_counters bgid n i b (write_bitmap bgid change s))

  address-after :
      get_block_bitmap (after.groups bgid) after.sb ≡ get_block_bitmap (s.groups bgid) s.sb
  unfolding after close_group set_free_blocks_cnt set_free_blocks_count balloc_set_bitmap_csum
      get_block_bitmap
  address-after = elim (Bool-cases (feature_ro_com s.sb ro_com_metadata_csum)) [
    | inl e ↦ simp (==-self bgid, e, get_desc_size-set_free_blocks_cnt s.sb n)
    | inr e ↦ simp (==-self bgid, e, get_desc_size-set_free_blocks_cnt s.sb n)
  ]

  pub bitmap-after : bitmap after bgid ≡ change (bitmap s bgid)
  unfolding after get_block_bitmap close_group
  bitmap-after = rw address-after (simp (==-self (get_block_bitmap (s.groups bgid) s.sb)))

  pub sb-after : get_free_blocks_cnt after.sb ≡ u64 n
  unfolding after close_group
  sb-after = let (e, _, _, _) = get-set_blocks_cnt s.sb n in e

  pub group-after :
      get_free_blocks_count (after.groups bgid) after.sb ≡ kept (set_free_blocks_cnt s.sb n) 16 b
  unfolding after close_group get_free_blocks_count set_free_blocks_count
  group-after =
      let bg = balloc_set_bitmap_csum s.sb (s.groups bgid) (change (bitmap s bgid)) in
      let (e, _, _, _) = get-set_counters bg (set_free_blocks_cnt s.sb n) b in simp (==-self bgid) e

  pub held-after : after.held ≡ s.held
  unfolding after close_group
  held-after = refl

  pub invalidated-after : after.invalidated ≡ s.invalidated
  unfolding after close_group
  invalidated-after = refl
