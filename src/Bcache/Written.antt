-- ===== src/Bcache/Written.antt =====
-- What a write of one block, which may fail, leaves of the other blocks and of the cache.
use initramfstool.Base.{
  ℕ, ◌<◌, ◌≡◌, refl, arith, false, ◌&&◌, List, ◌==◌, if◌then◌else◌, length, Bool-cases, inl, inr,
}
use initramfstool.Bdev.{Bdev, eok, first_outcome, blocks_set_direct, bdif_bwrite, pba, pb_cnt}
use initramfstool.Bdev.Direct.{IsAligned, block_at, block_at-blocks_set_direct}
use initramfstool.Bcache.Frame.{IsFrame}

-- A write to the device.
module _ (k : ℕ) (s : Bdev) (a : IsAligned s) (inside : k < s.lg_bcnt) (bytes : List ℕ)
    (size : length bytes ≡ s.lg_bsize) where
  block_at-refused :
      (j : ℕ)
      → (first_outcome s.outcomes == eok) ≡ false
      → block_at (blocks_set_direct s bytes k 1).1 j ≡ block_at s j
  unfolding blocks_set_direct bdif_bwrite block_at pba pb_cnt
  block_at-refused j e = rw e refl

  pub block_at-write :
      (j : ℕ)
      → j < s.lg_bcnt
      → block_at (blocks_set_direct s bytes k 1).1 j
        ≡ (if first_outcome s.outcomes == eok && k == j then bytes else block_at s j)
  block_at-write j h = elim (Bool-cases (first_outcome s.outcomes == eok)) [
    | inl e ↦ rw e (block_at-blocks_set_direct s a bytes k j size inside h (ground arith))
    | inr e ↦ rw e (block_at-refused j e)
  ]

  pub write-IsFrame : IsFrame k s (blocks_set_direct s bytes k 1).1
  unfolding blocks_set_direct bdif_bwrite
  write-IsFrame = record {
    layout = record {
      ph_bsize = refl;
      part_offset = refl;
      lg_bsize = refl;
      lg_bcnt = refl;
      fresh = refl;
    };
    bufs = λ j ne. refl;
    nodes = λ j ne. refl;
    lru = λ j ne. refl;
    listed = λ j ne. refl;
    blocks = λ j ne h. ground (arith, block_at-write j h);
  }
