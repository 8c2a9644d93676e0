-- ===== src/Bcache/Lost.antt =====
-- What `ext4_bcache_free` does when the write of a temporary buffer fails.
use initramfstool.Base.{ℕ, ◌<◌, ◌≡◌, refl, ◌∙◌, arith, true, false, ◌==◌, ==-self}
use initramfstool.Super.{sub32}
use initramfstool.Bdev.{Buf, Bdev, pba, pb_cnt}
use initramfstool.Bdev.Direct.{block_at}
use initramfstool.Bcache.{has, store, flush_buf, free}
use initramfstool.Bcache.Flushed.{is_pending, succeeds, flush_buf_failed}
use initramfstool.Bcache.Dropped.{view-drop_buf}
use initramfstool.Bcache.Valid.{IsValid, IsStep-IsValid, view}
use initramfstool.Bcache.Put.{released, released-IsStep}
use initramfstool.Bcache.Returned.{
  handled, handled_on, is_over, put_dirty-at_once, put_dirty-tmp, rest, free_last, rest-IsSteady,
  rest_member,
}

-- A temporary buffer that nobody refers to.
module _ (k : ℕ) (s : Bdev) (v : IsValid s) (member : has s.lba_root k ≡ true)
    (tmp : (s.buf k).tmp ≡ true) (on : is_pending s k ≡ true) where
  over : is_over (handled s k) k ≡ true
  over = rw (handled_on k s v member on) (let t = put_dirty-tmp k s v member in ground arith)

  block_at-flag : (t : Bdev) (b : Buf) → block_at (store t k b) k ≡ block_at t k
  unfolding block_at pba pb_cnt
  block_at-flag t b = refl

  not_written : succeeds s ≡ false → block_at (handled s k) k ≡ block_at s k
  not_written failed =
      rw (handled_on k s v member on, put_dirty-at_once k s v member (ground arith))
        (block_at-flag (flush_buf s k).1 (record ((flush_buf s k).1.buf k) { flush = false })
          ∙ flush_buf_failed k s v member failed)

block_at-released : (k : ℕ) (s : Bdev) → block_at (released s k) k ≡ block_at s k
unfolding block_at pba pb_cnt
block_at-released k s = refl

-- The last reference to a temporary buffer with a pending write is given back and the device refuses the
-- write: the block is then seen as it is on the device, without the write. In a well-formed cache.
pub free_loses :
    (k : ℕ) (s : Bdev)
    → IsValid s
    → has s.lba_root k ≡ true
    → (s.buf k).refctr ≡ 1
    → (s.buf k).tmp ≡ true
    → is_pending s k ≡ true
    → succeeds s ≡ false
    → view (free s k) k ≡ block_at s k
free_loses k s v member one tmp on failed =
    let held : 0 < (s.buf k).refctr = omega arith in
    let last : (sub32 (s.buf k).refctr 1 == 0) ≡ true = rw one refl in
    let w = IsStep-IsValid v (released-IsStep k s v member held last) in
    let steady = rest-IsSteady k s v member held last in
    rw
      (
        free_last k s v member held last,
        over k (released s k) w member (rw (==-self k) tmp) (rw (==-self k) on),
      )
      (view-drop_buf k (rest k s v member held) (IsStep-IsValid v steady.step)
          (rest_member k s v member held last)
        ∙ not_written k (released s k) w member (rw (==-self k) tmp) (rw (==-self k) on) failed
        ∙ block_at-released k s)
