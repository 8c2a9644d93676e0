-- ===== src/Balloc/Taken.antt =====
-- The state in which the allocator leaves a group of which it has taken one block.
use initramfstool.Base.{
  ℕ, ◌+◌, ◌-◌, ◌*◌, ◌^◌, ◌<◌, ◌≡◌, arith, ◌||◌, List, ◌==◌, length, u64, IsBytes, ◌/◌,
}
use initramfstool.Bitmap.{bit_set, is_bit_set}
use initramfstool.BlockGroup.{Bgroup}
use initramfstool.Fs.Monad.{Fs}
use initramfstool.Balloc.Effect.{
  after, held-after, bitmap-after, sb-after, group-after, free_while_written, kept_small,
}
use initramfstool.Bitmap.Laws.{is_bit_set-bit_set}
use initramfstool.Super.{set_free_blocks_cnt, get_free_blocks_cnt, get_block_size, sub32}
use initramfstool.BlockGroup.{get_free_blocks_count}
use initramfstool.Inode.{get_blocks_count}
use initramfstool.Balloc.{inode_block_size, bitmap, write_bitmap}

-- The state after one block of a group has been taken and every reference has been given back.
unfoldable pub taken_state : (Bgroup → List ℕ) → ℕ → ℕ → Fs → Fs
taken_state image bgid idx s =
    let w = write_bitmap bgid (λ bmap. bit_set bmap idx) s in
    after image bgid (λ bmap. bit_set bmap idx) (u64 (get_free_blocks_cnt s.sb + 2 ^ 64 - 1))
      (u64 (get_blocks_count s.sb s.inode + get_block_size s.sb / inode_block_size))
      (sub32 (get_free_blocks_count (w.groups bgid) s.sb) 1) s

-- What has become of `s` when `t` has block `idx` of the group taken: of the group's bitmap the bit
-- and no other, of the two counters one, and of the references to buffers nothing.
pub record IsTaken (bgid idx : ℕ) (s t : Fs) : Type 0 where
  pub bits : (j : ℕ) → is_bit_set (bitmap t bgid) j ≡ (idx == j) || is_bit_set (bitmap s bgid) j
  pub sb_free : get_free_blocks_cnt t.sb + 1 ≡ get_free_blocks_cnt s.sb
  pub group_free :
      get_free_blocks_count (t.groups bgid) t.sb + 1 ≡ get_free_blocks_count (s.groups bgid) s.sb
  pub held_same : t.held ≡ s.held

-- The counters of free blocks, of which one can be taken.
pub record IsCounted (s : Fs) (bgid : ℕ) : Type 0 where
  pub some_sb : 0 < get_free_blocks_cnt s.sb
  pub fits_sb : get_free_blocks_cnt s.sb < 2 ^ 64
  pub some_group : 0 < get_free_blocks_count (s.groups bgid) s.sb
  pub fits_group : get_free_blocks_count (s.groups bgid) s.sb < 2 ^ 16

pub taken_state-IsTaken :
    (image : Bgroup → List ℕ) (bgid idx : ℕ) (s : Fs)
    → IsBytes (bitmap s bgid)
    → idx < 8 * length (bitmap s bgid)
    → IsCounted s bgid
    → IsTaken bgid idx s (taken_state image bgid idx s)
unfolding taken_state
taken_state-IsTaken image bgid idx s bytes room c =
    let change : List ℕ → List ℕ = λ bmap. bit_set bmap idx in
    let w = write_bitmap bgid change s in
    let n = u64 (get_free_blocks_cnt s.sb + 2 ^ 64 - 1) in
    let i = u64 (get_blocks_count s.sb s.inode + get_block_size s.sb / inode_block_size) in
    let b = sub32 (get_free_blocks_count (w.groups bgid) s.sb) 1 in
    let left = sub32 (get_free_blocks_count (s.groups bgid) s.sb) 1 in
    let small : left < 2 ^ 16 = omega (arith, c.some_group, c.fits_group) in
    record {
      bits = λ j.
          rw (bitmap-after image bgid change n i b s)
            (is_bit_set-bit_set (bitmap s bgid) idx j bytes room);
      sb_free = rw (sb-after image bgid change n i b s) (omega (arith, c.some_sb, c.fits_sb));
      group_free =
          rw (group-after image bgid change n i b s, free_while_written bgid change s)
            (omega (
              arith,
              c.some_group,
              c.fits_group,
              kept_small (set_free_blocks_cnt s.sb n) left small,
            ));
      held_same = held-after image bgid change n i b s;
    }
