-- ===== src/Bdev.antt =====
-- A block device with its cache: the state of SharpExt4/lwext4/src/ext4_blockdev.c and
-- src/ext4_bcache.c (`struct ext4_blockdev`, `struct ext4_blockdev_iface` and `struct ext4_bcache` in
-- one record), and the transfers that go past the cache.
-- The callbacks `bread` and `bwrite` belong to the user of the library. By include/ext4_blockdev.h
-- they move whole blocks of `ph_bsize` bytes: `disk` is what the device holds, byte by byte. A call
-- returns the next of `outcomes`, and calls beyond the list succeed; a call that fails moves nothing.
pub mod Spans
pub mod Direct
use initramfstool.Base.{
  ℕ, zero, suc, ◌+◌, ◌-◌, ◌*◌, ◌/◌, ◌%◌, ◌^◌, Bool, true, false, not, ◌&&◌, ◌||◌, List, [], ◌∷◌,
  ◌==◌, ltb, leb, if◌then◌else◌, u32, u64, get_or, length, take,
}

-- `struct ext4_buf`, found by its `lba`. `flags` is its four bits.
pub record Buf : Type 0 where
  pub contents : List ℕ
  pub lru_id : ℕ
  pub refctr : ℕ
  pub uptodate : Bool
  pub dirty : Bool
  pub flush : Bool
  pub tmp : Bool
  pub on_dirty_list : Bool

-- `buf` is the memory of the buffers, by their address on the device. The trees and the list hold
-- the addresses of the buffers that are linked into them. `fresh` is what newly allocated memory holds.
pub record Bdev : Type 0 where
  pub ph_bsize : ℕ
  pub ph_refctr : ℕ
  pub part_offset : ℕ
  pub part_size : ℕ
  pub lg_bsize : ℕ
  pub lg_bcnt : ℕ
  pub cache_write_back : ℕ
  pub disk : ℕ → ℕ
  pub outcomes : List ℕ
  pub bread_ctr : ℕ
  pub bwrite_ctr : ℕ
  pub cnt : ℕ
  pub lru_ctr : ℕ
  pub ref_blocks : ℕ
  pub max_ref_blocks : ℕ
  pub dont_shake : Bool
  pub buf : ℕ → Buf
  pub lba_root : List ℕ
  pub lru_root : List ℕ
  pub dirty_list : List ℕ
  pub fresh : List ℕ

abbrev pub eok : ℕ
eok = 0

-- What the next call into a layer that is not modelled returns.
abbrev pub first_outcome : List ℕ → ℕ
first_outcome [] = eok
first_outcome (rc ∷ rest) = rc

abbrev pub later_outcomes : List ℕ → List ℕ
later_outcomes [] = []
later_outcomes (rc ∷ rest) = rest

-- The `n` bytes from address `start` on.
unfoldable pub read_span : (ℕ → ℕ) → ℕ → ℕ → List ℕ
read_span disk start zero = []
read_span disk start (suc n) = disk start ∷ read_span disk (start + 1) n

unfoldable pub write_span : (ℕ → ℕ) → ℕ → List ℕ → ℕ → ℕ
write_span disk start bytes a =
    if leb start a && ltb a (start + length bytes) then get_or bytes (a - start) 0 else disk a

-- `ext4_bdif_bread`: the bytes are of use only if the result is EOK.
unfoldable pub bdif_bread : Bdev → ℕ → ℕ → ℕ × List ℕ × Bdev
bdif_bread s blk_id blk_cnt = (
  first_outcome s.outcomes,
  read_span s.disk (blk_id * s.ph_bsize) (blk_cnt * s.ph_bsize),
  record s { outcomes = later_outcomes s.outcomes; bread_ctr = u32 (s.bread_ctr + 1) },
)

unfoldable pub bdif_bwrite : Bdev → List ℕ → ℕ → ℕ → ℕ × Bdev
bdif_bwrite s bytes blk_id blk_cnt =
    let r = first_outcome s.outcomes in
    (
      r,
      record s {
        outcomes = later_outcomes s.outcomes;
        bwrite_ctr = u32 (s.bwrite_ctr + 1);
        disk =
            if r == eok
            then write_span s.disk (blk_id * s.ph_bsize) (take (blk_cnt * s.ph_bsize) bytes)
            else s.disk;
      },
    )

-- The physical block where logical block `lba` starts, and how many physical blocks it has.
unfoldable pub pba : Bdev → ℕ → ℕ
pba s lba = u64 (u64 (lba * s.lg_bsize) + s.part_offset) / s.ph_bsize

unfoldable pub pb_cnt : Bdev → ℕ
pb_cnt s = s.lg_bsize / s.ph_bsize

unfoldable pub blocks_get_direct : Bdev → ℕ → ℕ → ℕ × List ℕ × Bdev
blocks_get_direct s lba cnt = bdif_bread s (pba s lba) (u32 (pb_cnt s * cnt))

unfoldable pub blocks_set_direct : Bdev → List ℕ → ℕ → ℕ → ℕ × Bdev
blocks_set_direct s bytes lba cnt = bdif_bwrite s bytes (pba s lba) (u32 (pb_cnt s * cnt))
