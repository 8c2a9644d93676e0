-- ===== src/Blockdev.antt =====
-- The block device with its cache, as the rest of the library calls it:
-- SharpExt4/lwext4/src/ext4_blockdev.c, and `ext4_bcache_set_dirty` of include/ext4_bcache.h.
-- The loops run on fuel: the length of the list that they empty, which each round makes shorter.
pub mod Unseen
pub mod Shaken
pub mod Held
pub mod Got
pub mod Listed
pub mod Cleaned
pub mod Run
pub mod Bytes
pub mod Tests
pub mod Examples
use initramfstool.Base.{
  ℕ, zero, suc, ◌+◌, ◌-◌, ◌*◌, ◌/◌, ◌%◌, ◌^◌, Bool, true, false, not, ◌&&◌, ◌||◌, Option, none,
  some, List, [], ◌∷◌, ◌==◌, ltb, leb, if◌then◌else◌, length, u32,
}
use initramfstool.Bdev.{Buf, Bdev, eok, blocks_get_direct, first_outcome, later_outcomes}
use initramfstool.Bcache.{
  has, store, flush_buf, lowest_lru, drop_buf, get_found, alloc, free, is_full,
}

abbrev pub eio : ℕ
eio = 5

abbrev pub enxio : ℕ
enxio = 6

-- The callbacks `open` and `close` answer with the next outcome.
unfoldable pub init : Bdev → ℕ × Bdev
init s =
    let r = first_outcome s.outcomes in
    let s1 : Bdev = record s { outcomes = later_outcomes s.outcomes } in
    if s.ph_refctr == 0
    then if r == eok then (eok, record s1 { ph_refctr = 1 }) else (r, s1)
    else (eok, record s { ph_refctr = u32 (s.ph_refctr + 1) })

unfoldable pub fini : Bdev → ℕ × Bdev
fini s =
    let r = first_outcome s.outcomes in
    if s.ph_refctr == 0
    then (eok, s)
    else if s.ph_refctr - 1 == 0
    then (r, record s { ph_refctr = s.ph_refctr - 1; outcomes = later_outcomes s.outcomes })
    else (eok, record s { ph_refctr = s.ph_refctr - 1 })

unfoldable pub set_lb_size : Bdev → ℕ → Bdev
set_lb_size s lb_bsize = record s { lg_bsize = lb_bsize; lg_bcnt = s.part_size / lb_bsize }

unfoldable pub flush_lba : Bdev → ℕ → ℕ × Bdev
flush_lba s lba =
    let (r, s1) = flush_buf (get_found s lba) lba in
    if has s.lba_root lba then (r, free s1 lba) else (eok, s)

-- One round of the loop of `ext4_block_cache_shake`, for the buffer with the lowest LRU id.
unfoldable pub evict : Bdev → ℕ → ℕ × Bdev
evict s lba =
    let (r, s1) = flush_buf s lba in
    if (s.buf lba).dirty
    then if r == eok then (eok, drop_buf s1 lba) else (r, s1)
    else (eok, drop_buf s lba)

-- The loop's condition and body; `next` is the rounds after this one.
unfoldable pub shake_round : (Bdev → ℕ × Bdev) → Option ℕ → Bdev → ℕ × Bdev
shake_round next none s = (eok, s)
shake_round next (some lba) s =
    let (r, s1) = evict s lba in
    if is_full s then if r == eok then next s1 else (r, s1) else (eok, s)

unfoldable pub shake : ℕ → Bdev → ℕ × Bdev
shake zero s = (eok, s)
shake (suc fuel) s = shake_round (shake fuel) (lowest_lru s) s

unfoldable pub cache_shake : Bdev → ℕ × Bdev
cache_shake s =
    let (r, s1) = shake (length s.lru_root) (record s { dont_shake = true }) in
    if s.dont_shake then (eok, s) else (r, record s1 { dont_shake = false })

unfoldable pub get_noread : Bdev → ℕ → ℕ × Bdev
get_noread s lba =
    let (r, s1) = cache_shake s in
    if s.ph_refctr == 0
    then (eio, s)
    else if not (ltb lba s.lg_bcnt)
    then (enxio, s)
    else if r == eok
    then alloc s1 lba
    else (r, s1)

-- The buffer is held but not up to date.
unfoldable pub read_in : Bdev → ℕ → ℕ × Bdev
read_in s lba =
    let (r, bytes, s1) = blocks_get_direct s lba 1 in
    if r == eok
    then (eok, store s1 lba (record (s1.buf lba) { contents = bytes; uptodate = true }))
    else (r, free s1 lba)

unfoldable pub get : Bdev → ℕ → ℕ × Bdev
get s lba =
    let (r, s1) = get_noread s lba in
    if r == eok then if (s1.buf lba).uptodate then (eok, s1) else read_in s1 lba else (r, s1)

unfoldable pub set : Bdev → ℕ → ℕ × Bdev
set s lba = if s.ph_refctr == 0 then (eio, s) else (eok, free s lba)

-- `ext4_bcache_set_dirty`, by a caller that holds the block and has filled it with `bytes`.
unfoldable pub set_dirty : Bdev → ℕ → List ℕ → Bdev
set_dirty s lba bytes =
    store s lba (record (s.buf lba) { contents = bytes; uptodate = true; dirty = true })

-- The loop of `ext4_block_cache_flush`: its condition and body.
unfoldable pub flush_round : (Bdev → ℕ × Bdev) → List ℕ → Bdev → ℕ × Bdev
flush_round next [] s = (eok, s)
flush_round next (lba ∷ _) s =
    let (r, s1) = flush_buf s lba in if r == eok then next s1 else (r, s1)

unfoldable pub flush_list : ℕ → Bdev → ℕ × Bdev
flush_list zero s = (eok, s)
flush_list (suc fuel) s = flush_round (flush_list fuel) s.dirty_list s

unfoldable pub cache_flush : Bdev → ℕ × Bdev
cache_flush s = flush_list (length s.dirty_list) s

-- `cache_write_back` is a counter of 32 bits.
unfoldable pub cache_write_back : Bdev → Bool → ℕ × Bdev
cache_write_back s on_off =
    let ctr = if on_off then u32 (s.cache_write_back + 1) else s.cache_write_back - 1 in
    let s1 : Bdev = record s { cache_write_back = ctr } in
    if ctr == 0 then cache_flush s1 else (eok, s1)
