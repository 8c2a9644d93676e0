-- ===== src/Bcache.antt =====
-- The block cache: SharpExt4/lwext4/src/ext4_bcache.c, the inline functions of
-- include/ext4_bcache.h, and `ext4_block_flush_buf` of src/ext4_blockdev.c, which it calls.
-- The trees come from the macros of include/misc/tree.h: by their documentation they are sets in
-- order, here lists of addresses. Two buffers with one `lru_id`, for which the counter of 32 bits
-- must wrap, are left out, and so is the callback that the journal may hang on a buffer (`end_write`).
pub mod Sets
pub mod Frame
pub mod Valid
pub mod Unlisted
pub mod Written
pub mod Flushed
pub mod Dropped
pub mod Found
pub mod Put
pub mod Returned
pub mod Lost
use initramfstool.Base.{
  ℕ, zero, suc, ◌+◌, ◌-◌, ◌*◌, ◌/◌, ◌%◌, ◌^◌, Bool, true, false, not, ◌&&◌, ◌||◌, Option, none,
  some, List, [], ◌∷◌, ◌==◌, ltb, leb, if◌then◌else◌, u32, u64,
}
use initramfstool.Super.{sub32}
use initramfstool.Bdev.{Buf, Bdev, eok, first_outcome, later_outcomes, blocks_set_direct}

abbrev pub enomem : ℕ
enomem = 12

-- RB_FIND.
unfoldable pub has : List ℕ → ℕ → Bool
has [] k = false
has (x ∷ l) k = x == k || has l k

-- RB_INSERT, which leaves the tree alone if the key is there.
unfoldable pub insert : ℕ → List ℕ → List ℕ
insert k [] = k ∷ []
insert k (x ∷ l) =
    let rest = x ∷ insert k l in if ltb k x then k ∷ x ∷ l else if k == x then x ∷ l else rest

-- RB_REMOVE and SLIST_REMOVE.
unfoldable pub remove : ℕ → List ℕ → List ℕ
remove k [] = []
remove k (x ∷ l) = let rest = remove k l in if k == x then rest else x ∷ rest

-- No buffer is there.
unfoldable pub init_dynamic : Bdev → ℕ → Bdev
init_dynamic s cnt = record s {
  cnt = cnt;
  lru_ctr = 0;
  ref_blocks = 0;
  max_ref_blocks = 0;
  dont_shake = false;
  lba_root = [];
  lru_root = [];
  dirty_list = [];
}

unfoldable pub fini_dynamic : Bdev → Bdev
fini_dynamic s = init_dynamic s 0

-- A change of the buffer at `lba`.
abbrev pub store : Bdev → ℕ → Buf → Bdev
store s lba b = record s { buf = λ j. if lba == j then b else s.buf j }

unfoldable pub insert_dirty_node : Bdev → ℕ → Bdev
insert_dirty_node s lba =
    let b = s.buf lba in
    if b.on_dirty_list then s else record (store s lba (record b { on_dirty_list = true })) {
      dirty_list = lba ∷ s.dirty_list;
    }

unfoldable pub remove_dirty_node : Bdev → ℕ → Bdev
remove_dirty_node s lba =
    let b = s.buf lba in
    if b.on_dirty_list
    then record (store s lba (record b { on_dirty_list = false })) {
      dirty_list = remove lba s.dirty_list;
    }
    else s

-- `ext4_bcache_clear_flag(buf, BC_DIRTY)`.
abbrev pub clear_dirty_flag : Bdev → ℕ → Bdev
clear_dirty_flag s lba = store s lba (record (s.buf lba) { dirty = false })

-- A dirty buffer that is up to date is written; an error leaves it dirty.
unfoldable pub flush_buf : Bdev → ℕ → ℕ × Bdev
flush_buf s lba =
    let b = s.buf lba in
    let (r, s1) = blocks_set_direct s b.contents lba 1 in
    if b.dirty && b.uptodate
    then if r == eok then (eok, clear_dirty_flag (remove_dirty_node s1 lba) lba) else (r, s1)
    else (eok, s)

-- The lower of a buffer and the lowest of the others.
unfoldable pub lower : (ℕ → Buf) → ℕ → Option ℕ → Option ℕ
lower buf x none = some x
lower buf x (some y) = if ltb (buf y).lru_id (buf x).lru_id then some y else some x

-- RB_MIN: the buffer with the lowest LRU id.
unfoldable pub lowest : (ℕ → Buf) → List ℕ → Option ℕ
lowest buf [] = none
lowest buf (x ∷ l) = lower buf x (lowest buf l)

abbrev pub lowest_lru : Bdev → Option ℕ
lowest_lru s = lowest s.buf s.lru_root

unfoldable pub drop_buf : Bdev → ℕ → Bdev
drop_buf s lba =
    let b = s.buf lba in
    let s1 : Bdev = if b.refctr == 0 then record s { lru_root = remove lba s.lru_root } else s in
    let s2 : Bdev = record s1 { lba_root = remove lba s1.lba_root } in
    let s3 = if b.dirty then remove_dirty_node s2 lba else s2 in
    record s3 { ref_blocks = sub32 s3.ref_blocks 1 }

unfoldable pub invalidate_buf : Bdev → ℕ → Bdev
invalidate_buf s lba =
    let s1 = if (s.buf lba).dirty then remove_dirty_node s lba else s in
    store s1 lba (record (s1.buf lba) { uptodate = false; dirty = false })

-- The rest of an ordered tree from the node with key `from` on; nothing if there is none.
unfoldable pub nodes_from : ℕ → List ℕ → List ℕ
nodes_from from [] = []
nodes_from from (x ∷ l) = let rest = nodes_from from l in if from == x then x ∷ l else rest

-- RB_FOREACH_FROM, up to `end`.
unfoldable pub invalidate_nodes : List ℕ → ℕ → Bdev → Bdev
invalidate_nodes [] end s = s
invalidate_nodes (x ∷ l) end s =
    let rest = invalidate_nodes l end (invalidate_buf s x) in if ltb end x then s else rest

unfoldable pub invalidate_lba : Bdev → ℕ → ℕ → Bdev
invalidate_lba s from cnt =
    invalidate_nodes (nodes_from from s.lba_root) (u64 (from + cnt + (2 ^ 64 - 1))) s

-- The buffer is not referenced: it leaves the LRU tree and the dirty list.
unfoldable pub leave_lru : Bdev → ℕ → Bdev
leave_lru s lba =
    let ctr = u32 (s.lru_ctr + 1) in
    let s1 : Bdev = record (store s lba (record (s.buf lba) { lru_id = ctr })) {
      lru_ctr = ctr;
      lru_root = remove lba s.lru_root;
    } in
    if (s1.buf lba).dirty then remove_dirty_node s1 lba else s1

abbrev pub inc_ref : Bdev → ℕ → Bdev
inc_ref s lba = store s lba (record (s.buf lba) { refctr = u32 ((s.buf lba).refctr + 1) })

-- The buffer is there, as the caller has found.
unfoldable pub get_found : Bdev → ℕ → Bdev
get_found s lba = inc_ref (if (s.buf lba).refctr == 0 then leave_lru s lba else s) lba

-- Whether the buffer was found.
unfoldable pub find_get : Bdev → ℕ → Bool × Bdev
find_get s lba = if has s.lba_root lba then (true, get_found s lba) else (false, s)

-- `ext4_buf_alloc` has given a buffer for `lba`.
unfoldable pub add_buf : Bdev → ℕ → Bdev
add_buf s lba =
    let ctr = u32 (s.lru_ctr + 1) in
    let blocks = u32 (s.ref_blocks + 1) in
    record s {
      lba_root = insert lba s.lba_root;
      ref_blocks = blocks;
      max_ref_blocks = if ltb s.max_ref_blocks blocks then blocks else s.max_ref_blocks;
      lru_ctr = ctr;
      buf = λ j.
          if lba == j
          then record {
            contents = s.fresh;
            lru_id = ctr;
            refctr = 1;
            uptodate = false;
            dirty = false;
            flush = false;
            tmp = false;
            on_dirty_list = false;
          }
          else s.buf j;
    }

-- The allocation of memory fails when the next outcome says so.
unfoldable pub alloc : Bdev → ℕ → ℕ × Bdev
alloc s lba =
    let r = first_outcome s.outcomes in
    let s1 : Bdev = record s { outcomes = later_outcomes s.outcomes } in
    if has s.lba_root lba
    then (eok, get_found s lba)
    else if r == eok
    then (eok, add_buf s1 lba)
    else (enomem, s1)

-- The last reference has been given back, and the buffer is dirty and up to date.
unfoldable pub put_dirty : Bdev → ℕ → Bdev
put_dirty s lba =
    let b = s.buf lba in
    let (_, s1) = flush_buf s lba in
    if not (s.cache_write_back == 0) && (not b.flush && not b.tmp)
    then insert_dirty_node s lba
    else store s1 lba (record (s1.buf lba) { flush = false })

-- The last reference has been given back.
unfoldable pub put_last : Bdev → ℕ → Bdev
put_last s lba =
    let b = s.buf lba in
    let s1 : Bdev = record s { lru_root = insert lba s.lru_root } in
    let s2 = if b.dirty && b.uptodate then put_dirty s1 lba else s1 in
    if not (s2.buf lba).uptodate || (s2.buf lba).tmp then drop_buf s2 lba else s2

-- The result is always EOK. `ext4_assert` stops the program where no reference is held, and where the
-- block is block 0: such a call does not return in the source, and what `free` gives for it says nothing.
unfoldable pub free : Bdev → ℕ → Bdev
free s lba =
    let ctr = sub32 (s.buf lba).refctr 1 in
    let s1 = store s lba (record (s.buf lba) { refctr = ctr }) in
    if ctr == 0 then put_last s1 lba else s1

unfoldable pub is_full : Bdev → Bool
is_full s = leb s.cnt s.ref_blocks

-- RB_FOREACH_SAFE over the tree as it was.
unfoldable pub cleanup_nodes : List ℕ → Bdev → Bdev
cleanup_nodes [] s = s
cleanup_nodes (x ∷ l) s = let (_, s1) = flush_buf s x in cleanup_nodes l (drop_buf s1 x)

unfoldable pub cleanup : Bdev → Bdev
cleanup s = cleanup_nodes s.lba_root s
