-- ===== src/Blockdev/Tests.antt =====
-- Runs of the device with its cache on a small device, and the properties at concrete inputs.
use initramfstool.Base.{ℕ, ◌+◌, ◌*◌, ◌<◌, ◌≡◌, refl, arith, false, List, [], ◌∷◌, inr, length}
use initramfstool.Bdev.{
  Bdev, eok, read_span, write_span, bdif_bread, bdif_bwrite, pba, pb_cnt, blocks_get_direct,
  blocks_set_direct,
}
use initramfstool.Bdev.Direct.{IsAligned, block_at, blocks_get_direct-blocks_set_direct}
use initramfstool.Bcache.{
  has, insert, remove, init_dynamic, insert_dirty_node, remove_dirty_node, flush_buf, lower, lowest,
  drop_buf, add_buf, alloc, put_dirty, put_last, free, is_full,
}
use initramfstool.Bcache.Valid.{view}
use initramfstool.Blockdev.{
  get, set, set_dirty, evict, shake_round, shake, cache_shake, get_noread, read_in, flush_round,
  flush_list, cache_flush,
}
use initramfstool.Blockdev.Held.{HasCounters, IsHeld}
use initramfstool.Blockdev.Shaken.{HasRoom, cache_shake-HasRoom}
use initramfstool.Blockdev.Listed.{IsPutOff, cache_flush_durable}
use initramfstool.Blockdev.Run.{
  Memory, update, take, change, put, Run, start, next, Follows, init_dynamic-Follows, Run-Follows,
  Run-get,
}

-- Eighteen bytes, each with its address: two before the partition, which has four blocks of four bytes.
abbrev pub device : List ℕ → Bdev
device outcomes = record {
  ph_bsize = 2;
  ph_refctr = 1;
  part_offset = 2;
  part_size = 16;
  lg_bsize = 4;
  lg_bcnt = 4;
  cache_write_back = 1;
  disk = λ a. a;
  outcomes = outcomes;
  bread_ctr = 0;
  bwrite_ctr = 0;
  cnt = 1;
  lru_ctr = 0;
  ref_blocks = 0;
  max_ref_blocks = 0;
  dont_shake = false;
  buf = λ j. record {
    contents = [];
    lru_id = 0;
    refctr = 0;
    uptodate = false;
    dirty = false;
    flush = false;
    tmp = false;
    on_dirty_list = false;
  };
  lba_root = [];
  lru_root = [];
  dirty_list = [];
  fresh = 7 ∷ 7 ∷ 7 ∷ 7 ∷ [];
}

pub device-IsAligned : (outcomes : List ℕ) → IsAligned (device outcomes)
device-IsAligned outcomes = record {
  some_ph = omega arith;
  whole = refl;
  lg_fits = omega arith;
  part_fits = omega arith;
}

abbrev pub bytes : List ℕ
bytes = 9 ∷ 8 ∷ 7 ∷ 6 ∷ []

abbrev pub start_state : List ℕ → Bdev
start_state outcomes = init_dynamic (device outcomes) 1

-- Block 1 is taken, changed and given back.
abbrev pub taken : List ℕ → Bdev
taken outcomes = (get (start_state outcomes) 1).1

abbrev pub changed : List ℕ → Bdev
changed outcomes = set_dirty (taken outcomes) 1 bytes

abbrev pub returned : List ℕ → Bdev
returned outcomes = (set (changed outcomes) 1).1

test1 : (get (start_state []) 1).0 ≡ 0
unfolding get get_noread cache_shake shake shake_round lowest is_full alloc has add_buf insert
    read_in blocks_get_direct bdif_bread read_span pba pb_cnt init_dynamic
test1 = refl

test2 : (returned []).dirty_list ≡ 1 ∷ []
unfolding set get get_noread cache_shake shake shake_round lowest is_full alloc has add_buf insert
    read_in blocks_get_direct bdif_bread read_span pba pb_cnt init_dynamic set_dirty free put_last
    put_dirty insert_dirty_node flush_buf blocks_set_direct bdif_bwrite write_span
test2 = refl

counters : HasCounters (cache_shake (start_state [])).1 1
unfolding get get_noread cache_shake shake shake_round lowest is_full alloc has add_buf insert
    read_in blocks_get_direct bdif_bread read_span pba pb_cnt init_dynamic
counters = (omega arith, omega arith)

taken-IsHeld : IsHeld (taken []) 1
unfolding get get_noread cache_shake shake shake_round lowest is_full alloc has add_buf insert
    read_in blocks_get_direct bdif_bread read_span pba pb_cnt init_dynamic
taken-IsHeld = (refl, omega arith)

changed-IsHeld : IsHeld (changed []) 1
unfolding get get_noread cache_shake shake shake_round lowest is_full alloc has add_buf insert
    read_in blocks_get_direct bdif_bread read_span pba pb_cnt init_dynamic set_dirty
changed-IsHeld = (refl, omega arith)

sized : length bytes ≡ (taken []).lg_bsize
unfolding get get_noread cache_shake shake shake_round lowest is_full alloc has add_buf insert
    read_in blocks_get_direct bdif_bread read_span pba pb_cnt init_dynamic
sized = refl

plain : ((changed []).buf 1).tmp ≡ false
unfolding get get_noread cache_shake shake shake_round lowest is_full alloc has add_buf insert
    read_in blocks_get_direct bdif_bread read_span pba pb_cnt init_dynamic set_dirty
plain = refl

abbrev pub memory : Memory
memory = block_at (device [])

pub begun : Follows (start_state []) memory
begun = init_dynamic-Follows (device []) 1 (device-IsAligned []) refl

pub calls : Run (start_state []) memory (returned []) (update memory 1 bytes)
calls =
    next (next (next start (take 1 counters)) (change 1 bytes taken-IsHeld sized))
      (put 1 changed-IsHeld plain)

Run-Follows_example : Follows (returned []) (update memory 1 bytes)
Run-Follows_example = Run-Follows calls begun

again : HasCounters (cache_shake (returned [])).1 2
unfolding get get_noread cache_shake shake shake_round lowest is_full alloc has add_buf insert
    read_in blocks_get_direct bdif_bread read_span pba pb_cnt init_dynamic set set_dirty free
    put_last put_dirty insert_dirty_node flush_buf blocks_set_direct bdif_bwrite write_span evict
    remove drop_buf remove_dirty_node lower
again = (omega arith, omega arith)

read_again : (get (returned []) 2).0 ≡ eok
unfolding get get_noread cache_shake shake shake_round lowest is_full alloc has add_buf insert
    read_in blocks_get_direct bdif_bread read_span pba pb_cnt init_dynamic set set_dirty free
    put_last put_dirty insert_dirty_node flush_buf blocks_set_direct bdif_bwrite write_span evict
    remove drop_buf remove_dirty_node lower
read_again = refl

-- Block 2 is read while the cache has no room: block 1 is written and dropped.
Run-get_example : ((get (returned []) 2).1.buf 2).contents ≡ update memory 1 bytes 2
Run-get_example = Run-get 2 calls begun again read_again

ready : (returned []).dont_shake ≡ false
unfolding get get_noread cache_shake shake shake_round lowest is_full alloc has add_buf insert
    read_in blocks_get_direct bdif_bread read_span pba pb_cnt init_dynamic set set_dirty free
    put_last put_dirty insert_dirty_node flush_buf blocks_set_direct bdif_bwrite write_span
ready = refl

shaken : (cache_shake (returned [])).0 ≡ eok
unfolding get get_noread cache_shake shake shake_round lowest is_full alloc has add_buf insert
    read_in blocks_get_direct bdif_bread read_span pba pb_cnt init_dynamic set set_dirty free
    put_last put_dirty insert_dirty_node flush_buf blocks_set_direct bdif_bwrite write_span evict
    remove drop_buf remove_dirty_node lower
shaken = refl

cache_shake-HasRoom_example : HasRoom (cache_shake (returned [])).1
cache_shake-HasRoom_example =
    cache_shake-HasRoom (returned []) (Follows.valid (Run-Follows calls begun)) ready shaken

flushed : (cache_flush (returned [])).0 ≡ eok
unfolding get get_noread cache_shake shake shake_round lowest is_full alloc has add_buf insert
    read_in blocks_get_direct bdif_bread read_span pba pb_cnt init_dynamic set set_dirty free
    put_last put_dirty insert_dirty_node flush_buf blocks_set_direct bdif_bwrite write_span
    cache_flush flush_list flush_round remove remove_dirty_node
flushed = refl

put_off : IsPutOff (returned []) 1
unfolding get get_noread cache_shake shake shake_round lowest is_full alloc has add_buf insert
    read_in blocks_get_direct bdif_bread read_span pba pb_cnt init_dynamic set set_dirty free
    put_last put_dirty insert_dirty_node flush_buf blocks_set_direct bdif_bwrite write_span
put_off = inr refl

on_device : 1 < (returned []).lg_bcnt
unfolding get get_noread cache_shake shake shake_round lowest is_full alloc has add_buf insert
    read_in blocks_get_direct bdif_bread read_span pba pb_cnt init_dynamic set set_dirty free
    put_last put_dirty insert_dirty_node flush_buf blocks_set_direct bdif_bwrite write_span
on_device = omega arith

cache_flush_durable_example : block_at (cache_flush (returned [])).1 1 ≡ view (returned []) 1
cache_flush_durable_example =
    cache_flush_durable (returned []) 1 (Follows.valid (Run-Follows calls begun)) flushed put_off
      on_device

blocks_get_direct-blocks_set_direct_example :
    let (r, t) = blocks_set_direct (device []) bytes 1 1 in
    (r ≡ eok)
    × ((a : ℕ) → t.disk a ≡ write_span (λ a. a) (2 + 1 * 4) bytes a)
    × ((blocks_get_direct (device []) 2 1).1 ≡ read_span (λ a. a) (2 + 2 * 4) 4)
    × ((blocks_get_direct t 2 1).1 ≡ (blocks_get_direct (device []) 2 1).1)
blocks_get_direct-blocks_set_direct_example =
    blocks_get_direct-blocks_set_direct (device []) (device-IsAligned []) bytes 1 2 refl refl
      (omega arith) (omega arith) refl
