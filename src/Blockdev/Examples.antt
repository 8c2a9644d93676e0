-- ===== src/Blockdev/Examples.antt =====
-- Bytes at an offset, the cache emptied, and a write that the device refuses, on the small device.
use initramfstool.Base.{ℕ, ◌<◌, ◌≡◌, refl, arith, true, false, List, [], ◌∷◌, length}
use initramfstool.Bdev.{
  Bdev, read_span, write_span, bdif_bread, bdif_bwrite, pba, pb_cnt, blocks_get_direct,
  blocks_set_direct,
}
use initramfstool.Bdev.Direct.{block_at}
use initramfstool.Bcache.{
  has, insert, init_dynamic, insert_dirty_node, flush_buf, lowest, add_buf, alloc, put_dirty,
  put_last, free, is_full,
}
use initramfstool.Bcache.Valid.{IsValid, IsStep-IsValid, view}
use initramfstool.Bcache.Lost.{free_loses}
use initramfstool.Bcache.Put.{flagged, flagged-IsSteady, IsSteady}
use initramfstool.Bcache.Flushed.{is_pending, succeeds}
use initramfstool.Blockdev.{
  get, set, set_dirty, shake_round, shake, cache_shake, get_noread, read_in,
}
use initramfstool.Blockdev.Held.{HasCounters, IsHeld}
use initramfstool.Blockdev.Run.{
  update, take, change, Run, start, next, Follows, init_dynamic-Follows, Run-Follows,
}
use initramfstool.Blockdev.Tests.{
  device, device-IsAligned, bytes, start_state, taken, changed, returned, calls, begun, memory,
}
use initramfstool.Blockdev.Bytes.{writebytes, readbytes}
use initramfstool.Blockdev.Bytes.Placed.{IsPlace}
use initramfstool.Blockdev.Bytes.Written.{IsWritten}
use initramfstool.Blockdev.Bytes.Stored.{writebytes-IsWritten}
use initramfstool.Blockdev.Bytes.Read.{IsRead}
use initramfstool.Blockdev.Bytes.Loaded.{readbytes-IsRead}
use initramfstool.Blockdev.Cleaned.{cleanup_writes_all}
use initramfstool.Bcache.{cleanup}

-- Four bytes from byte 3 of the partition, which is not the start of a physical block.
place : IsPlace (device []) 3 4
place = record {
  power = 1;
  size = refl;
  size_fits = omega arith;
  some = omega arith;
  whole = refl;
  opened = refl;
  inside = omega arith;
  fits = omega arith;
  len_fits = omega arith;
}

writebytes-IsWritten_example : IsWritten (device []) (writebytes (device []) 3 bytes) 5 bytes
writebytes-IsWritten_example = writebytes-IsWritten (device []) 3 bytes place refl

readbytes-IsRead_example : IsRead (device []) (readbytes (device []) 3 4) 5 4
readbytes-IsRead_example = readbytes-IsRead (device []) 3 4 place refl

quiet : (returned []).outcomes ≡ []
unfolding get get_noread cache_shake shake shake_round lowest is_full alloc has add_buf insert
    read_in blocks_get_direct bdif_bread read_span pba pb_cnt init_dynamic set set_dirty free
    put_last put_dirty insert_dirty_node flush_buf blocks_set_direct bdif_bwrite write_span
quiet = refl

cleanup_writes_all_example :
    ((cleanup (returned [])).lba_root ≡ [])
    × ((j : ℕ)
        → j < (returned []).lg_bcnt
        → block_at (cleanup (returned [])) j ≡ view (returned []) j)
cleanup_writes_all_example =
    cleanup_writes_all (returned []) (Follows.valid (Run-Follows calls begun)) quiet

-- Memory is there, the read succeeds and the write is refused.
abbrev refusing : List ℕ
refusing = 0 ∷ 0 ∷ 5 ∷ []

refusing_counters : HasCounters (cache_shake (start_state refusing)).1 1
unfolding get get_noread cache_shake shake shake_round lowest is_full alloc has add_buf insert
    read_in blocks_get_direct bdif_bread read_span pba pb_cnt init_dynamic
refusing_counters = (omega arith, omega arith)

refusing-IsHeld : IsHeld (taken refusing) 1
unfolding get get_noread cache_shake shake shake_round lowest is_full alloc has add_buf insert
    read_in blocks_get_direct bdif_bread read_span pba pb_cnt init_dynamic
refusing-IsHeld = (refl, omega arith)

refusing_sized : length bytes ≡ (taken refusing).lg_bsize
unfolding get get_noread cache_shake shake shake_round lowest is_full alloc has add_buf insert
    read_in blocks_get_direct bdif_bread read_span pba pb_cnt init_dynamic
refusing_sized = refl

refusing_calls : Run (start_state refusing) memory (changed refusing) (update memory 1 bytes)
refusing_calls =
    next (next start (take 1 refusing_counters)) (change 1 bytes refusing-IsHeld refusing_sized)

refusing-Follows : Follows (start_state refusing) memory
unfolding block_at pba pb_cnt
refusing-Follows = init_dynamic-Follows (device refusing) 1 (device-IsAligned refusing) refl

abbrev temporary : Bdev
temporary = flagged (changed refusing) 1 false true

member : has (changed refusing).lba_root 1 ≡ true
unfolding get get_noread cache_shake shake shake_round lowest is_full alloc has add_buf insert
    read_in blocks_get_direct bdif_bread read_span pba pb_cnt init_dynamic set_dirty
member = refl

temporary-IsValid : IsValid temporary
temporary-IsValid =
    let v = Follows.valid (Run-Follows refusing_calls refusing-Follows) in
    IsStep-IsValid v (IsSteady.step (flagged-IsSteady 1 (changed refusing) v member false true))

one : (temporary.buf 1).refctr ≡ 1
unfolding get get_noread cache_shake shake shake_round lowest is_full alloc has add_buf insert
    read_in blocks_get_direct bdif_bread read_span pba pb_cnt init_dynamic set_dirty
one = refl

marked : (temporary.buf 1).tmp ≡ true
unfolding get get_noread cache_shake shake shake_round lowest is_full alloc has add_buf insert
    read_in blocks_get_direct bdif_bread read_span pba pb_cnt init_dynamic set_dirty
marked = refl

pending : is_pending temporary 1 ≡ true
unfolding get get_noread cache_shake shake shake_round lowest is_full alloc has add_buf insert
    read_in blocks_get_direct bdif_bread read_span pba pb_cnt init_dynamic set_dirty
pending = refl

refused : succeeds temporary ≡ false
unfolding get get_noread cache_shake shake shake_round lowest is_full alloc has add_buf insert
    read_in blocks_get_direct bdif_bread read_span pba pb_cnt init_dynamic set_dirty
refused = refl

free_loses_example : view (free temporary 1) 1 ≡ block_at temporary 1
free_loses_example = free_loses 1 temporary temporary-IsValid member one marked pending refused
