-- ===== src/Bitmap.antt =====
-- lwext4's bitmaps: SharpExt4/lwext4/src/ext4_bitmap.c and include/ext4_bitmap.h.
-- A bitmap is the list of its bytes; `bit >> 3` and `bit & 7` are the quotient and the remainder
-- by 8. The pointer `bmap`, which the C code moves, is the byte offset `base`. The build leaves
-- CONFIG_UNALIGNED_ACCESS at 0, so the loops over 4 and 2 bytes are compiled out.
pub mod Laws
pub mod Free
pub mod Find
mod Tests
use initramfstool.Base.{
  ℕ, zero, suc, ◌+◌, ◌-◌, ◌*◌, ◌/◌, ◌%◌, ◌^◌, bit_and, bit_or, Bool, true, false, not, Option, none,
  some, List, ◌==◌, ltb, leb, if◌then◌else◌, get_or, set, u32,
}

pub bit_set : List ℕ → ℕ → List ℕ
bit_set bmap bit = set bmap (bit / 8) (bit_or (get_or bmap (bit / 8) 0) (2 ^ (bit % 8)))

pub bit_clr : List ℕ → ℕ → List ℕ
bit_clr bmap bit = set bmap (bit / 8) (bit_and (get_or bmap (bit / 8) 0) (255 - 2 ^ (bit % 8)))

unfoldable pub is_bit_set : List ℕ → ℕ → Bool
is_bit_set bmap bit = not (bit_and (get_or bmap (bit / 8) 0) (2 ^ (bit % 8)) == 0)

unfoldable pub is_bit_clr : List ℕ → ℕ → Bool
is_bit_clr bmap bit = not (is_bit_set bmap bit)

-- What `while (i & 7)` leaves: an early return, or the values at the loop's end.
pub data Head : Type 0 where
  stopped : List ℕ → Head
  aligned : List ℕ → ℕ → ℕ → Head

-- The loop runs on `bcnt`, which every round takes down.
pub free_head : List ℕ → ℕ → ℕ → Head
free_head bmap i zero = if i % 8 == 0 then aligned bmap i 0 else stopped bmap
free_head bmap i (suc bcnt) =
    let rest = free_head (bit_clr bmap i) (u32 (i + 1)) bcnt in
    if i % 8 == 0 then aligned bmap i (suc bcnt) else rest

-- `while (bcnt >= 8)`, with `rounds` rounds left: `*bmap = 0; bmap += 1`.
pub free_bytes : List ℕ → ℕ → ℕ → List ℕ
free_bytes bmap base zero = bmap
free_bytes bmap base (suc rounds) = free_bytes (set bmap base 0) (base + 1) rounds

-- `for (i = 0; i < bcnt; ++i)` from `i`, with `left` rounds left.
pub free_tail : List ℕ → ℕ → ℕ → ℕ → List ℕ
free_tail bmap base i zero = bmap
free_tail bmap base i (suc left) = free_tail (bit_clr bmap (base * 8 + i)) base (i + 1) left

-- The part of the function below `bmap += (sbit >> 3)`.
pub free_aligned : Head → List ℕ
free_aligned (stopped bmap) = bmap
free_aligned (aligned bmap i bcnt) =
    let bytes = free_bytes bmap (i / 8) (bcnt / 8) in
    free_tail bytes (i / 8 + bcnt / 8) 0 (bcnt % 8)

pub bits_free : List ℕ → ℕ → ℕ → List ℕ
bits_free bmap sbit bcnt = free_aligned (free_head bmap sbit bcnt)

-- What `while (i & 7)` of the search leaves: a return of ENOSPC or of a bit, or the loop's end.
pub data Search : Type 0 where
  no_space : Search
  found : ℕ → Search
  go_on : ℕ → ℕ → Search

-- The clear bit is at `i`, and the code stores `sbit`.
unfoldable pub find_head : List ℕ → ℕ → ℕ → ℕ → Search
find_head bmap sbit i zero = if i % 8 == 0 then go_on i 0 else no_space
find_head bmap sbit i (suc bcnt) =
    let rest = find_head bmap sbit (u32 (i + 1)) bcnt in
    if i % 8 == 0 then go_on i (suc bcnt) else if is_bit_clr bmap i then found sbit else rest

-- `for (i = ...; ++i)` over `left` bits of the byte at `base`: the first clear one.
unfoldable pub find_bit : List ℕ → ℕ → ℕ → ℕ → Option ℕ
find_bit bmap base i zero = none
find_bit bmap base i (suc left) =
    let rest = find_bit bmap base (i + 1) left in
    if is_bit_clr bmap (base * 8 + i) then some i else rest

unfoldable pub offset : ℕ → Option ℕ → Option ℕ → Option ℕ
offset sbit (some i) rest = some (u32 (sbit + i))
offset sbit none rest = rest

-- `while (bcnt >= 8)` with `rounds` rounds left, then the loop over the last `left` bits.
unfoldable pub find_bytes : List ℕ → ℕ → ℕ → ℕ → ℕ → Option ℕ
find_bytes bmap base sbit zero left = offset sbit (find_bit bmap base 0 left) none
find_bytes bmap base sbit (suc rounds) left =
    let rest = find_bytes bmap (base + 1) (u32 (sbit + 8)) rounds left in
    if get_or bmap base 0 == 0xff then rest else offset sbit (find_bit bmap base 0 8) rest

-- `none` is ENOSPC, and `some b` is EOK with `b` stored through `bit_id`.
unfoldable pub find_aligned : List ℕ → Search → Option ℕ
find_aligned bmap no_space = none
find_aligned bmap (found b) = some b
find_aligned bmap (go_on i bcnt) = find_bytes bmap (i / 8) i (bcnt / 8) (bcnt % 8)

unfoldable pub bit_find_clr : List ℕ → ℕ → ℕ → Option ℕ
bit_find_clr bmap sbit ebit =
    find_aligned bmap (find_head bmap sbit sbit (u32 (ebit + 2 ^ 32 - sbit)))
