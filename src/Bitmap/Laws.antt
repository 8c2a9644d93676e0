-- ===== src/Bitmap/Laws.antt =====
-- What the one-bit operations of include/ext4_bitmap.h do to every bit of the map.
use initramfstool.Base.{
  ℕ, ◌-◌, ◌*◌, ◌/◌, ◌%◌, ◌^◌, ◌<◌, ◌≤◌, ◌≡◌, ◌≢◌, bit_or, bit_and, false, not, ◌&&◌, ◌||◌, List,
  ◌==◌, if◌then◌else◌, arith, length, get_or, set, length-set, get_or-set_self, get_or-set_ne,
  IsBytes, IsBytes-get_or, IsBytes-set, byte_bit, byte_bit-or, byte_bit-and, byte_bit-zero,
  bit_or-lt, bit_and-lt,
}
use initramfstool.Bitmap.{bit_set, bit_clr, is_bit_set}

-- The bytes of a map, which the operations keep, and the bits that it has.
pub record IsMap (bmap : List ℕ) (bits : ℕ) : Type 0 where
  pub bytes : IsBytes bmap
  pub room : bits ≤ 8 * length bmap

eqb-ne : (i j : ℕ) → i ≢ j → (i == j) ≡ false
eqb-ne i j h = ground arith

-- A write to one byte is seen by the bits of that byte only.
is_bit_set-set :
    (bmap : List ℕ) (k v j : ℕ)
    → k < length bmap
    → is_bit_set (set bmap k v) j ≡ (if k == j / 8 then byte_bit v (j % 8) else is_bit_set bmap j)
unfolding is_bit_set
is_bit_set-set bmap k v j h =
    ground (arith, get_or-set_self bmap k v 0 h, get_or-set_ne bmap k (j / 8) v 0)

module _ (bmap : List ℕ) (i j : ℕ) (bytes : IsBytes bmap) (h : i < 8 * length bmap) where
  -- Setting bit `i` sets it, and leaves every other bit.
  pub is_bit_set-bit_set : is_bit_set (bit_set bmap i) j ≡ (i == j) || is_bit_set bmap j
  unfolding bit_set
  is_bit_set-bit_set =
      let b = get_or bmap (i / 8) 0 in
      rw (is_bit_set-set bmap (i / 8) (bit_or b (2 ^ (i % 8))) j (omega arith)) (
        unfold is_bit_set in
        ground (
          arith,
          byte_bit-or b (i % 8) (IsBytes-get_or bmap (i / 8) bytes) (omega arith) (j % 8),
          eqb-ne (i % 8) (j % 8),
        ))

  -- Clearing bit `i` clears it, and leaves every other bit.
  pub is_bit_set-bit_clr : is_bit_set (bit_clr bmap i) j ≡ not (i == j) && is_bit_set bmap j
  unfolding bit_clr
  is_bit_set-bit_clr =
      let b = get_or bmap (i / 8) 0 in
      rw (is_bit_set-set bmap (i / 8) (bit_and b (255 - 2 ^ (i % 8))) j (omega arith)) (
        unfold is_bit_set in
        ground (
          arith,
          byte_bit-and b (i % 8) (IsBytes-get_or bmap (i / 8) bytes) (omega arith) (j % 8),
          eqb-ne (i % 8) (j % 8),
        ))

-- A byte that is written 0 has eight clear bits.
pub is_bit_set-zero :
    (bmap : List ℕ) (k j : ℕ)
    → k < length bmap
    → is_bit_set (set bmap k 0) j ≡ not (k == j / 8) && is_bit_set bmap j
is_bit_set-zero bmap k j h =
    rw (is_bit_set-set bmap k 0 j h) (ground (arith, byte_bit-zero (j % 8) (omega arith)))

module _ {bmap : List ℕ} {bits : ℕ} (i : ℕ) (v : IsMap bmap bits) where
  byte-lt : get_or bmap (i / 8) 0 < 256
  byte-lt = IsBytes-get_or bmap (i / 8) v.bytes

  bit_set-IsMap : IsMap (bit_set bmap i) bits
  unfolding bit_set
  bit_set-IsMap = record {
    bytes = IsBytes-set bmap (i / 8) _ (bit_or-lt _ (i % 8) byte-lt (omega arith)) v.bytes;
    room = rw length-set v.room;
  }

  pub bit_clr-IsMap : IsMap (bit_clr bmap i) bits
  unfolding bit_clr
  bit_clr-IsMap = record {
    bytes = IsBytes-set bmap (i / 8) _ (bit_and-lt _ (i % 8) byte-lt (omega arith)) v.bytes;
    room = rw length-set v.room;
  }

  pub zero-IsMap : IsMap (set bmap i 0) bits
  zero-IsMap = record {
    bytes = IsBytes-set bmap i 0 (omega arith) v.bytes;
    room = rw length-set v.room;
  }
