-- ===== src/Bitmap/Tests.antt =====
-- Runs of the bitmap operations, and the theorems at concrete maps.
use initramfstool.Base.{ℕ, ◌≡◌, refl, true, not, ◌&&◌, List, [], ◌∷◌, some, none, arith}
use initramfstool.Bitmap.{
  bit_clr, is_bit_set, is_bit_clr, bits_free, bit_find_clr, free_head, free_bytes, free_tail,
  free_aligned, find_head, find_bit, find_bytes, find_aligned, offset,
}
use initramfstool.Bitmap.Laws.{IsMap}
use initramfstool.Bitmap.Free.{within, bits_free-is_bit_set}
use initramfstool.Bitmap.Find.{IsFirstClr, HeadSet, bit_find_clr-IsFirstClr, bit_find_clr-unaligned}

abbrev bmap : List ℕ
bmap = 0xff ∷ 0x7b ∷ 0xff ∷ []

-- Bits 10 and 15 of the map are clear.
bmap-IsMap : IsMap bmap 24
bmap-IsMap = omega arith

runs :
    (bits_free bmap 3 10 ≡ 0x07 ∷ 0x60 ∷ 0xff ∷ [])
    × (bit_find_clr bmap 0 24 ≡ some 10)
    × (bit_find_clr bmap 16 24 ≡ none)
    × (bit_find_clr bmap 9 24 ≡ some 9)
unfolding bits_free bit_find_clr free_head free_bytes free_tail free_aligned find_head find_bit
    find_bytes find_aligned offset is_bit_set is_bit_clr bit_clr
runs = (refl, refl, refl, refl)

bits_free-is_bit_set_example :
    is_bit_set (bits_free bmap 3 10) 12 ≡ not (within 3 13 12) && is_bit_set bmap 12
bits_free-is_bit_set_example =
    bits_free-is_bit_set bmap 3 10 12 bmap-IsMap (omega arith) (omega arith)

no_head : HeadSet bmap 8 24
no_head j p q r = absurd (omega arith)

bit_find_clr-IsFirstClr_example : IsFirstClr bmap 8 24 (bit_find_clr bmap 8 24)
bit_find_clr-IsFirstClr_example =
    bit_find_clr-IsFirstClr bmap 8 24 bmap-IsMap (omega arith) (omega arith) (omega arith) no_head

bit_find_clr-unaligned_example :
    (b : ℕ) × (bit_find_clr bmap 9 24 ≡ some b) × (b ≡ 9) × (is_bit_set bmap b ≡ true)
unfolding is_bit_set
bit_find_clr-unaligned_example =
    bit_find_clr-unaligned bmap 9 24 10 bmap-IsMap (omega arith) (omega arith) (omega arith)
      (omega arith) (omega arith) refl refl
