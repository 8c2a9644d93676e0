-- ===== src/Balloc/Near.antt =====
-- The search of `ext4_balloc_alloc_block` in the group of the goal finds the first free block at or
-- after the goal. The scan near the goal passes the next byte boundary, so the search of the bitmap
-- that follows it starts from bits that are set.
use initramfstool.Base.{
  ℕ, zero, suc, ◌+◌, ◌-◌, ◌^◌, ◌<◌, ◌≤◌, ◌≡◌, sym, arith, true, Option, none, some, List,
  if◌then◌else◌, Bool-cases, inl, inr,
}
use mathlib.Core.Path.{subst}
use native.Mathlib.Decide.{ℕ_discrete}
use initramfstool.Bitmap.{is_bit_set, is_bit_clr, bit_find_clr}
use initramfstool.Bitmap.Laws.{IsMap}
use initramfstool.Bitmap.Find.{IsFirstClr, IsFirstClr-step, bit_find_clr-IsFirstClr}
use initramfstool.Balloc.{scan_near, near_end}

scan_near-IsFirstClr :
    (bmap : List ℕ) (i left : ℕ) → IsFirstClr bmap i (i + left) (scan_near bmap i left)
unfolding scan_near
scan_near-IsFirstClr bmap i zero = λ j p q. absurd (omega arith)
scan_near-IsFirstClr bmap i (suc left) =
    let e : i + suc left ≡ i + 1 + left = omega arith in
    let one : i + 1 ≡ suc i = omega arith in
    let rest = scan_near bmap (i + 1) left in
    rw e (
      IsFirstClr-step bmap i (i + 1 + left) rest (omega arith) (
        subst (λ k. IsFirstClr bmap k (i + 1 + left) rest) one
          (scan_near-IsFirstClr bmap (i + 1) left)))

-- The search of the bitmap is made if the scan near the goal finds nothing.
unfoldable pub or_search : List ℕ → ℕ → ℕ → Option ℕ → Option ℕ
or_search bmap idx blk_in_bg (some tmp_idx) = some tmp_idx
or_search bmap idx blk_in_bg none = bit_find_clr bmap idx blk_in_bg

-- The index that the search takes: the goal, or near it, or what the search of the bitmap gives.
unfoldable pub choose : List ℕ → ℕ → ℕ → Option ℕ
choose bmap idx blk_in_bg =
    let near = scan_near bmap (idx + 1) (near_end idx blk_in_bg - (idx + 1)) in
    if is_bit_clr bmap idx then some idx else or_search bmap idx blk_in_bg near

module _ {bits : ℕ} (bmap : List ℕ) (idx blk_in_bg : ℕ) (v : IsMap bmap bits)
    (room : blk_in_bg ≤ bits) (h : idx < blk_in_bg) (w : blk_in_bg < 2 ^ 31) where
  or_search-IsFirstClr :
      (near : Option ℕ)
      → is_bit_set bmap idx ≡ true
      → IsFirstClr bmap (idx + 1) (idx + 1 + (near_end idx blk_in_bg - (idx + 1))) near
      → IsFirstClr bmap idx blk_in_bg (or_search bmap idx blk_in_bg near)
  unfolding or_search near_end
  or_search-IsFirstClr none used near =
      bit_find_clr-IsFirstClr bmap idx blk_in_bg v room (omega arith) (omega arith) (λ j p q n.
        elim (ℕ_discrete idx j) [
          | yes here ↦ rw (sym here) used
          | no after ↦ near j (omega arith) (ground arith)
        ])
  or_search-IsFirstClr (some b) used near = (
    omega arith,
    ground arith,
    near.2,
    λ j p q. elim (ℕ_discrete idx j) [
      | yes here ↦ rw (sym here) used
      | no after ↦ near.3 j (omega arith) q
    ],
  )

  pub choose-IsFirstClr : IsFirstClr bmap idx blk_in_bg (choose bmap idx blk_in_bg)
  unfolding choose is_bit_clr
  choose-IsFirstClr =
      let left = near_end idx blk_in_bg - (idx + 1) in
      elim (Bool-cases (is_bit_set bmap idx)) [
        | inl used ↦ rw used (
            or_search-IsFirstClr (scan_near bmap (idx + 1) left) used
              (scan_near-IsFirstClr bmap (idx + 1) left))
        | inr clear ↦ rw clear (omega arith, h, clear, λ j p q. absurd (omega arith))
      ]
