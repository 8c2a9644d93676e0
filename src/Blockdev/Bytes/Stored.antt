-- ===== src/Blockdev/Bytes/Stored.antt =====
-- What `ext4_block_writebytes` does on a device that does not fail.
use initramfstool.Base.{
  ℕ, ◌+◌, ◌*◌, ◌≡◌, ◌∙◌, arith, true, false, List, ◌==◌, [], length, take, drop, u64, Bool-cases,
  inl, inr,
}
use mathlib.Core.Path.{subst}
use initramfstool.Bdev.{Bdev}
use initramfstool.Blockdev.Bytes.{unalg, patch, write_aligned, writebytes}
use initramfstool.Blockdev.Bytes.Copies.{length-take, length-drop}
use initramfstool.Blockdev.Bytes.Written.{
  IsWritten, patch-IsWritten, write_aligned-IsWritten, then_do-IsWritten, moved,
}
use initramfstool.Blockdev.Bytes.Placed.{
  IsPlace, unalg-eq, first_block, within, block, few, aligned_block, wlen, wlen_le, wlen_fits,
  wlen-cases, next_fits, next_block, next_start,
}

module _ (s : Bdev) (off : ℕ) (bytes : List ℕ) (v : IsPlace s off (length bytes))
    (quiet : s.outcomes ≡ []) where
  abbrev first : ℕ
  first = block s off (length bytes) v

  abbrev head : ℕ
  head = wlen s off (length bytes) v

  -- The bytes start at a physical block.
  at_block :
      (unalg s off == 0) ≡ true
      → IsWritten s (write_aligned s bytes first) (off + s.part_offset) bytes
  at_block e =
      let a = v.inside in
      let b = v.fits in
      let f = few s off (length bytes) v in
      subst (λ (x : ℕ). IsWritten s (write_aligned s bytes first) x bytes)
        (aligned_block s off (length bytes) v e)
        (write_aligned-IsWritten s bytes first quiet v.some v.size_fits v.len_fits (omega arith))

  abbrev part : ℕ × Bdev
  part = patch s first (unalg s off) (take head bytes)

  part-IsWritten : IsWritten s part (off + s.part_offset) (take head bytes)
  part-IsWritten =
      let start : first * s.ph_bsize + unalg s off ≡ off + s.part_offset =
        rw (unalg-eq s off (length bytes) v) (first_block s off (length bytes) v) in
      subst (λ (x : ℕ). IsWritten s part x (take head bytes)) start
        (patch-IsWritten s quiet first (unalg s off) (take head bytes) v.size_fits (
          rw (length-take head bytes (wlen_le s off (length bytes) v))
            (wlen_fits s off (length bytes) v)))

  rest-IsWritten :
      (unalg s off == 0) ≡ false
      → IsWritten part.1
          (write_aligned part.1 (drop head bytes) (u64 (first + 1)))
          (off + s.part_offset + head)
          (drop head bytes)
  rest-IsWritten e =
      let w = part-IsWritten in
      let a = v.inside in
      let b = v.fits in
      let n = v.len_fits in
      let after = next_fits s off (length bytes) v e in
      let fewer = length-drop head bytes in
      let at_next =
        write_aligned-IsWritten part.1 (drop head bytes) (first + 1) w.quiet (rw w.ph_bsize v.some)
          (rw w.ph_bsize v.size_fits) (omega arith) (omega arith) in
      rw (next_block s off (length bytes) v e) (elim (wlen-cases s off (length bytes) v) [
        | inr none ↦
            moved part.1 (write_aligned part.1 (drop head bytes) (first + 1))
              ((first + 1) * part.1.ph_bsize) (off + s.part_offset + head) (drop head bytes)
              (fewer ∙ none) at_next
        | inl ends ↦
            let start : (first + 1) * part.1.ph_bsize ≡ off + s.part_offset + head =
              rw w.ph_bsize (next_start s off (length bytes) v ends) in
            subst
              (λ (x : ℕ).
                IsWritten part.1 (write_aligned part.1 (drop head bytes) (first + 1)) x
                  (drop head bytes))
              start at_next
      ])

  -- Writing bytes succeeds on a device that does not fail, and afterwards the device has them at their
  -- offset in the partition and every other byte as before.
  pub writebytes-IsWritten : IsWritten s (writebytes s off bytes) (off + s.part_offset) bytes
  unfolding writebytes
  writebytes-IsWritten = elim (Bool-cases (unalg s off == 0)) [
    | inl e ↦ rw (v.opened, within s off (length bytes) v, e) (at_block e)
    | inr e ↦
        rw (v.opened, within s off (length bytes) v, e)
          (then_do-IsWritten s part (λ t. write_aligned t (drop head bytes) (u64 (first + 1)))
            (off + s.part_offset) head bytes (wlen_le s off (length bytes) v) part-IsWritten
            (rest-IsWritten e))
  ]
