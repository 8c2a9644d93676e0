-- ===== src/Blockdev/Bytes/Loaded.antt =====
-- What `ext4_block_readbytes` gives on a device that does not fail.
use initramfstool.Base.{
  ℕ, ◌+◌, ◌-◌, ◌*◌, ◌≡◌, sym, ap, ◌∙◌, arith, true, false, List, [], ◌==◌, u64, Bool-cases, inl,
  inr,
}
use mathlib.Core.Path.{subst}
use initramfstool.Bdev.{Bdev, read_span}
use initramfstool.Blockdev.Bytes.{unalg, then_read, read_part, read_aligned, readbytes}
use initramfstool.Blockdev.Bytes.Read.{
  IsRead, read_part-IsRead, read_aligned-IsRead, then_read-IsRead,
}
use initramfstool.Blockdev.Bytes.Placed.{
  IsPlace, unalg-eq, first_block, within, block, few, aligned_block, wlen, wlen_le, wlen_fits,
  wlen-cases, next_fits, next_block, next_start,
}

-- Nothing is read anywhere.
moved :
    (s : Bdev) (p : ℕ × List ℕ × Bdev) (start other n : ℕ)
    → n ≡ 0
    → IsRead s p start n
    → IsRead s p other n
unfolding read_span
moved s p start other n none r = record {
  result = r.result;
  bytes =
      r.bytes
      ∙ ap (λ (m : ℕ). read_span s.disk start m) none
      ∙ sym (ap (λ (m : ℕ). read_span s.disk other m) none);
  disk = r.disk;
  quiet = r.quiet;
  ph_bsize = r.ph_bsize;
}

module _ (s : Bdev) (off len : ℕ) (v : IsPlace s off len) (quiet : s.outcomes ≡ []) where
  abbrev first : ℕ
  first = block s off len v

  abbrev head : ℕ
  head = wlen s off len v

  at_block :
      (unalg s off == 0) ≡ true → IsRead s (read_aligned s len first) (off + s.part_offset) len
  at_block e =
      let a = v.inside in
      let b = v.fits in
      let f = few s off len v in
      subst (λ (x : ℕ). IsRead s (read_aligned s len first) x len) (aligned_block s off len v e)
        (read_aligned-IsRead s len first quiet v.some v.size_fits v.len_fits (omega arith))

  abbrev part : ℕ × List ℕ × Bdev
  part = read_part s first (unalg s off) head

  part-IsRead : IsRead s part (off + s.part_offset) head
  part-IsRead =
      let start : first * s.ph_bsize + unalg s off ≡ off + s.part_offset =
        rw (unalg-eq s off len v) (first_block s off len v) in
      subst (λ (x : ℕ). IsRead s part x head) start
        (read_part-IsRead s quiet first (unalg s off) head v.size_fits (wlen_fits s off len v))

  rest-IsRead :
      (unalg s off == 0) ≡ false
      → IsRead part.2
          (read_aligned part.2 (len - head) (u64 (first + 1)))
          (off + s.part_offset + head)
          (len - head)
  rest-IsRead e =
      let w = part-IsRead in
      let a = v.inside in
      let b = v.fits in
      let n = v.len_fits in
      let after = next_fits s off len v e in
      let at_next =
        read_aligned-IsRead part.2 (len - head) (first + 1) w.quiet (rw w.ph_bsize v.some)
          (rw w.ph_bsize v.size_fits) (omega arith) (omega arith) in
      rw (next_block s off len v e) (elim (wlen-cases s off len v) [
        | inr none ↦
            moved part.2 (read_aligned part.2 (len - head) (first + 1))
              ((first + 1) * part.2.ph_bsize) (off + s.part_offset + head) (len - head) none at_next
        | inl ends ↦
            let start : (first + 1) * part.2.ph_bsize ≡ off + s.part_offset + head =
              rw w.ph_bsize (next_start s off len v ends) in
            subst
              (λ (x : ℕ).
                IsRead part.2 (read_aligned part.2 (len - head) (first + 1)) x (len - head))
              start at_next
      ])

  -- Reading bytes succeeds on a device that does not fail, and gives the bytes at the offset in the
  -- partition.
  pub readbytes-IsRead : IsRead s (readbytes s off len) (off + s.part_offset) len
  unfolding readbytes
  readbytes-IsRead = elim (Bool-cases (unalg s off == 0)) [
    | inl e ↦ rw (v.opened, within s off len v, e) (at_block e)
    | inr e ↦
        let both : head + (len - head) ≡ len = (let h = wlen_le s off len v in omega (arith, h)) in
        rw (v.opened, within s off len v, e)
          (subst
            (λ (n : ℕ).
              IsRead s (then_read part (λ t. read_aligned t (len - head) (u64 (first + 1))))
                (off + s.part_offset) n)
            both
            (then_read-IsRead s part (λ t. read_aligned t (len - head) (u64 (first + 1)))
              (off + s.part_offset) head (len - head) part-IsRead (rest-IsRead e)))
  ]
