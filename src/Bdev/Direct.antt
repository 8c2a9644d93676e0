-- ===== src/Bdev/Direct.antt =====
-- A logical block on the device: what `ext4_blocks_get_direct` reads is what
-- `ext4_blocks_set_direct` wrote there last.
use initramfstool.Base.{
  ℕ, ◌+◌, ◌*◌, ◌/◌, ◌%◌, ◌^◌, ◌<◌, ◌≤◌, ◌≡◌, inl, inr, sym, ap, ◌∙◌, arith, List, ◌==◌, ==-self,
  false, if◌then◌else◌, length, u32, u64,
}
use native.Mathlib.Decide.{dec_lt, ℕ_discrete}
use native.Mathlib.Nat.{add-mul-div_left, div-add-mod, mul-le-mul_right, mul_comm, add-mul}
use initramfstool.Bdev.{
  Bdev, eok, first_outcome, read_span, write_span, pba, pb_cnt, bdif_bread, bdif_bwrite,
  blocks_get_direct, blocks_set_direct,
}
use initramfstool.Bdev.Spans.{
  length-read_span, take_all, read_span-write_span, read_span-write_span_apart,
}

-- A logical block is a whole number of physical ones, and every address of the partition fits 64 bits.
pub record IsAligned (s : Bdev) : Type 0 where
  pub some_ph : 0 < s.ph_bsize
  pub whole : s.lg_bsize % s.ph_bsize ≡ 0
  pub lg_fits : s.lg_bsize < 2 ^ 32
  pub part_fits : s.lg_bcnt * s.lg_bsize + s.part_offset < 2 ^ 64

-- The bytes of a logical block on the device.
unfoldable pub block_at : Bdev → ℕ → List ℕ
block_at s lba = read_span s.disk (pba s lba * s.ph_bsize) (u32 (pb_cnt s * 1) * s.ph_bsize)

module _ (s : Bdev) (v : IsAligned s) where
  lg_bsize-eq : s.lg_bsize ≡ pb_cnt s * s.ph_bsize
  unfolding pb_cnt
  lg_bsize-eq = (let d = div-add-mod s.lg_bsize s.ph_bsize in grind (arith, d, v.whole))

  one_block : u32 (pb_cnt s * 1) ≡ pb_cnt s
  unfolding pb_cnt
  one_block =
      (let d = div-add-mod s.lg_bsize s.ph_bsize in
        let p = v.some_ph in grind (arith, d, v.whole, v.lg_fits))

  pba-eq : (lba : ℕ) → lba < s.lg_bcnt → pba s lba ≡ pb_cnt s * lba + s.part_offset / s.ph_bsize
  unfolding pba
  pba-eq lba h =
      let last : lba * s.lg_bsize ≤ s.lg_bcnt * s.lg_bsize =
        mul-le-mul_right s.lg_bsize (omega arith) in
      let e : lba * s.lg_bsize ≡ s.ph_bsize * (pb_cnt s * lba) = grind (arith, lg_bsize-eq) in
      let small : u64 (u64 (lba * s.lg_bsize) + s.part_offset)
          ≡ s.part_offset + s.ph_bsize * (pb_cnt s * lba) =
        omega (arith, v.part_fits, last, e) in
      rw small (add-mul-div_left s.part_offset (pb_cnt s * lba) v.some_ph ∙ omega arith)

  -- The blocks `a` and `b` do not overlap.
  apart :
      (a b : ℕ)
      → a < s.lg_bcnt
      → b < s.lg_bcnt
      → a < b
      → pba s a * s.ph_bsize + pb_cnt s * s.ph_bsize ≤ pba s b * s.ph_bsize
  apart a b ha hb lt =
      rw (pba-eq a ha, pba-eq b hb)
        (let p : pb_cnt s * a + pb_cnt s ≤ pb_cnt s * b = grind (arith, lt) in grind (arith, p))

  pub length-block_at : (lba : ℕ) → length (block_at s lba) ≡ s.lg_bsize
  unfolding block_at
  length-block_at lba =
      length-read_span s.disk (pba s lba * s.ph_bsize) (u32 (pb_cnt s * 1) * s.ph_bsize)
      ∙ ap (λ (c : ℕ). c * s.ph_bsize) one_block
      ∙ sym lg_bsize-eq

  span-eq : u32 (pb_cnt s * 1) * s.ph_bsize ≡ s.lg_bsize
  span-eq = ap (λ (c : ℕ). c * s.ph_bsize) one_block ∙ sym lg_bsize-eq

  read-written :
      (bytes : List ℕ) (lba j : ℕ)
      → length bytes ≡ s.lg_bsize
      → lba < s.lg_bcnt
      → j < s.lg_bcnt
      → read_span
          (write_span s.disk (pba s lba * s.ph_bsize) bytes)
          (pba s j * s.ph_bsize)
          s.lg_bsize
        ≡ (if lba == j then bytes else read_span s.disk (pba s j * s.ph_bsize) s.lg_bsize)
  read-written bytes lba j len h q = elim (ℕ_discrete lba j) [
    | yes e ↦
        rw (← e, ==-self lba)
          (ap
              (λ (n : ℕ).
                read_span (write_span s.disk (pba s lba * s.ph_bsize) bytes)
                  (pba s lba * s.ph_bsize) n)
              (sym len)
            ∙ read_span-write_span s.disk (pba s lba * s.ph_bsize) bytes)
    | no ne ↦
        let differ : (lba == j) ≡ false = ground arith in
        rw differ (
          read_span-write_span_apart s.disk (pba s lba * s.ph_bsize) bytes (pba s j * s.ph_bsize)
            s.lg_bsize
            (elim (dec_lt j lba) [
              | yes lt ↦ inl (omega (arith, apart j lba q h lt, lg_bsize-eq))
              | no ge ↦ inr (omega (arith, apart lba j h q (omega arith), lg_bsize-eq, len))
            ]))
  ]

  -- A block that has been written reads back, and every other block reads as before.
  pub block_at-blocks_set_direct :
      (bytes : List ℕ) (lba j : ℕ)
      → length bytes ≡ s.lg_bsize
      → lba < s.lg_bcnt
      → j < s.lg_bcnt
      → first_outcome s.outcomes ≡ eok
      → block_at (blocks_set_direct s bytes lba 1).1 j ≡ (if lba == j then bytes else block_at s j)
  unfolding block_at blocks_set_direct bdif_bwrite pba pb_cnt
  block_at-blocks_set_direct bytes lba j len h q succeeds =
      rw (succeeds, span-eq, take_all s.lg_bsize bytes len) (read-written bytes lba j len h q)

  -- Where a block starts on the device.
  place :
      (lba : ℕ)
      → s.part_offset % s.ph_bsize ≡ 0
      → lba < s.lg_bcnt
      → pba s lba * s.ph_bsize ≡ s.part_offset + lba * s.lg_bsize
  place lba starts h =
      let d = div-add-mod s.part_offset s.ph_bsize in
      let first : s.part_offset / s.ph_bsize * s.ph_bsize ≡ s.part_offset =
        mul_comm (s.part_offset / s.ph_bsize) s.ph_bsize ∙ omega (arith, d, starts) in
      let e : lba * s.lg_bsize ≡ pb_cnt s * lba * s.ph_bsize = grind (arith, lg_bsize-eq) in
      rw (pba-eq lba h, add-mul (pb_cnt s * lba) (s.part_offset / s.ph_bsize) s.ph_bsize)
        (omega (arith, first, e))

  read_back :
      (bytes : List ℕ) (lba j : ℕ)
      → length bytes ≡ s.lg_bsize
      → lba < s.lg_bcnt
      → j < s.lg_bcnt
      → first_outcome s.outcomes ≡ eok
      → (blocks_get_direct (blocks_set_direct s bytes lba 1).1 j 1).1
        ≡ (if lba == j then bytes else (blocks_get_direct s j 1).1)
  unfolding blocks_get_direct bdif_bread block_at
  read_back bytes lba j len h q succeeds = block_at-blocks_set_direct bytes lba j len h q succeeds

  -- A block that the device takes is written at its place in the partition and nowhere else; it reads
  -- back, and every other block reads as before. The partition starts at a physical block.
  pub blocks_get_direct-blocks_set_direct :
      (bytes : List ℕ) (lba j : ℕ)
      → s.part_offset % s.ph_bsize ≡ 0
      → length bytes ≡ s.lg_bsize
      → lba < s.lg_bcnt
      → j < s.lg_bcnt
      → first_outcome s.outcomes ≡ eok
      → let (r, t) = blocks_set_direct s bytes lba 1 in
        (r ≡ eok)
        × ((a : ℕ) → t.disk a ≡ write_span s.disk (s.part_offset + lba * s.lg_bsize) bytes a)
        × ((blocks_get_direct s j 1).1
            ≡ read_span s.disk (s.part_offset + j * s.lg_bsize) s.lg_bsize)
        × ((blocks_get_direct t j 1).1 ≡ (if lba == j then bytes else (blocks_get_direct s j 1).1))
  unfolding blocks_set_direct bdif_bwrite blocks_get_direct bdif_bread
  blocks_get_direct-blocks_set_direct bytes lba j starts len h q succeeds = (
    succeeds,
    λ a.
        rw (succeeds, span-eq, take_all s.lg_bsize bytes len, place lba starts h)
          (λ i. write_span s.disk (s.part_offset + lba * s.lg_bsize) bytes a),
    rw (span-eq, place j starts q)
        (λ i. read_span s.disk (s.part_offset + j * s.lg_bsize) s.lg_bsize),
    read_back bytes lba j len h q succeeds,
  )
