-- ===== src/Blockdev/Bytes/Written.antt =====
-- What `ext4_block_writebytes` leaves on the device: the bytes at their place, and all else as it was.
use initramfstool.Base.{
  ℕ, ltb, false, ◌+◌, ◌-◌, ◌*◌, ◌/◌, ◌^◌, ◌<◌, ◌≤◌, ◌≡◌, refl, sym, ap, ◌∙◌, arith, List, [], ◌==◌,
  length, take, drop, u32, u64, Bool-cases, inl, inr,
}
use mathlib.Core.Path.{fun_ext, subst}
use native.Mathlib.Nat.{div-add-mod, mod-lt, mul_comm, div-mul-le_self, div-le_self}
use initramfstool.Bdev.{Bdev, eok, read_span, write_span, bdif_bread, bdif_bwrite}
use initramfstool.Bdev.Spans.{length-read_span, take_all}
use initramfstool.Blockdev.Bytes.{bbuf_size, copy_to, then_do, patch, write_rest, write_aligned}
use initramfstool.Blockdev.Bytes.Copies.{length-copy_to, length-drop}
use initramfstool.Blockdev.Bytes.Overlaps.{halves, part_changed, nothing}

-- An operation on the device that succeeds and writes `bytes` at `start`.
pub record IsWritten (s : Bdev) (p : ℕ × Bdev) (start : ℕ) (bytes : List ℕ) : Type 0 where
  pub result : p.0 ≡ eok
  pub disk : (a : ℕ) → p.1.disk a ≡ write_span s.disk start bytes a
  pub quiet : p.1.outcomes ≡ []
  pub ph_bsize : p.1.ph_bsize ≡ s.ph_bsize

module _ (s : Bdev) (quiet : s.outcomes ≡ []) where
  -- Whole physical blocks.
  blocks-IsWritten :
      (bytes : List ℕ) (blk n : ℕ)
      → IsWritten s (bdif_bwrite s bytes blk n) (blk * s.ph_bsize) (take (n * s.ph_bsize) bytes)
  unfolding bdif_bwrite
  blocks-IsWritten bytes blk n = record {
    result = rw quiet refl;
    disk = λ a. rw quiet refl;
    quiet = rw quiet refl;
    ph_bsize = refl;
  }

  -- Part of a physical block.
  pub patched :
      (blk at : ℕ) (bytes : List ℕ) (a : ℕ)
      → at + length bytes ≤ s.ph_bsize
      → write_span s.disk
          (blk * s.ph_bsize)
          (take
            (1 * s.ph_bsize)
            (copy_to (read_span s.disk (blk * s.ph_bsize) (1 * s.ph_bsize)) at bytes))
          a
        ≡ write_span s.disk (blk * s.ph_bsize + at) bytes a
  patched blk at bytes a h =
      let one : 1 * s.ph_bsize ≡ s.ph_bsize = omega arith in
      let block = copy_to (read_span s.disk (blk * s.ph_bsize) s.ph_bsize) at bytes in
      let size : length block ≡ s.ph_bsize =
        length-copy_to (read_span s.disk (blk * s.ph_bsize) s.ph_bsize) at bytes
        ∙ length-read_span s.disk (blk * s.ph_bsize) s.ph_bsize in
      rw (one, take_all s.ph_bsize block size)
        (part_changed s.disk (blk * s.ph_bsize) s.ph_bsize at bytes a h)

  pub patch-IsWritten :
      (blk at : ℕ) (bytes : List ℕ)
      → s.ph_bsize ≤ bbuf_size
      → at + length bytes ≤ s.ph_bsize
      → IsWritten s (patch s blk at bytes) (blk * s.ph_bsize + at) bytes
  unfolding patch bdif_bread bdif_bwrite
  patch-IsWritten blk at bytes carried h =
      let fits : ltb bbuf_size s.ph_bsize ≡ false = ground arith in
      rw (quiet, fits)
        (record {
          result = refl;
          disk = λ a. patched blk at bytes a h;
          quiet = refl;
          ph_bsize = refl;
        })

-- One part after the other.
pub then_do-IsWritten :
    (s : Bdev) (p : ℕ × Bdev) (next : Bdev → ℕ × Bdev) (start n : ℕ) (bytes : List ℕ)
    → n ≤ length bytes
    → IsWritten s p start (take n bytes)
    → IsWritten p.1 (next p.1) (start + n) (drop n bytes)
    → IsWritten s (then_do p next) start bytes
unfolding then_do
then_do-IsWritten s p next start n bytes h f g = rw f.result (record {
  result = g.result;
  disk = λ a.
      g.disk a
      ∙ ap (λ (d : ℕ → ℕ). write_span d (start + n) (drop n bytes) a) (fun_ext f.disk)
      ∙ halves s.disk start n bytes a h;
  quiet = g.quiet;
  ph_bsize = g.ph_bsize ∙ f.ph_bsize;
})

-- No byte is written anywhere.
pub moved :
    (s : Bdev) (p : ℕ × Bdev) (start other : ℕ) (bytes : List ℕ)
    → length bytes ≡ 0
    → IsWritten s p start bytes
    → IsWritten s p other bytes
moved s p start other bytes h w = record {
  result = w.result;
  disk = λ a. w.disk a ∙ nothing s.disk start bytes a h ∙ sym (nothing s.disk other bytes a h);
  quiet = w.quiet;
  ph_bsize = w.ph_bsize;
}

write_rest-IsWritten :
    (s : Bdev) (bytes : List ℕ) (blk : ℕ)
    → s.outcomes ≡ []
    → s.ph_bsize ≤ bbuf_size
    → length bytes ≤ s.ph_bsize
    → IsWritten s (write_rest s bytes blk) (blk * s.ph_bsize) bytes
unfolding write_rest
write_rest-IsWritten s bytes blk quiet carried h = elim (Bool-cases (length bytes == 0)) [
  | inl e ↦ rw e (record {
    result = refl;
    disk = λ a. sym (nothing s.disk (blk * s.ph_bsize) bytes a (ground arith));
    quiet = quiet;
    ph_bsize = refl;
  })
  | inr e ↦
      let at_start : blk * s.ph_bsize ≡ blk * s.ph_bsize + 0 = omega arith in
      rw e (
        subst (λ (x : ℕ). IsWritten s (patch s blk 0 bytes) x bytes) (sym at_start)
          (patch-IsWritten s quiet blk 0 bytes carried (omega arith)))
]

-- The whole blocks of `len` bytes, and what is left of them.
pub blocks_in :
    (len size : ℕ)
    → 0 < size
    → (len / size * size ≤ len) × ((len - len / size * size < size) × (len / size ≤ len))
blocks_in len size some =
    let d = div-add-mod len size in
    let m = mod-lt len some in
    let e : size * (len / size) ≡ len / size * size = mul_comm size (len / size) in
    (div-mul-le_self len size, (omega (arith, d, e, m), div-le_self len size))

pub write_aligned-IsWritten :
    (s : Bdev) (bytes : List ℕ) (blk : ℕ)
    → s.outcomes ≡ []
    → 0 < s.ph_bsize
    → s.ph_bsize ≤ bbuf_size
    → length bytes < 2 ^ 32
    → blk + length bytes < 2 ^ 64
    → IsWritten s (write_aligned s bytes blk) (blk * s.ph_bsize) bytes
unfolding write_aligned
write_aligned-IsWritten s bytes blk quiet some carried small fits =
    let (whole, (tail, few)) = blocks_in (length bytes) s.ph_bsize some in
    let blen = length bytes / s.ph_bsize in
    elim (Bool-cases (length bytes / s.ph_bsize == 0)) [
      | inl e ↦ rw e (
          write_rest-IsWritten s bytes blk quiet carried
            (let none : length bytes / s.ph_bsize ≡ 0 = ground arith in grind (arith, tail, none)))
      | inr e ↦
          let w = blocks-IsWritten s quiet bytes blk blen in
          let cut : u32 (s.ph_bsize * blen) ≡ blen * s.ph_bsize =
            ap u32 (mul_comm s.ph_bsize blen) ∙ omega (arith, whole) in
          let next : u64 (blk + blen) ≡ blk + blen = omega (arith, few) in
          let t = (bdif_bwrite s bytes blk blen).1 in
          let start : (blk + blen) * t.ph_bsize ≡ blk * s.ph_bsize + blen * s.ph_bsize =
            rw w.ph_bsize (grind arith) in
          rw e (
            then_do-IsWritten s (bdif_bwrite s bytes blk blen)
              (λ t. write_rest t (drop (u32 (s.ph_bsize * blen)) bytes) (u64 (blk + blen)))
              (blk * s.ph_bsize) (blen * s.ph_bsize) bytes whole w
              (rw (cut, next)
                (subst
                  (λ (x : ℕ).
                    IsWritten t (write_rest t (drop (blen * s.ph_bsize) bytes) (blk + blen)) x
                      (drop (blen * s.ph_bsize) bytes))
                  start
                  (write_rest-IsWritten t (drop (blen * s.ph_bsize) bytes) (blk + blen) w.quiet
                    (rw w.ph_bsize carried)
                    (rw (length-drop (blen * s.ph_bsize) bytes, w.ph_bsize)
                      (omega (arith, tail)))))))
    ]
