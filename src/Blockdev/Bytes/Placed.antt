-- ===== src/Blockdev/Bytes/Placed.antt =====
-- Where the bytes at an offset of a partition lie that starts at a physical block.
use initramfstool.Base.{
  ℕ, ◌+◌, ◌-◌, ◌*◌, ◌/◌, ◌%◌, ◌^◌, ◌<◌, ◌≤◌, ◌≡◌, ap, ◌∙◌, arith, true, false, ◌==◌, ltb, u64,
  bit_and, bit_and-mask, Bool-cases, inl, inr, ◌⊎◌,
}
use native.Mathlib.Nat.{div-add-mod, mod-lt, add-mul-div_left}
use initramfstool.Super.{sub32}
use initramfstool.Bdev.{Bdev}
use initramfstool.Blockdev.Bytes.{bbuf_size, unalg, head_len}

-- `len` bytes at `off` of an open partition: physical blocks have a power of 2 as their size and fit
-- `ph_bbuf`, and the partition starts at one of them.
pub record IsPlace (s : Bdev) (off len : ℕ) : Type 0 where
  pub power : ℕ
  pub size : s.ph_bsize ≡ 2 ^ power
  pub size_fits : s.ph_bsize ≤ bbuf_size
  pub some : 0 < s.ph_bsize
  pub whole : s.part_offset % s.ph_bsize ≡ 0
  pub opened : (s.ph_refctr == 0) ≡ false
  pub inside : off + len ≤ s.part_size
  pub fits : s.part_size + s.part_offset < 2 ^ 64
  pub len_fits : len < 2 ^ 32

module _ (s : Bdev) (off len : ℕ) (v : IsPlace s off len) where
  pub unalg-eq : unalg s off ≡ off % s.ph_bsize
  unfolding unalg
  unalg-eq =
      let m = mod-lt off v.some in
      let low : sub32 s.ph_bsize 1 ≡ s.ph_bsize - 1 =
        (let some = v.some in let fits = v.size_fits in omega arith) in
      let mask : bit_and off (s.ph_bsize - 1) ≡ off % s.ph_bsize =
        rw v.size (bit_and-mask v.power off) in
      rw (low, mask) (let fits = v.size_fits in omega (arith, m))

  -- The physical block, and the byte of it, where the bytes start.
  pub first_block :
      u64 (off + s.part_offset) / s.ph_bsize * s.ph_bsize + off % s.ph_bsize ≡ off + s.part_offset
  first_block =
      let small : u64 (off + s.part_offset) ≡ off + s.part_offset =
        (let a = v.inside in let b = v.fits in omega arith) in
      let d = div-add-mod off s.ph_bsize in
      let p = div-add-mod s.part_offset s.ph_bsize in
      let start : s.part_offset ≡ s.ph_bsize * (s.part_offset / s.ph_bsize) =
        (let w = v.whole in omega (arith, p, w)) in
      let q : (off + s.part_offset) / s.ph_bsize ≡ off / s.ph_bsize + s.part_offset / s.ph_bsize =
        ap (λ (x : ℕ). (off + x) / s.ph_bsize) start
        ∙ add-mul-div_left off (s.part_offset / s.ph_bsize) v.some in
      rw (small, q) (grind (arith, d, start))

  pub within : ltb s.part_size (u64 (off + len)) ≡ false
  within = (let a = v.inside in let b = v.fits in ground arith)

  abbrev pub block : ℕ
  block = u64 (off + s.part_offset) / s.ph_bsize

  pub few : block + off % s.ph_bsize ≤ off + s.part_offset
  few = (let f = first_block in let some = v.some in grind (arith, f, some))

  pub aligned_block : (unalg s off == 0) ≡ true → block * s.ph_bsize ≡ off + s.part_offset
  aligned_block e = (let f = first_block in let u = unalg-eq in ground (arith, f, u))

  in_first : unalg s off < s.ph_bsize
  in_first = rw unalg-eq (mod-lt off v.some)

  -- The bytes of the first block: they end with it, or they are all.
  abbrev pub wlen : ℕ
  wlen = head_len s (unalg s off) len

  pub wlen_le : wlen ≤ len
  unfolding head_len
  wlen_le = ground arith

  pub wlen_fits : unalg s off + wlen ≤ s.ph_bsize
  unfolding head_len
  wlen_fits = ground (arith, in_first)

  pub wlen-cases : (unalg s off + wlen ≡ s.ph_bsize) ⊎ (len - wlen ≡ 0)
  unfolding head_len
  wlen-cases = elim (Bool-cases (ltb len (s.ph_bsize - unalg s off))) [
    | inl short ↦ rw short (inr (omega arith))
    | inr long ↦ rw long (inl (omega (arith, in_first)))
  ]

  pub next_fits : (unalg s off == 0) ≡ false → block + 1 ≤ off + s.part_offset
  next_fits e = (let u = unalg-eq in ground (arith, few, u))

  pub next_block : (unalg s off == 0) ≡ false → u64 (block + 1) ≡ block + 1
  next_block e = (let a = v.inside in let b = v.fits in let f = next_fits e in omega arith)

  -- Where the bytes go on after the first block.
  pub next_start :
      unalg s off + wlen ≡ s.ph_bsize → (block + 1) * s.ph_bsize ≡ off + s.part_offset + wlen
  next_start ends = (let f = first_block in let u = unalg-eq in grind (arith, f, u, ends))
