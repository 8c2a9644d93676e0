-- ===== src/Inode/Blocks.antt =====
-- The block counter of an inode reads back what was stored.
use initramfstool.Base.{
  ℕ, ◌-◌, ◌*◌, ◌/◌, ◌^◌, ◌<◌, ◌≤◌, ◌≡◌, arith, bit_or, true, false, leb, Bool-cases, inl, inr, u16,
  u32, bit_or-disjoint, flag_bit-bit_and, flag_bit-bit_or, bit_and-power,
}
use native.Mathlib.Nat.{div-add-mod'}
use initramfstool.Super.{Sblock, feature_ro_com}
use initramfstool.Inode.{
  Inode, get_blocks_count, set_blocks_count, has_huge_flag, huge_shift, clear_huge, set_huge,
  flag_huge_file, ro_com_huge_file,
}

has_huge-clear :
    (inode : Inode) (lo hi flags : ℕ)
    → has_huge_flag
        (record inode { blocks_count_lo = lo; blocks_high = hi; flags = clear_huge flags })
      ≡ false
unfolding has_huge_flag
has_huge-clear inode lo hi flags = ground (
  arith,
  bit_and-power 18 (clear_huge flags),
  flag_bit-bit_and 18 flags (2 ^ 32 - 1 - flag_huge_file),
)

has_huge-set :
    (inode : Inode) (lo hi flags : ℕ)
    → has_huge_flag
        (record inode { blocks_count_lo = lo; blocks_high = hi; flags = set_huge flags })
      ≡ true
unfolding has_huge_flag
has_huge-set inode lo hi flags =
    ground (arith, bit_and-power 18 (set_huge flags), flag_bit-bit_or 18 flags flag_huge_file)

-- The two fields hold 48 bits.
halves : (n : ℕ) → n < 2 ^ 48 → bit_or (u16 (n / 2 ^ 32) * 2 ^ 32) (u32 n) ≡ n
halves n h = omega (arith, bit_or-disjoint 32 (u16 (n / 2 ^ 32)) (u32 n) (omega arith))

module _ (sb : Sblock) (inode : Inode) (count : ℕ) where
  -- A count below 2 ^ 48 is read back on a file system with huge files, and one below 2 ^ 32 on any.
  get-set_blocks_count :
      count < 2 ^ 48
      → (feature_ro_com sb ro_com_huge_file ≡ false → count < 2 ^ 32)
      → get_blocks_count sb (set_blocks_count sb inode count) ≡ count
  unfolding get_blocks_count set_blocks_count
  get-set_blocks_count small plain =
      let m : leb count (2 ^ 48 - 1) ≡ true = ground arith in
      elim (Bool-cases (feature_ro_com sb ro_com_huge_file)) [
        | inl e ↦ elim (Bool-cases (leb count (2 ^ 32 - 1))) [
          | inl l ↦
              simp (e, l, has_huge-clear inode (u32 count) 0 inode.flags)
                (let h : count < 2 ^ 32 = ground arith in
                  omega (arith, bit_or-disjoint 32 0 (u32 count) (omega arith)))
          | inr l ↦
              simp (e, l, m, has_huge-clear inode (u32 count) (u16 (count / 2 ^ 32)) inode.flags)
                (halves count small)
        ]
        | inr e ↦
            let l : leb count (2 ^ 32 - 1) ≡ true = (let h = plain e in ground arith) in
            simp (e, l) (let h = plain e in omega arith)
      ]

  -- With huge files, a count from 2 ^ 48 on is rounded down to whole blocks of the file system. It has
  -- 64 bits, and fits 48 when it is counted in blocks.
  get-set_blocks_count_scaled :
      feature_ro_com sb ro_com_huge_file ≡ true
      → 2 ^ 48 ≤ count
      → count < 2 ^ 64
      → count / 2 ^ huge_shift sb < 2 ^ 48
      → get_blocks_count sb (set_blocks_count sb inode count)
        ≡ count / 2 ^ huge_shift sb * 2 ^ huge_shift sb
  unfolding get_blocks_count set_blocks_count
  get-set_blocks_count_scaled e large fits scaled =
      let m : leb count (2 ^ 48 - 1) ≡ false = ground arith in
      let l : leb count (2 ^ 32 - 1) ≡ false = ground arith in
      let n = count / 2 ^ huge_shift sb in
      simp (e, l, m, has_huge-set inode (u32 n) (u16 (n / 2 ^ 32)) inode.flags, halves n scaled)
        (omega (arith, div-add-mod' count (2 ^ huge_shift sb)))
