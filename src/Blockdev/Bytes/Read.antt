-- ===== src/Blockdev/Bytes/Read.antt =====
-- What `ext4_block_readbytes` does on a device that does not fail.
use initramfstool.Base.{
  ℕ, ltb, false, zero, suc, ◌+◌, ◌-◌, ◌*◌, ◌/◌, ◌^◌, ◌<◌, ◌≤◌, ◌≡◌, refl, ap, ap₂, ◌∙◌, arith, List,
  [], ◌∷◌, ◌++◌, ◌==◌, take, drop, u32, u64, Bool-cases, inl, inr,
}
use mathlib.Core.Path.{subst}
use native.Mathlib.Nat.{mul_comm}
use initramfstool.Bdev.{Bdev, eok, read_span, bdif_bread}
use initramfstool.Blockdev.Bytes.{bbuf_size, then_read, read_part, read_rest, read_aligned}
use initramfstool.Blockdev.Bytes.Written.{blocks_in}
use initramfstool.Blockdev.Bytes.Placed.{few}

-- An operation on the device that succeeds, gives the `n` bytes from `start` on and changes none.
pub record IsRead (s : Bdev) (p : ℕ × List ℕ × Bdev) (start n : ℕ) : Type 0 where
  pub result : p.0 ≡ eok
  pub bytes : p.1 ≡ read_span s.disk start n
  pub disk : p.2.disk ≡ s.disk
  pub quiet : p.2.outcomes ≡ []
  pub ph_bsize : p.2.ph_bsize ≡ s.ph_bsize

-- The same run, by equal numbers.
same_span : (d : ℕ → ℕ) {x y n m : ℕ} → x ≡ y → n ≡ m → read_span d x n ≡ read_span d y m
same_span d e f = ap₂ (λ (x n : ℕ). read_span d x n) e f

joined :
    (d : ℕ → ℕ) (start n m : ℕ)
    → read_span d start n ++ read_span d (start + n) m ≡ read_span d start (n + m)
unfolding read_span
joined d start zero m = same_span d (omega arith) (omega arith)
joined d start (suc n) m =
    let e : start + suc n ≡ start + 1 + n = omega arith in
    let f : suc (n + m) ≡ suc n + m = omega arith in
    ap (λ (l : List ℕ). d start ∷ (read_span d (start + 1) n ++ l)) (same_span d e refl)
    ∙ ap (λ (l : List ℕ). d start ∷ l) (joined d (start + 1) n m)
    ∙ same_span d refl f

dropped :
    (d : ℕ → ℕ) (start n at : ℕ) → drop at (read_span d start n) ≡ read_span d (start + at) (n - at)
unfolding read_span
dropped d start n zero = same_span d (omega arith) (omega arith)
dropped d start zero (suc at) = ap (λ (n : ℕ). read_span d (start + suc at) n) none
  where
    none : 0 ≡ 0 - suc at
    none = omega arith
dropped d start (suc n) (suc at) =
    dropped d (start + 1) n at ∙ same_span d (omega arith) (omega arith)

taken : (d : ℕ → ℕ) (start n m : ℕ) → m ≤ n → take m (read_span d start n) ≡ read_span d start m
unfolding read_span
taken d start n zero h = refl
taken d start zero (suc m) h = absurd (omega arith)
taken d start (suc n) (suc m) h =
    ap (λ (l : List ℕ). d start ∷ l) (taken d (start + 1) n m (omega arith))

cut :
    (d : ℕ → ℕ) (start n at m : ℕ)
    → at + m ≤ n
    → take m (drop at (read_span d start n)) ≡ read_span d (start + at) m
cut d start n at m h =
    ap (λ (l : List ℕ). take m l) (dropped d start n at)
    ∙ taken d (start + at) (n - at) m (omega arith)

pub then_read-IsRead :
    (s : Bdev) (p : ℕ × List ℕ × Bdev) (next : Bdev → ℕ × List ℕ × Bdev) (start n m : ℕ)
    → IsRead s p start n
    → IsRead p.2 (next p.2) (start + n) m
    → IsRead s (then_read p next) start (n + m)
unfolding then_read
then_read-IsRead s p next start n m f g = rw f.result (record {
  result = g.result;
  bytes =
      ap₂ (λ (x y : List ℕ). x ++ y) f.bytes
        (g.bytes ∙ ap (λ (d : ℕ → ℕ). read_span d (start + n) m) f.disk)
      ∙ joined s.disk start n m;
  disk = g.disk ∙ f.disk;
  quiet = g.quiet;
  ph_bsize = g.ph_bsize ∙ f.ph_bsize;
})

module _ (s : Bdev) (quiet : s.outcomes ≡ []) where
  bread-IsRead : (blk n : ℕ) → IsRead s (bdif_bread s blk n) (blk * s.ph_bsize) (n * s.ph_bsize)
  unfolding bdif_bread
  bread-IsRead blk n = record {
    result = rw quiet refl;
    bytes = refl;
    disk = refl;
    quiet = rw quiet refl;
    ph_bsize = refl;
  }

  pub read_part-IsRead :
      (blk at n : ℕ)
      → s.ph_bsize ≤ bbuf_size
      → at + n ≤ s.ph_bsize
      → IsRead s (read_part s blk at n) (blk * s.ph_bsize + at) n
  unfolding read_part bdif_bread
  read_part-IsRead blk at n carried h =
      let fits : ltb bbuf_size s.ph_bsize ≡ false = ground arith in
      rw (quiet, fits)
        (record {
          result = refl;
          bytes = cut s.disk (blk * s.ph_bsize) (1 * s.ph_bsize) at n (omega arith);
          disk = refl;
          quiet = refl;
          ph_bsize = refl;
        })

read_rest-IsRead :
    (s : Bdev) (len blk : ℕ)
    → s.outcomes ≡ []
    → s.ph_bsize ≤ bbuf_size
    → len ≤ s.ph_bsize
    → IsRead s (read_rest s len blk) (blk * s.ph_bsize) len
unfolding read_rest read_span
read_rest-IsRead s len blk quiet carried h = elim (Bool-cases (len == 0)) [
  | inl e ↦
      let none : len ≡ 0 = ground arith in
      rw (e, none)
        (record { result = refl; bytes = refl; disk = refl; quiet = quiet; ph_bsize = refl })
  | inr e ↦
      let at_start : blk * s.ph_bsize + 0 ≡ blk * s.ph_bsize = omega arith in
      rw e (
        subst (λ (x : ℕ). IsRead s (read_part s blk 0 len) x len) at_start
          (read_part-IsRead s quiet blk 0 len carried (omega arith)))
]

pub read_aligned-IsRead :
    (s : Bdev) (len blk : ℕ)
    → s.outcomes ≡ []
    → 0 < s.ph_bsize
    → s.ph_bsize ≤ bbuf_size
    → len < 2 ^ 32
    → blk + len < 2 ^ 64
    → IsRead s (read_aligned s len blk) (blk * s.ph_bsize) len
unfolding read_aligned
read_aligned-IsRead s len blk quiet some carried small fits =
    let (whole, (tail, few)) = blocks_in len s.ph_bsize some in
    let blen = len / s.ph_bsize in
    elim (Bool-cases (len / s.ph_bsize == 0)) [
      | inl e ↦ rw e (
          read_rest-IsRead s len blk quiet carried
            (let none : len / s.ph_bsize ≡ 0 = ground arith in grind (arith, tail, none)))
      | inr e ↦
          let w = bread-IsRead s quiet blk blen in
          let t = (bdif_bread s blk blen).2 in
          let some_blocks : u32 (s.ph_bsize * blen) ≡ blen * s.ph_bsize =
            ap u32 (mul_comm s.ph_bsize blen) ∙ omega (arith, whole) in
          let next : u64 (blk + blen) ≡ blk + blen = omega (arith, few) in
          let start : (blk + blen) * t.ph_bsize ≡ blk * s.ph_bsize + blen * s.ph_bsize =
            rw w.ph_bsize (grind arith) in
          let left = len - blen * s.ph_bsize in
          let both : blen * s.ph_bsize + left ≡ len = omega (arith, whole) in
          rw e (
            subst
              (λ (n : ℕ).
                IsRead s
                  (then_read (bdif_bread s blk blen)
                    (λ t. read_rest t (len - u32 (s.ph_bsize * blen)) (u64 (blk + blen))))
                  (blk * s.ph_bsize) n)
              both
              (then_read-IsRead s (bdif_bread s blk blen)
                (λ t. read_rest t (len - u32 (s.ph_bsize * blen)) (u64 (blk + blen)))
                (blk * s.ph_bsize) (blen * s.ph_bsize) left w
                (rw (some_blocks, next)
                  (subst (λ (x : ℕ). IsRead t (read_rest t left (blk + blen)) x left) start
                    (read_rest-IsRead t left (blk + blen) w.quiet (rw w.ph_bsize carried)
                      (rw w.ph_bsize (omega (arith, tail))))))))
    ]
