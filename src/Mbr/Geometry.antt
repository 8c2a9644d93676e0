-- ===== src/Mbr/Geometry.antt =====
-- Where the second partition starts.
use initramfstool.Base.{ℕ, zero, suc, ◌+◌, ◌*◌, ◌/◌, ◌^◌, ◌<◌, ◌≤◌, ◌≡◌, arith, u32}
use native.Mathlib.Nat.{div-add-mod', mod-lt, div-mul-le_self, mul-le-mul_left, mul-le-mul_right}
use initramfstool.Mbr.{heads_loop, heads, cyl_size, cyl_count, cylinders, start_of}

heads_loop-ge : (fuel n k : ℕ) → 16 ≤ k → 16 ≤ heads_loop fuel n k
unfolding heads_loop
heads_loop-ge zero n k h = h
heads_loop-ge (suc fuel) n k h = ground (arith, heads_loop-ge fuel n (k * 2))

heads-ge : (n : ℕ) → 16 ≤ heads n
unfolding heads
heads-ge n = ground (arith, heads_loop-ge 4 n 16)

-- `part` cylinders of `size` bytes, of `count`.
outside :
    (n size count part : ℕ)
    → n < (count + 1) * size
    → count + 1 ≤ part * 512
    → n ≤ part * size * 512
outside n size count part h k = omega (arith, mul-le-mul_right size k, swap)
  where
    swap : part * 512 * size ≡ part * size * 512
    swap = grind arith

pub size-ge : (n : ℕ) → 1008 ≤ cyl_size n
unfolding cyl_size
size-ge n = omega (arith, heads-ge n)

past : (n size : ℕ) → 0 < size → n < (n / size + 1) * size
past n size h =
    let whole = div-add-mod' n size in
    let rest = mod-lt n h in
    let split : (n / size + 1) * size ≡ n / size * size + size = grind arith in omega arith

pub cyl_count-eq :
    (n : ℕ) → n < 2 ^ 32 → (cyl_count n ≡ n / cyl_size n) × (n / cyl_size n * 1008 ≤ n)
unfolding cyl_count
cyl_count-eq n h =
    let size = size-ge n in
    let all = div-mul-le_self n (cyl_size n) in
    let cells = mul-le-mul_left (n / cyl_size n) size in (omega arith, omega arith)

pub cylinders-eq :
    (n d : ℕ)
    → cyl_count n ≡ n / cyl_size n
    → n / cyl_size n * d < 2 ^ 32
    → cylinders n d ≡ n / cyl_size n * d / 100
unfolding cylinders
cylinders-eq n d at h = rw at (omega arith)

-- On a disk of fewer than 2 ^ 32 bytes with 100 cylinders or more, the second partition starts past the
-- end of the disk, in sectors of 512 bytes, where the first has 1 to 100 percent.
pub second_past_end :
    (n d : ℕ)
    → n < 2 ^ 32
    → 100 ≤ cyl_count n
    → 1 ≤ d
    → d ≤ 100
    → n ≤ start_of n 1 (cylinders n d) * 512
unfolding start_of
second_past_end n d small many some few =
    let size = cyl_size n in
    let count = n / size in
    let (at, fits) = cyl_count-eq n small in
    let ge = size-ge n in
    let low : count * 1 ≤ count * d = mul-le-mul_left count some in
    let high : count * d ≤ count * 100 = mul-le-mul_left count few in
    let part = count * d / 100 in
    let parts : cylinders n d ≡ part = cylinders-eq n d at (omega arith) in
    let inside : part * size ≤ count * size = mul-le-mul_right size (omega arith) in
    let all = div-mul-le_self n size in
    let whole : u32 (part * size) ≡ part * size = omega arith in
    rw (parts, whole) (outside n size count part (past n size (omega arith)) (omega (arith, at)))
