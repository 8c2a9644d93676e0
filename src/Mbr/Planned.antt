-- ===== src/Mbr/Planned.antt =====
-- The partitions that divisions in percent stand for, in numbers without bounds, and the table's.
use initramfstool.Base.{
  false, ℕ, ◌+◌, ◌-◌, ◌*◌, ◌/◌, ◌^◌, ◌<◌, ◌≤◌, ◌≡◌, ◌≢◌, ◌⊎◌, inl, inr, refl, ap, sym, arith, List,
  [], ◌∷◌, Option, none, some, ◌==◌, leb, if◌then◌else◌, u32, u64, Bool-cases,
}
use native.Mathlib.Nat.{div-mul-le_self, mul-le-mul_left, mul-le-mul_right, mul-add, add-mul}
use initramfstool.Mbr.{
  Partition, heads, heads_loop, cyl_size, cyl_count, cylinders, start_of, size_of, sum,
}
use initramfstool.Mbr.Entries.{partition, planned}
use initramfstool.Mbr.Geometry.{size-ge, cyl_count-eq, cylinders-eq}

-- The fewest heads of 16, 32, 64, 128 and 255 with which a disk has at most 1024 tracks of 63 bytes.
unfoldable pub fewest_heads : ℕ → ℕ
fewest_heads n =
    if leb (n / 16 / 63) 1024
    then 16
    else if leb (n / 32 / 63) 1024
    then 32
    else if leb (n / 64 / 63) 1024
    then 64
    else if leb (n / 128 / 63) 1024
    then 128
    else 255

-- The bytes of a cylinder, and the cylinders of a division.
abbrev pub cylinder : ℕ → ℕ
cylinder n = 63 * fewest_heads n

abbrev pub share : ℕ → ℕ → ℕ
share n division = n / cylinder n * division / 100

-- The table takes the place of the first partition's 63 sectors.
abbrev pub lead : ℕ → ℕ
lead i = if i == 0 then 63 else 0

unfoldable pub placed : ℕ → ℕ → ℕ → ℕ → Option Partition
placed n i before part =
    let sectors = (part * cylinder n - lead i * 512) / 512 in
    if sectors == 0
    then none
    else some
        (record { part_offset = (before * cylinder n + lead i) * 512; part_size = sectors * 512 })

-- The partition `j` of the divisions from number `i` on, which come after `before` cylinders.
unfoldable pub plan : ℕ → List ℕ → ℕ → ℕ → ℕ → Option Partition
plan n [] i before j = none
plan n (division ∷ rest) i before j =
    let others = plan n rest (i + 1) (before + share n division) j in
    if j == i then placed n i before (share n division) else others

heads-fewest : (n : ℕ) → heads n ≡ fewest_heads n
unfolding heads heads_loop fewest_heads
heads-fewest n = ground arith

cyl_size-eq : (n : ℕ) → cyl_size n ≡ cylinder n
unfolding cyl_size
cyl_size-eq n = ap (λ (h : ℕ). 63 * h) (heads-fewest n)

-- Where the first partition has some cylinders, they are more than the 63 sectors before it.
unfoldable pub HasLead : ℕ → List ℕ → Type 0
HasLead n [] = Unit
HasLead n (division ∷ rest) = (share n division ≡ 0) ⊎ (63 * 512 ≤ share n division * cylinder n)

module _ (n : ℕ) (small : n < 2 ^ 32) where
  abbrev cells : ℕ
  cells = n / cylinder n

  cylinder-ge : 1008 ≤ cylinder n
  cylinder-ge = rw⁻¹ (cyl_size-eq n) (size-ge n)

  cells-eq : (cyl_count n ≡ cells) × (cells * 1008 ≤ n)
  cells-eq = rw⁻¹ (cyl_size-eq n) (cyl_count-eq n small)

  cells_fit : cells * cylinder n ≤ n
  cells_fit = div-mul-le_self n (cylinder n)

  share-eq : (d : ℕ) → d ≤ 100 → cylinders n d ≡ share n d
  share-eq d few =
      let (at, fits) = cells-eq in
      let high : cells * d ≤ cells * 100 = mul-le-mul_left cells few in
      rw⁻¹ (cyl_size-eq n)
        (cylinders-eq n d (rw (cyl_size-eq n) at) (rw (cyl_size-eq n) (omega arith)))

  inside : (at part : ℕ) → at + part ≤ cells → at * cylinder n + part * cylinder n ≤ n
  inside at part h =
      let most : (at + part) * cylinder n ≤ cells * cylinder n = mul-le-mul_right (cylinder n) h in
      let both = add-mul at part (cylinder n) in let fit = cells_fit in omega arith

  start_of-eq :
      (i at part : ℕ) → at + part ≤ cells → 1 ≤ part → start_of n i at ≡ at * cylinder n + lead i
  unfolding start_of
  start_of-eq i at part h pos =
      let fit = inside at part h in
      let one : 1 * cylinder n ≤ part * cylinder n = mul-le-mul_right (cylinder n) pos in
      let ge = cylinder-ge in rw (cyl_size-eq n) (ground arith)

  size_of-eq :
      (i at part : ℕ)
      → at + part ≤ cells
      → lead i * 512 ≤ part * cylinder n
      → size_of n 512 i part ≡ part * cylinder n - lead i * 512
  unfolding size_of
  size_of-eq i at part h room = let fit = inside at part h in rw (cyl_size-eq n) (ground arith)

  partition-eq :
      (i at part : ℕ)
      → at + part ≤ cells
      → 1 ≤ part
      → lead i * 512 ≤ part * cylinder n
      → partition n 512 i at part ≡ placed n i at part
  unfolding placed
  partition-eq i at part h pos room =
      let fit = inside at part h in
      let one : 1 * cylinder n ≤ part * cylinder n = mul-le-mul_right (cylinder n) pos in
      let ge = cylinder-ge in
      let start = start_of-eq i at part h pos in
      let size = size_of-eq i at part h room in
      let low : lead i ≤ 63 = ground arith in
      let sectors = (part * cylinder n - lead i * 512) / 512 in
      let offset : u64 ((at * cylinder n + lead i) * 512) ≡ (at * cylinder n + lead i) * 512 =
        omega arith in
      let length : u64 (sectors * 512) ≡ sectors * 512 = omega arith in
      rw (size, start, offset, length) refl

  none-placed : (i at part : ℕ) → part ≡ 0 → placed n i at part ≡ none
  unfolding placed
  none-placed i at part e = rw e (ground arith)

  -- What the code does with a division.
  here-eq :
      (i at part : ℕ)
      → at + part ≤ cells
      → (i ≢ 0) ⊎ ((part ≡ 0) ⊎ (63 * 512 ≤ part * cylinder n))
      → (if part == 0 then none else partition n 512 i at part) ≡ placed n i at part
  here-eq i at part h room = elim (Bool-cases (part == 0)) [
    | inl e ↦ rw e (sym (none-placed i at part (ground arith)))
    | inr e ↦ rw e (partition-eq i at part h (ground arith) (ground arith))
  ]

  next-eq :
      (at part : ℕ) → at + part ≤ cells → (if part == 0 then at else u32 (at + part)) ≡ at + part
  next-eq at part h = let (c, few) = cells-eq in ground arith

  -- The shares of divisions of at most 100 percent.
  share-le : (d : ℕ) → share n d * 100 ≤ cells * d
  share-le d = div-mul-le_self (cells * d) 100

  pub planned-eq :
      (ds : List ℕ) (i at j : ℕ)
      → sum ds ≤ 100
      → at * 100 + cells * sum ds ≤ cells * 100
      → (i ≢ 0) ⊎ HasLead n ds
      → planned n 512 ds i at j ≡ plan n ds i at j
  unfolding planned plan sum HasLead
  planned-eq [] i at j few fits room = refl
  planned-eq (d ∷ ds) i at j few fits room =
      let part = share n d in
      let le = share-le d in
      let all = mul-add cells d (sum ds) in
      let h : at + part ≤ cells = omega arith in
      let same : cylinders n d ≡ part = share-eq d (omega arith) in
      let rest =
        planned-eq ds (i + 1) (at + part) j (omega arith) (omega arith) (inl (λ e. omega arith)) in
      rw (same, next-eq at part h, here-eq i at part h room, rest) refl

-- A partition lies in its cylinders, in sectors for bytes.
placed-bounds :
    (n i before part : ℕ) (p : Partition)
    → placed n i before part ≡ some p
    → (before * cylinder n * 512 ≤ p.part_offset)
      × (p.part_offset + p.part_size ≤ (before + part) * cylinder n * 512)
unfolding placed
placed-bounds n i before part p h =
    let sectors = (part * cylinder n - lead i * 512) / 512 in
    let both = add-mul before part (cylinder n) in
    elim (Bool-cases (sectors == 0)) [
      | inl e ↦ absurd (ground arith)
      | inr e ↦ (ground arith, ground arith)
    ]

plan-from :
    (n : ℕ) (ds : List ℕ) (i before j : ℕ) (p : Partition)
    → plan n ds i before j ≡ some p
    → before * cylinder n * 512 ≤ p.part_offset
unfolding plan
plan-from n [] i before j p h = absurd (ground arith)
plan-from n (d ∷ ds) i before j p h =
    let more = add-mul before (share n d) (cylinder n) in
    let rest = plan-from n ds (i + 1) (before + share n d) j p in
    let here = placed-bounds n i before (share n d) p in
    elim (Bool-cases (j == i)) [ inl e ↦ (here (ground arith)).0 | inr e ↦ ground arith ]

-- The partitions that are planned come one after the other.
pub plan-ordered :
    (n : ℕ) (ds : List ℕ) (i before j k : ℕ) (p q : Partition)
    → j < k
    → plan n ds i before j ≡ some p
    → plan n ds i before k ≡ some q
    → i ≤ j
    → p.part_offset + p.part_size ≤ q.part_offset
unfolding plan
plan-ordered n [] i before j k p q less h g low = absurd (ground arith)
plan-ordered n (d ∷ ds) i before j k p q less h g low =
    let other : (k == i) ≡ false = ground arith in
    let after : plan n ds (i + 1) (before + share n d) k ≡ some q = ground arith in
    elim (Bool-cases (j == i)) [
      | inl e ↦
          let ends = (placed-bounds n i before (share n d) p (ground arith)).1 in
          let starts = plan-from n ds (i + 1) (before + share n d) k q after in omega arith
      | inr e ↦
          plan-ordered n ds (i + 1) (before + share n d) j k p q less (ground arith) after
            (ground arith)
    ]
