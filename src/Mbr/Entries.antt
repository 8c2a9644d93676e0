-- ===== src/Mbr/Entries.antt =====
-- The table that `ext4_mbr_write` makes, as `ext4_mbr_scan` reads it.
use initramfstool.Base.{
  ℕ, ◌+◌, ◌*◌, ◌/◌, ◌^◌, ◌<◌, ◌≤◌, ◌≡◌, ◌≢◌, ◌⊎◌, inl, inr, refl, ap, ◌∙◌, arith, List, [], ◌∷◌,
  Option, none, some, ◌==◌, ltb, if◌then◌else◌, u32, u64, Bool-cases,
}
use native.Mathlib.Nat.{div-le_self}
use initramfstool.Dir.Bytes.{
  Memory, SameOn, SameOutside, put8, get16, put16, get32, put32, get32-same, get32-put32,
  get16-put16, put16-outside, put32-outside, outside-wider,
}
use initramfstool.Mbr.{
  Partition, entry_at, scan_entry, put_geometry, put_entry, put_entries, cylinders, start_of,
  size_of, linux_native, table,
}

-- The partition of `part` cylinders from `cyl_it` on.
abbrev pub partition : ℕ → ℕ → ℕ → ℕ → ℕ → Option Partition
partition disk_size ph_bsize i cyl_it part =
    let sectors = size_of disk_size ph_bsize i part / ph_bsize in
    if sectors == 0
    then none
    else some (record {
      part_offset = u64 (start_of disk_size i cyl_it * ph_bsize);
      part_size = u64 (sectors * ph_bsize);
    })

-- The partitions that the divisions stand for, each after the cylinders of those before it.
unfoldable pub planned : ℕ → ℕ → List ℕ → ℕ → ℕ → ℕ → Option Partition
planned disk_size ph_bsize [] i cyl_it j = none
planned disk_size ph_bsize (division ∷ rest) i cyl_it j =
    let part = cylinders disk_size division in
    let next = if part == 0 then cyl_it else u32 (cyl_it + part) in
    let others = planned disk_size ph_bsize rest (i + 1) next j in
    let here = if part == 0 then none else partition disk_size ph_bsize i cyl_it part in
    if j == i then here else others

pub scan_entry-same :
    (ph_bsize : ℕ) (m m' : Memory) (i : ℕ)
    → SameOn m m' (entry_at i) (entry_at i + 16)
    → scan_entry ph_bsize m' i ≡ scan_entry ph_bsize m i
unfolding scan_entry
scan_entry-same ph_bsize m m' i same =
    rw
      (
        get32-same m m' (entry_at i + 12) (λ x h k. same x (omega arith) (omega arith)),
        get32-same m m' (entry_at i + 8) (λ x h k. same x (omega arith) (omega arith)),
        same (entry_at i + 4) (omega arith) (omega arith),
      )
      refl

module _ (disk_size ph_bsize : ℕ) (some_bytes : 0 < ph_bsize) where
  start_of-lt : (i cyl_it : ℕ) → start_of disk_size i cyl_it < 2 ^ 32
  unfolding start_of
  start_of-lt i cyl_it = ground arith

  size_of-lt : (i part : ℕ) → size_of disk_size ph_bsize i part / ph_bsize < 2 ^ 32
  unfolding size_of
  size_of-lt i part =
      le-trans-lt (div-le_self (size_of disk_size ph_bsize i part) ph_bsize) (whole i part)
    where
      whole : (i part : ℕ) → size_of disk_size ph_bsize i part < 2 ^ 32
      whole i part = ground arith

      le-trans-lt : {a b : ℕ} → a ≤ b → b < 2 ^ 32 → a < 2 ^ 32
      le-trans-lt p q = omega arith

  module _ (i cyl_it part : ℕ) (m : Memory) where
    abbrev e : ℕ
    e = entry_at i

    abbrev base : Memory
    base = put_geometry disk_size i cyl_it part m

    geometry-outside : SameOutside m base e (e + 8)
    unfolding put_geometry put8
    geometry-outside x (inl h) = ground arith
    geometry-outside x (inr h) = ground arith

    geometry-type : base (e + 4) ≡ linux_native
    unfolding put_geometry put8
    geometry-type = ground arith

    abbrev placed : Memory
    placed = put32 base (e + 8) (start_of disk_size i cyl_it)

    abbrev sectors : ℕ
    sectors = size_of disk_size ph_bsize i part / ph_bsize

    abbrev full : Memory
    full = put_entry disk_size ph_bsize i cyl_it part m

    last-outside : SameOutside placed full (e + 12) (e + 12 + 4)
    unfolding put_entry
    last-outside = put32-outside placed (e + 12) sectors

    placed-outside : SameOutside base placed (e + 8) (e + 8 + 4)
    placed-outside = put32-outside base (e + 8) (start_of disk_size i cyl_it)

    put_entry-outside : SameOutside m full e (e + 16)
    put_entry-outside x h =
        outside-wider (e + 12) (e + 12 + 4) e (e + 16) (omega arith) (omega arith) last-outside x h
        ∙ outside-wider (e + 8) (e + 8 + 4) e (e + 16) (omega arith) (omega arith) placed-outside x
            h
        ∙ outside-wider e (e + 8) e (e + 16) (omega arith) (omega arith) geometry-outside x h

    sectors-read : get32 full (e + 12) ≡ sectors
    unfolding put_entry
    sectors-read = get32-put32 placed (e + 12) sectors (size_of-lt i part)

    start-read : get32 full (e + 8) ≡ start_of disk_size i cyl_it
    start-read =
        get32-same placed full (e + 8) (λ x h k. last-outside x (inl (omega arith)))
        ∙ get32-put32 base (e + 8) (start_of disk_size i cyl_it) (start_of-lt i cyl_it)

    type-read : full (e + 4) ≡ linux_native
    type-read =
        last-outside (e + 4) (inl (omega arith))
        ∙ placed-outside (e + 4) (inl (omega arith))
        ∙ geometry-type

    scan_entry-put_entry : scan_entry ph_bsize full i ≡ partition disk_size ph_bsize i cyl_it part
    unfolding scan_entry
    scan_entry-put_entry = rw (sectors-read, start-read, type-read) refl

  scan_entry-put_entry_ne :
      (i cyl_it part : ℕ) (m : Memory) (j : ℕ)
      → j ≢ i
      → scan_entry ph_bsize (put_entry disk_size ph_bsize i cyl_it part m) j
        ≡ scan_entry ph_bsize m j
  unfolding entry_at
  scan_entry-put_entry_ne i cyl_it part m j ne =
      scan_entry-same ph_bsize m (put_entry disk_size ph_bsize i cyl_it part m) j
        (λ x h k. put_entry-outside i cyl_it part m x (apart x h k))
    where
      apart :
          (x : ℕ)
          → 446 + 16 * j ≤ x
          → x < 446 + 16 * j + 16
          → (x < 446 + 16 * i) ⊎ (446 + 16 * i + 16 ≤ x)
      apart x h k = elim (Bool-cases (ltb j i)) [
        | inl l ↦ inl (ground arith)
        | inr l ↦ inr (ground arith)
      ]

  -- The entries before `i` stay, and those from `i` on are the partitions.
  walk :
      (ds : List ℕ) (i cyl_it : ℕ) (m : Memory)
      → ((j : ℕ) → i ≤ j → scan_entry ph_bsize m j ≡ none)
      → (j : ℕ)
      → scan_entry ph_bsize (put_entries disk_size ph_bsize ds i cyl_it m) j
        ≡ (if ltb j i then scan_entry ph_bsize m j else planned disk_size ph_bsize ds i cyl_it j)
  unfolding put_entries planned
  walk [] i cyl_it m free j = elim (Bool-cases (ltb j i)) [
    | inl l ↦ rw l refl
    | inr l ↦ rw l (free j (ground arith))
  ]
  walk (d ∷ ds) i cyl_it m free j = elim (Bool-cases (cylinders disk_size d == 0)) [
    | inl empty ↦
        rw empty (walk ds (i + 1) cyl_it m (λ k h. free k (omega arith)) j ∙ ground (arith, free i))
    | inr part ↦
        let c = cylinders disk_size d in
        let m' = put_entry disk_size ph_bsize i cyl_it c m in
        rw part (
          walk ds (i + 1) (u32 (cyl_it + c)) m'
            (λ k h.
              scan_entry-put_entry_ne i cyl_it c m k (λ e. ground arith) ∙ free k (omega arith))
            j
          ∙ elim (Bool-cases (j == i)) [
            | inl same ↦
                let at : j ≡ i = ground arith in
                ground (
                  arith,
                  scan_entry-put_entry i cyl_it c m,
                  ap (λ (t : ℕ). scan_entry ph_bsize m' t) at,
                )
            | inr other ↦
                let ne : j ≢ i = λ e. ground arith in
                ground (arith, scan_entry-put_entry_ne i cyl_it c m j ne)
          ])
  ]

  zeros-free : (m : Memory) (j : ℕ) → ((x : ℕ) → 446 ≤ x → m x ≡ 0) → scan_entry ph_bsize m j ≡ none
  unfolding scan_entry entry_at get32 get16
  zeros-free m j zeros =
      let e = 446 + 16 * j in
      rw
        (
          zeros (e + 12) (omega arith),
          zeros (e + 12 + 1) (omega arith),
          zeros (e + 12 + 2) (omega arith),
          zeros (e + 12 + 2 + 1) (omega arith),
        )
        refl

  -- Each entry of the table is read as the partition that was planned.
  pub scan_entry-table :
      (ds : List ℕ) (disk_id j : ℕ)
      → j < 4
      → scan_entry ph_bsize (table disk_size ph_bsize ds disk_id) j
        ≡ planned disk_size ph_bsize ds 0 0 j
  unfolding table entry_at
  scan_entry-table ds disk_id j h =
      let start = put32 (λ x. 0) 442 disk_id in
      let m = put_entries disk_size ph_bsize ds 0 0 start in
      scan_entry-same ph_bsize m (put16 m 510 0xaa55) j
        (λ x a b. put16-outside m 510 0xaa55 x (inl (omega arith)))
      ∙ walk ds 0 0 start
          (λ k a.
            zeros-free start k (λ x b. put32-outside (λ x. 0) 442 disk_id x (inr (omega arith))))
          j
      ∙ ground arith

pub get16-table :
    (disk_size ph_bsize : ℕ) (ds : List ℕ) (disk_id : ℕ)
    → get16 (table disk_size ph_bsize ds disk_id) 510 ≡ 0xaa55
unfolding table
get16-table disk_size ph_bsize ds disk_id = get16-put16 _ 510 0xaa55 (omega arith)
