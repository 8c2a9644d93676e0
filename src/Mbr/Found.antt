-- ===== src/Mbr/Found.antt =====
-- A table that has been written to a device is found by a scan.
use initramfstool.Base.{
  ℕ, ◌+◌, ◌/◌, ◌^◌, ◌<◌, ◌≤◌, ◌≡◌, inr, refl, sym, ap, ◌∙◌, arith, List, Option, none, some, ltb,
  if◌then◌else◌,
}
use native.Mathlib.Nat.{mul-le-mul_left}
use initramfstool.Bdev.{Bdev, eok}
use initramfstool.Mbr.{Partition, mbr_scan, mbr_write, sum}
use initramfstool.Mbr.Planned.{cylinder, plan, HasLead, planned-eq, plan-ordered}
use initramfstool.Mbr.Scanned.{IsDrive, partitions, put_found}

-- Two partitions, if both are there, of which the first ends before the second starts.
pub EndsBefore : Option Partition → Option Partition → Type 0
EndsBefore none q = Unit
EndsBefore (some p) none = Unit
EndsBefore (some p) (some q) = p.part_offset + p.part_size ≤ q.part_offset

ends_before :
    (o o' : Option Partition)
    → ((p q : Partition) → o ≡ some p → o' ≡ some q → p.part_offset + p.part_size ≤ q.part_offset)
    → EndsBefore o o'
unfolding EndsBefore
ends_before none o' h = tt
ends_before (some p) none h = tt
ends_before (some p) (some q) h = h p q refl refl

within_four :
    (j : ℕ) (found : Option Partition) (p : Partition)
    → (if ltb j 4 then found else none) ≡ some p
    → found ≡ some p
within_four j found p h = ground arith

module _ (ds : List ℕ) (disk_id : ℕ) where
  -- The partitions by the numbers without bounds.
  partitions-plan :
      (n : ℕ)
      → n < 2 ^ 32
      → sum ds ≤ 100
      → HasLead n ds
      → (j : ℕ) → partitions ds disk_id n j ≡ (if ltb j 4 then plan n ds 0 0 j else none)
  partitions-plan n small few lead j =
      ap (λ (p : Option Partition). if ltb j 4 then p else none)
        (planned-eq n small ds 0 0 j few (omega (arith, mul-le-mul_left (n / cylinder n) few))
          (inr lead))

  -- Writing a table of divisions of at most 100 percent succeeds, and a scan of a device that holds what
  -- it left finds the partitions of the first four divisions, and no others: each has the whole
  -- sectors of its cylinders, less 63 for the first one, and starts after as many sectors as the
  -- cylinders before it have bytes. No partition reaches into a later one.
  -- Both are devices of blocks of 512 bytes that do not fail, with room for the table, at the same place,
  -- which starts at a block and ends below 2 ^ 64, and they are opened fewer than 2 ^ 32 - 1 times. The
  -- disk that is divided has fewer than 2 ^ 32 bytes, and its first division no cylinders or at least 63
  -- sectors.
  pub mbr_scan-mbr_write :
      (s t : Bdev)
      → IsDrive s
      → IsDrive t
      → s.part_size < 2 ^ 32
      → sum ds ≤ 100
      → HasLead s.part_size ds
      → t.part_offset ≡ s.part_offset
      → t.disk ≡ (mbr_write s ds disk_id).1.disk
      → ((mbr_write s ds disk_id).0 ≡ eok)
        × ((mbr_scan t).0 ≡ eok)
        × ((j : ℕ) → (mbr_scan t).1 j ≡ (if ltb j 4 then plan s.part_size ds 0 0 j else none))
        × ((j i : ℕ) → EndsBefore ((mbr_scan t).1 j) ((mbr_scan t).1 (j + 1 + i)))
  mbr_scan-mbr_write s t ds' dt small few lead place holds =
      let (done, code, found) = put_found ds disk_id s t ds' dt few place holds in
      let n = s.part_size in
      let at : (j : ℕ) → (mbr_scan t).1 j ≡ (if ltb j 4 then plan n ds 0 0 j else none) =
        λ j. found j ∙ partitions-plan n small few lead j in
      let kept : (j : ℕ) (p : Partition) → (mbr_scan t).1 j ≡ some p → plan n ds 0 0 j ≡ some p =
        λ j p h. within_four j (plan n ds 0 0 j) p (sym (at j) ∙ h) in
      (
        done,
        code,
        at,
        λ j i. ends_before ((mbr_scan t).1 j) ((mbr_scan t).1 (j + 1 + i)) (λ p q h g.
            plan-ordered n ds 0 0 j (j + 1 + i) p q (omega arith) (kept j p h)
              (kept (j + 1 + i) q g) (omega arith)),
      )
