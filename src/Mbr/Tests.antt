-- ===== src/Mbr/Tests.antt =====
-- A disk of 100 MiB with two partitions, and the theorems at it.
use initramfstool.Base.{
  ℕ, ◌*◌, ◌≤◌, ◌≡◌, refl, arith, List, [], ◌∷◌, none, some, inr, ◌+◌, ltb, if◌then◌else◌,
}
use initramfstool.Bdev.{Bdev, eok}
use initramfstool.Blockdev.Tests.{device}
use initramfstool.Mbr.{
  mbr_scan, mbr_write, heads_loop, heads, cyl_size, cyl_count, cylinders, start_of, sum,
}
use initramfstool.Mbr.Planned.{fewest_heads, placed, plan, HasLead}
use initramfstool.Mbr.Scanned.{IsDrive}
use initramfstool.Mbr.Found.{EndsBefore, mbr_scan-mbr_write}
use initramfstool.Mbr.Geometry.{second_past_end}

abbrev hundred_mib : ℕ
hundred_mib = 104857600

abbrev drive : Bdev
drive = record (device []) {
  ph_bsize = 512;
  ph_refctr = 0;
  part_offset = 0;
  part_size = hundred_mib;
}

abbrev divisions : List ℕ
divisions = 50 ∷ 30 ∷ 0 ∷ 0 ∷ []

abbrev formatted : Bdev
formatted = record drive { disk = (mbr_write drive divisions 77).1.disk }

drive-IsDrive : IsDrive drive
drive-IsDrive = record {
  size = refl;
  whole = refl;
  counts = omega arith;
  large = omega arith;
  fits = omega arith;
  quiet = refl;
}

formatted-IsDrive : IsDrive formatted
formatted-IsDrive = record {
  size = refl;
  whole = refl;
  counts = omega arith;
  large = omega arith;
  fits = omega arith;
  quiet = refl;
}

few : sum divisions ≤ 100
unfolding sum
few = omega arith

lead : HasLead hundred_mib divisions
unfolding HasLead fewest_heads
lead = inr (omega arith)

-- 3263 and 1958 cylinders of 16065 bytes.
planned_runs :
    (plan hundred_mib divisions 0 0 0
      ≡ some (record { part_offset = 63 * 512; part_size = 102319 * 512 }))
    × (plan hundred_mib divisions 0 0 1
        ≡ some (record { part_offset = 3263 * 16065 * 512; part_size = 61436 * 512 }))
    × (plan hundred_mib divisions 0 0 2 ≡ none)
unfolding plan placed fewest_heads
planned_runs = (refl, refl, refl)

mbr_scan-mbr_write_example :
    ((mbr_write drive divisions 77).0 ≡ eok)
    × ((mbr_scan formatted).0 ≡ eok)
    × ((j : ℕ)
        → (mbr_scan formatted).1 j ≡ (if ltb j 4 then plan hundred_mib divisions 0 0 j else none))
    × ((j i : ℕ) → EndsBefore ((mbr_scan formatted).1 j) ((mbr_scan formatted).1 (j + 1 + i)))
mbr_scan-mbr_write_example =
    mbr_scan-mbr_write divisions 77 drive formatted drive-IsDrive formatted-IsDrive (omega arith)
      few lead refl refl

cylinders_run : (cyl_count hundred_mib ≡ 6527) × (heads hundred_mib ≡ 255)
unfolding cyl_count cyl_size heads heads_loop
cylinders_run = (refl, refl)

second_past_end_example : hundred_mib ≤ start_of hundred_mib 1 (cylinders hundred_mib 50) * 512
second_past_end_example =
    second_past_end hundred_mib 50 (omega arith) (omega (arith, cylinders_run.0)) (omega arith)
      (omega arith)
