-- ===== src/Mbr.antt =====
-- The partition table: SharpExt4/lwext4/src/ext4_mbr.c. The first 512 bytes of the device, `struct
-- ext4_mbr`, are a `Memory`, from the offset to the byte.
--
-- The buffer of the table is `ph_bbuf` of the device. Here it is a buffer of its own: for physical
-- blocks of more than 512 bytes `ext4_block_writebytes` reads the block into `ph_bbuf` itself.
pub mod Entries
pub mod Scanned
pub mod Geometry
pub mod Planned
pub mod Found
mod Tests
use initramfstool.Base.{
  ℕ, zero, suc, ◌+◌, ◌-◌, ◌*◌, ◌/◌, ◌%◌, ◌^◌, Bool, true, false, not, ◌&&◌, ◌||◌, List, [], ◌∷◌,
  Option, none, some, ◌==◌, ltb, leb, if◌then◌else◌, u32, u64, get_or,
}
use initramfstool.Bdev.{Bdev, eok}
use initramfstool.Blockdev.{init, fini}
use initramfstool.Blockdev.Bytes.{writebytes, readbytes, einval}
use initramfstool.Dir.{enoent}
use initramfstool.Dir.Bytes.{Memory, put8, get16, put16, get32, put32, slice}

abbrev pub mbr_size : ℕ
mbr_size = 512

abbrev pub mbr_signature : ℕ
mbr_signature = 0xaa55

abbrev pub linux_native : ℕ
linux_native = 0x83

-- `part_offset` and `part_size` of a block device of `struct ext4_mbr_bdevs`.
pub record Partition : Type 0 where
  pub part_offset : ℕ
  pub part_size : ℕ

-- The entry `i` of the table.
unfoldable pub entry_at : ℕ → ℕ
entry_at i = 446 + 16 * i

unfoldable pub scan_entry : ℕ → Memory → ℕ → Option Partition
scan_entry ph_bsize m i =
    if get32 m (entry_at i + 12) == 0
    then none
    else if not (m (entry_at i + 4) == linux_native)
    then none
    else some (record {
      part_offset = u64 (get32 m (entry_at i + 8) * ph_bsize);
      part_size = u64 (get32 m (entry_at i + 12) * ph_bsize);
    })

-- A device of the list has no interface where there is no partition.
abbrev pub no_partitions : ℕ → Option Partition
no_partitions i = none

unfoldable pub scan_table : ℕ → Memory → ℕ × (ℕ → Option Partition)
scan_table ph_bsize m =
    if not (get16 m 510 == mbr_signature)
    then (enoent, no_partitions)
    else (eok, λ i. if ltb i 4 then scan_entry ph_bsize m i else none)

-- The return code, `bdevs` and the device.
unfoldable pub scan_read : ℕ × List ℕ × Bdev → ℕ × (ℕ → Option Partition) × Bdev
scan_read p =
    let (r, bytes, s) = p in
    let (code, partitions) = scan_table s.ph_bsize (λ x. get_or bytes x 0) in
    let (_, closed) = fini s in
    if r == eok then (code, partitions, closed) else (r, no_partitions, closed)

unfoldable pub mbr_scan : Bdev → ℕ × (ℕ → Option Partition) × Bdev
mbr_scan s =
    let (r, s1) = init s in
    if r == eok then scan_read (readbytes s1 0 mbr_size) else (r, no_partitions, s1)

-- The heads of the geometry. From 16 on, 256 is reached after four rounds.
unfoldable pub heads_loop : ℕ → ℕ → ℕ → ℕ
heads_loop zero disk_size k = k
heads_loop (suc fuel) disk_size k =
    let rest = heads_loop fuel disk_size (k * 2) in
    if ltb k 256 && ltb 1024 (disk_size / k / 63) then rest else k

unfoldable pub heads : ℕ → ℕ
heads disk_size = let k = heads_loop 4 disk_size 16 in if k == 256 then k - 1 else k

unfoldable pub cyl_size : ℕ → ℕ
cyl_size disk_size = 63 * heads disk_size

unfoldable pub cyl_count : ℕ → ℕ
cyl_count disk_size = u32 (disk_size / cyl_size disk_size)

-- `cyl_part`.
unfoldable pub cylinders : ℕ → ℕ → ℕ
cylinders disk_size division = u32 (cyl_count disk_size * division) / 100

-- `part_start` and `part_size`, where the first partition leaves room for the table.
unfoldable pub start_of : ℕ → ℕ → ℕ → ℕ
start_of disk_size i cyl_it =
    let start = u32 (cyl_it * cyl_size disk_size) in if i == 0 then u32 (start + 63) else start

unfoldable pub size_of : ℕ → ℕ → ℕ → ℕ → ℕ
size_of disk_size ph_bsize i cyl_part =
    let size = u32 (cyl_part * cyl_size disk_size) in
    if i == 0 then u32 (size + 2 ^ 32 - u32 (63 * ph_bsize)) else size

-- The status, the type and the two addresses by cylinder, head and sector.
unfoldable pub put_geometry : ℕ → ℕ → ℕ → ℕ → Memory → Memory
put_geometry disk_size i cyl_it cyl_part m =
    let e = entry_at i in
    let cyl_end = u32 (cyl_part + cyl_it + 2 ^ 32 - 1) in
    let m1 = put8 m e 0 in
    let m2 = put8 m1 (e + 1) (if i == 0 then 1 else 0) in
    let m3 = put8 m2 (e + 2) (cyl_it / 4 + 1) in
    let m4 = put8 m3 (e + 3) cyl_it in
    let m5 = put8 m4 (e + 4) linux_native in
    let m6 = put8 m5 (e + 5) (heads disk_size - 1) in
    let m7 = put8 m6 (e + 6) (cyl_end / 4 + 63) in put8 m7 (e + 7) cyl_end

unfoldable pub put_entry : ℕ → ℕ → ℕ → ℕ → ℕ → Memory → Memory
put_entry disk_size ph_bsize i cyl_it cyl_part m =
    let e = entry_at i in
    let placed =
      put32 (put_geometry disk_size i cyl_it cyl_part m) (e + 8) (start_of disk_size i cyl_it) in
    put32 placed (e + 12) (size_of disk_size ph_bsize i cyl_part / ph_bsize)

-- A round for each part that is left.
unfoldable pub put_entries : ℕ → ℕ → List ℕ → ℕ → ℕ → Memory → Memory
put_entries disk_size ph_bsize [] i cyl_it m = m
put_entries disk_size ph_bsize (division ∷ rest) i cyl_it m =
    let part = cylinders disk_size division in
    let next = if part == 0 then cyl_it else u32 (cyl_it + part) in
    put_entries disk_size ph_bsize rest (i + 1) next
      (if part == 0 then m else put_entry disk_size ph_bsize i cyl_it part m)

unfoldable pub table : ℕ → ℕ → List ℕ → ℕ → Memory
table disk_size ph_bsize divisions disk_id =
    put16 (put_entries disk_size ph_bsize divisions 0 0 (put32 (λ x. 0) 442 disk_id)) 510
      mbr_signature

unfoldable pub sum : List ℕ → ℕ
sum [] = 0
sum (d ∷ ds) = d + sum ds

unfoldable pub close : ℕ × Bdev → ℕ × Bdev
close p = let (r, s) = p in let (_, closed) = fini s in (r, closed)

-- The four divisions of `struct ext4_mbr_parts` are a list.
unfoldable pub mbr_write : Bdev → List ℕ → ℕ → ℕ × Bdev
mbr_write s divisions disk_id =
    let (r, s1) = init s in
    if ltb 100 (sum divisions)
    then (einval, s)
    else if r == eok
    then close
        (writebytes s1 0 (slice (table s1.part_size s1.ph_bsize divisions disk_id) 0 mbr_size))
    else (r, s1)
