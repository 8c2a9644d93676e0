-- ===== src/Mbr/Scanned.antt =====
-- What a scan reads of a table that has been written to a device.
use initramfstool.Base.{
  ℕ, zero, suc, ◌+◌, ◌-◌, ◌%◌, ◌^◌, ◌<◌, ◌≤◌, ◌≡◌, inl, inr, refl, ap, ap₂, sym, ◌∙◌, arith, true,
  false, List, [], Option, none, ◌==◌, ltb, if◌then◌else◌, length, get_or, Bool-cases, ltb→lt,
}
use mathlib.Core.Path.{subst}
use initramfstool.Bdev.{Bdev, eok, read_span, write_span}
use initramfstool.Bdev.Spans.{read_span-same, read_span-write_span}
use initramfstool.Blockdev.{init, fini}
use initramfstool.Blockdev.Bytes.{writebytes, readbytes}
use initramfstool.Blockdev.Bytes.Placed.{IsPlace}
use initramfstool.Blockdev.Bytes.Stored.{writebytes-IsWritten}
use initramfstool.Blockdev.Bytes.Loaded.{readbytes-IsRead}
use initramfstool.Dir.Bytes.{Memory, slice, get16, get16-same}
use initramfstool.Mbr.{
  Partition, entry_at, scan_entry, scan_table, scan_read, mbr_scan, mbr_write, close, table, sum,
  mbr_size, mbr_signature,
}
use initramfstool.Mbr.Entries.{planned, scan_entry-same, scan_entry-table, get16-table}

-- A device of blocks of 512 bytes that does not fail, and has room for the table.
pub record IsDrive (s : Bdev) : Type 0 where
  pub size : s.ph_bsize ≡ 512
  pub whole : s.part_offset % 512 ≡ 0
  pub counts : s.ph_refctr + 1 < 2 ^ 32
  pub large : 512 ≤ s.part_size
  pub fits : s.part_size + s.part_offset < 2 ^ 64
  pub quiet : s.outcomes ≡ []

-- `ext4_block_init` opens it.
record IsOpened (s : Bdev) (p : ℕ × Bdev) : Type 0 where
  result : p.0 ≡ eok
  place : IsPlace p.1 0 512
  quiet : p.1.outcomes ≡ []
  disk : p.1.disk ≡ s.disk
  begin : p.1.part_offset ≡ s.part_offset
  size : p.1.part_size ≡ s.part_size
  bsize : p.1.ph_bsize ≡ 512

opened :
    (s t : Bdev)
    → IsDrive s
    → t.ph_bsize ≡ s.ph_bsize
    → t.part_offset ≡ s.part_offset
    → t.part_size ≡ s.part_size
    → t.disk ≡ s.disk
    → t.outcomes ≡ []
    → (t.ph_refctr == 0) ≡ false
    → IsOpened s (eok, t)
opened s t d bsize offset size disk quiet used =
    let e : t.ph_bsize ≡ 512 = bsize ∙ d.size in
    let large = d.large in
    let fits = d.fits in
    record {
      result = refl;
      place = record {
        power = 9;
        size = e;
        size_fits = omega arith;
        some = omega arith;
        whole = rw (e, offset) d.whole;
        opened = used;
        inside = omega arith;
        fits = omega arith;
        len_fits = omega arith;
      };
      quiet = quiet;
      disk = disk;
      begin = offset;
      size = size;
      bsize = e;
    }

init-IsOpened : (s : Bdev) → IsDrive s → IsOpened s (init s)
unfolding init
init-IsOpened s d =
    let counts = d.counts in
    elim (Bool-cases (s.ph_refctr == 0)) [
      | inl e ↦ simp (e, d.quiet) (opened s _ d refl refl refl refl refl refl)
      | inr e ↦ simp e (opened s _ d refl refl refl refl d.quiet (ground arith))
    ]

fini-disk : (s : Bdev) → (fini s).1.disk ≡ s.disk
unfolding fini
fini-disk s = elim (Bool-cases (s.ph_refctr == 0)) [
  | inl e ↦ rw e refl
  | inr e ↦ elim (Bool-cases (s.ph_refctr - 1 == 0)) [
    | inl k ↦ rw (e, k) refl
    | inr k ↦ rw (e, k) refl
  ]
]

length-slice : (m : Memory) (p n : ℕ) → length (slice m p n) ≡ n
unfolding slice
length-slice m p zero = refl
length-slice m p (suc n) = ap suc (length-slice m (p + 1) n)

get_or-slice : (m : Memory) (p n x : ℕ) → x < n → get_or (slice m p n) x 0 ≡ m (p + x)
unfolding slice
get_or-slice m p zero x h = absurd (omega arith)
get_or-slice m p (suc n) zero h = ap m (omega arith)
get_or-slice m p (suc n) (suc x) h = get_or-slice m (p + 1) n x (omega arith) ∙ ap m (omega arith)

module _ (ds : List ℕ) (disk_id : ℕ) where
  abbrev bytes : Bdev → List ℕ
  bytes s = slice (table s.part_size s.ph_bsize ds disk_id) 0 mbr_size

  -- The table is put on the device.
  written :
      (s : Bdev)
      → IsDrive s
      → sum ds ≤ 100
      → ((mbr_write s ds disk_id).0 ≡ eok)
        × ((a : ℕ)
            → (mbr_write s ds disk_id).1.disk a ≡ write_span s.disk s.part_offset (bytes s) a)
  unfolding mbr_write close
  written s d few =
      let o = init-IsOpened s d in
      let open_dev = (init s).1 in
      let put = bytes open_dev in
      let place =
        subst (λ (n : ℕ). IsPlace open_dev 0 n)
          (sym (length-slice (table open_dev.part_size open_dev.ph_bsize ds disk_id) 0 mbr_size))
          o.place in
      let w = writebytes-IsWritten open_dev 0 put place o.quiet in
      let fine : ltb 100 (sum ds) ≡ false = ground arith in
      let at : 0 + open_dev.part_offset ≡ s.part_offset = (let e = o.begin in omega arith) in
      let same : put ≡ bytes s =
        ap₂ (λ (x y : ℕ). slice (table x y ds disk_id) 0 mbr_size) o.size (o.bsize ∙ sym d.size) in
      (
        rw (fine, o.result) w.result,
        λ a.
            rw (fine, o.result)
              (ap (λ (f : ℕ → ℕ). f a) (fini-disk (writebytes open_dev 0 put).1)
                ∙ w.disk a
                ∙ ap (λ (f : ℕ → ℕ). write_span f (0 + open_dev.part_offset) put a) o.disk
                ∙ ap₂ (λ (x : ℕ) (b : List ℕ). write_span s.disk x b a) at same),
      )

  -- The partitions of a table.
  abbrev pub partitions : ℕ → ℕ → Option Partition
  partitions disk_size j = if ltb j 4 then planned disk_size 512 ds 0 0 j else none

  module _ (disk_size : ℕ) where
    abbrev image : Memory
    image = table disk_size 512 ds disk_id

    abbrev table_read : Memory
    table_read x = get_or (slice image 0 mbr_size) x 0

    table_read-same : (x : ℕ) → x < 512 → table_read x ≡ image x
    table_read-same x h = get_or-slice image 0 512 x h ∙ ap image (omega arith)

    signed : (get16 table_read 510 == mbr_signature) ≡ true
    signed =
        rw
          (get16-same image table_read 510 (λ x h k. table_read-same x (omega arith))
            ∙ get16-table disk_size 512 ds disk_id)
          refl

    entry_scanned : (j : ℕ) → j < 4 → scan_entry 512 table_read j ≡ planned disk_size 512 ds 0 0 j
    unfolding entry_at
    entry_scanned j h =
        scan_entry-same 512 image table_read j (λ x a b. table_read-same x (omega arith))
        ∙ scan_entry-table disk_size 512 (omega arith) ds disk_id j h

  scan_bytes :
      (disk_size : ℕ)
      → let p =
          scan_table 512 (λ x. get_or (slice (table disk_size 512 ds disk_id) 0 mbr_size) x 0) in
        (p.0 ≡ eok) × ((j : ℕ) → p.1 j ≡ partitions disk_size j)
  unfolding scan_table
  scan_bytes disk_size = (
    rw (signed disk_size) refl,
    λ j. rw (signed disk_size) (elim (Bool-cases (ltb j 4)) [
      | inl l ↦ rw l (entry_scanned disk_size j (ltb→lt j 4 l))
      | inr l ↦ rw l refl
    ]),
  )

  scanned :
      (t : Bdev) (disk_size : ℕ) (d : ℕ → ℕ)
      → IsDrive t
      → ((a : ℕ)
          → t.disk a
            ≡ write_span d t.part_offset (slice (table disk_size 512 ds disk_id) 0 mbr_size) a)
      → ((mbr_scan t).0 ≡ eok) × ((j : ℕ) → (mbr_scan t).1 j ≡ partitions disk_size j)
  unfolding mbr_scan scan_read
  scanned t disk_size d drive holds =
      let o = init-IsOpened t drive in
      let open_dev = (init t).1 in
      let r = readbytes-IsRead open_dev 0 mbr_size o.place o.quiet in
      let at : 0 + open_dev.part_offset ≡ t.part_offset = (let e = o.begin in omega arith) in
      let image' = slice (table disk_size 512 ds disk_id) 0 mbr_size in
      let got : (readbytes open_dev 0 mbr_size).1 ≡ image' =
        r.bytes
        ∙ read_span-same open_dev.disk (write_span d t.part_offset image')
            (0 + open_dev.part_offset) 512 (λ a h k. ap (λ (f : ℕ → ℕ). f a) o.disk ∙ holds a)
        ∙ ap₂ (λ (x n : ℕ). read_span (write_span d t.part_offset image') x n) at
            (sym (length-slice (table disk_size 512 ds disk_id) 0 512))
        ∙ read_span-write_span d t.part_offset image' in
      let bsize : (readbytes open_dev 0 mbr_size).2.ph_bsize ≡ 512 = r.ph_bsize ∙ o.bsize in
      let (code, found) = scan_bytes disk_size in
      (rw (o.result, r.result, bsize, got) code, λ j. rw (o.result, r.result, bsize, got) (found j))

  -- What a scan finds of a table that was written.
  pub put_found :
      (s t : Bdev)
      → IsDrive s
      → IsDrive t
      → sum ds ≤ 100
      → t.part_offset ≡ s.part_offset
      → t.disk ≡ (mbr_write s ds disk_id).1.disk
      → ((mbr_write s ds disk_id).0 ≡ eok)
        × ((mbr_scan t).0 ≡ eok)
        × ((j : ℕ) → (mbr_scan t).1 j ≡ partitions s.part_size j)
  put_found s t ds' dt few place holds =
      let (done, put) = written s ds' few in
      let (code, found) = scanned t s.part_size s.disk dt (λ a.
        ap (λ (f : ℕ → ℕ). f a) holds
        ∙ put a
        ∙ ap₂
            (λ (x b : ℕ). write_span s.disk x (slice (table s.part_size b ds disk_id) 0 mbr_size) a)
            (sym place) ds'.size) in
      (done, code, found)
