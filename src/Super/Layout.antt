-- ===== src/Super/Layout.antt =====
-- The memory of `struct ext4_sblock` (SharpExt4/lwext4/include/ext4_types.h), which is packed. The fields
-- of `Sblock` stand at their offsets; `rest` holds those that `Sblock` lacks.
use initramfstool.Base.{ℕ, zero, suc, ◌+◌, ◌<◌, ◌≡◌, inl, sym, ◌∙◌, arith, List, [], ◌∷◌, IsBytes}
use initramfstool.Dir.Bytes.{Memory, put8, put16, put32, copy, slice, put32-outside}
use initramfstool.Super.{Sblock}

-- An offset and the number that stands there.
abbrev pub Field : Type 0
Field = ℕ × ℕ

unfoldable pub put16_all : Memory → List Field → Memory
put16_all m [] = m
put16_all m ((p, v) ∷ fields) = put16_all (put16 m p v) fields

unfoldable pub put32_all : Memory → List Field → Memory
put32_all m [] = m
put32_all m ((p, v) ∷ fields) = put32_all (put32 m p v) fields

abbrev pub words : Sblock → List Field
words s =
    (0, s.inodes_count)
    ∷ (4, s.blocks_count_lo)
    ∷ (12, s.free_blocks_count_lo)
    ∷ (16, s.free_inodes_count)
    ∷ (20, s.first_data_block)
    ∷ (24, s.log_block_size)
    ∷ (28, s.log_cluster_size)
    ∷ (32, s.blocks_per_group)
    ∷ (40, s.inodes_per_group)
    ∷ (72, s.creator_os)
    ∷ (76, s.rev_level)
    ∷ (84, s.first_inode)
    ∷ (92, s.features_compatible)
    ∷ (96, s.features_incompatible)
    ∷ (100, s.features_read_only)
    ∷ (260, s.first_meta_bg)
    ∷ (336, s.blocks_count_hi)
    ∷ (344, s.free_blocks_count_hi)
    ∷ (352, s.flags)
    ∷ []

abbrev pub halves : Sblock → List Field
halves s =
    (56, s.magic)
    ∷ (62, s.minor_rev_level)
    ∷ (88, s.inode_size)
    ∷ (206, s.s_reserved_gdt_blocks)
    ∷ (254, s.desc_size)
    ∷ []

unfoldable pub sb_memory : Memory → Sblock → Memory
sb_memory rest s =
    let fields = put16_all (put32_all (put32 rest 1020 s.checksum) (words s)) (halves s) in
    copy (put8 (put8 fields 372 s.log_groups_per_flex) 373 s.checksum_type) 104 s.uuid

-- Memory of bytes.
abbrev pub AllBytes : Memory → Type 0
AllBytes m = (x : ℕ) → m x < 256

put8-bytes : (m : Memory) (p v : ℕ) → AllBytes m → AllBytes (put8 m p v)
unfolding put8
put8-bytes m p v h x = ground (arith, h x)

put16-bytes : (m : Memory) (p v : ℕ) → AllBytes m → AllBytes (put16 m p v)
unfolding put16
put16-bytes m p v h x = ground (arith, h x)

put32-bytes : (m : Memory) (p v : ℕ) → AllBytes m → AllBytes (put32 m p v)
unfolding put32
put32-bytes m p v h x = ground (arith, h x)

put16_all-bytes : (m : Memory) (fs : List Field) → AllBytes m → AllBytes (put16_all m fs)
unfolding put16_all
put16_all-bytes m [] h = h
put16_all-bytes m ((p, v) ∷ fs) h = put16_all-bytes (put16 m p v) fs (put16-bytes m p v h)

put32_all-bytes : (m : Memory) (fs : List Field) → AllBytes m → AllBytes (put32_all m fs)
unfolding put32_all
put32_all-bytes m [] h = h
put32_all-bytes m ((p, v) ∷ fs) h = put32_all-bytes (put32 m p v) fs (put32-bytes m p v h)

copy-bytes : (m : Memory) (p : ℕ) (bs : List ℕ) → AllBytes m → AllBytes (copy m p bs)
unfolding copy
copy-bytes m p [] h = h
copy-bytes m p (b ∷ bs) h = copy-bytes (put8 m p b) (p + 1) bs (put8-bytes m p b h)

pub sb_memory-bytes : (rest : Memory) (s : Sblock) → AllBytes rest → AllBytes (sb_memory rest s)
unfolding sb_memory
sb_memory-bytes rest s h =
    let sum = put32 rest 1020 s.checksum in
    let w = put32_all-bytes sum (words s) (put32-bytes rest 1020 s.checksum h) in
    let m = put32_all sum (words s) in
    let k = put16_all-bytes m (halves s) w in
    let fields = put16_all m (halves s) in
    let flex = put8-bytes fields 372 s.log_groups_per_flex k in
    copy-bytes _ 104 s.uuid (put8-bytes _ 373 s.checksum_type flex)

pub slice-IsBytes : (m : Memory) (p n : ℕ) → AllBytes m → IsBytes (slice m p n)
unfolding slice
slice-IsBytes m p zero h = tt
slice-IsBytes m p (suc n) h = (h p, slice-IsBytes m (p + 1) n h)

-- Two memories that agree on a byte still do after the same fields have been put into them.
put8-agree : (m m' : Memory) (p v x : ℕ) → m' x ≡ m x → put8 m' p v x ≡ put8 m p v x
unfolding put8
put8-agree m m' p v x h = ground (arith, h)

put16-agree : (m m' : Memory) (p v x : ℕ) → m' x ≡ m x → put16 m' p v x ≡ put16 m p v x
unfolding put16
put16-agree m m' p v x h = ground (arith, h)

put32-agree : (m m' : Memory) (p v x : ℕ) → m' x ≡ m x → put32 m' p v x ≡ put32 m p v x
unfolding put32
put32-agree m m' p v x h = ground (arith, h)

put16_all-agree :
    (m m' : Memory) (fs : List Field) (x : ℕ) → m' x ≡ m x → put16_all m' fs x ≡ put16_all m fs x
unfolding put16_all
put16_all-agree m m' [] x h = h
put16_all-agree m m' ((p, v) ∷ fs) x h =
    put16_all-agree (put16 m p v) (put16 m' p v) fs x (put16-agree m m' p v x h)

put32_all-agree :
    (m m' : Memory) (fs : List Field) (x : ℕ) → m' x ≡ m x → put32_all m' fs x ≡ put32_all m fs x
unfolding put32_all
put32_all-agree m m' [] x h = h
put32_all-agree m m' ((p, v) ∷ fs) x h =
    put32_all-agree (put32 m p v) (put32 m' p v) fs x (put32-agree m m' p v x h)

copy-agree :
    (m m' : Memory) (p : ℕ) (bs : List ℕ) (x : ℕ) → m' x ≡ m x → copy m' p bs x ≡ copy m p bs x
unfolding copy
copy-agree m m' p [] x h = h
copy-agree m m' p (b ∷ bs) x h =
    copy-agree (put8 m p b) (put8 m' p b) (p + 1) bs x (put8-agree m m' p b x h)

-- The bytes before the checksum are those of any other checksum.
pub sb_memory-checksum :
    (rest : Memory) (s : Sblock) (c x : ℕ)
    → x < 1020
    → sb_memory rest (record s { checksum = c }) x ≡ sb_memory rest s x
unfolding sb_memory
sb_memory-checksum rest s c x h =
    let before = put32-outside rest 1020 in
    let sum = before c x (inl h) ∙ sym (before s.checksum x (inl h)) in
    let w = put32_all-agree _ _ (words s) x sum in
    let k = put16_all-agree _ _ (halves s) x w in
    let flex = put8-agree _ _ 372 s.log_groups_per_flex x k in
    copy-agree _ _ 104 s.uuid x (put8-agree _ _ 373 s.checksum_type x flex)

-- Where two memories of the other fields agree on a byte, so do those of the superblock.
pub sb_memory-rest :
    (rest rest' : Memory) (s : Sblock) (x : ℕ)
    → rest' x ≡ rest x
    → sb_memory rest' s x ≡ sb_memory rest s x
unfolding sb_memory
sb_memory-rest rest rest' s x h =
    let w = put32_all-agree _ _ (words s) x (put32-agree rest rest' 1020 s.checksum x h) in
    let k = put16_all-agree _ _ (halves s) x w in
    let flex = put8-agree _ _ 372 s.log_groups_per_flex x k in
    copy-agree _ _ 104 s.uuid x (put8-agree _ _ 373 s.checksum_type x flex)
